-- ===== src/Lib.antt =====
-- A proxy server for HTTP, in C: threads take accepted connections, read a request line, connect to
-- the host that it names, and forward the request's header and body and the server's reply.
--
-- RequestLine models tools/parse_requestline.h and tools/parse_requestline.c. Step has the record
--   that is filled, the states and one function for each `case`; Run has the loop
--   and `parse_requestline`; Grammar says what a request line is and how it is written. A line is a
--   list of bytes without its NUL, a pointer into it the list from there on. A write past the end of
--   a field is the outcome `overflowed`. The remaining files prove.
-- Hashmap models tools/concurrent_hashmap.h and tools/concurrent_hashmap.c: Chain the entries behind
--   a slot, Table the segments, Ops the functions. The global variable `hash_capacity` is an argument.
--   An operation is run as a whole; Race runs the parts of two operations in turn. `none` is an
--   access outside the arrays. View has the invariant and the map that a table stands for.
-- Bqueue models tools/bqueue.h and tools/bqueue.c: Ops the functions on an explicit heap, each as what
--   a thread does while it holds the lock; Fifo the list of values that a queue stands for. A thread
--   that would wait on the condition variable is the outcome `waits`. `none` is an access to memory
--   that is not allocated.
-- Threadpool models tools/threadpool.h and tools/threadpool.c: Ops what a thread does to the list of
--   tasks while it holds the lock, on an explicit heap, Machine the pool with its workers and the steps
--   that they take in any order, Wake the same with workers that sleep on the condition variable, the
--   signals and `threadpool_destroy` up to its joins. Its memory and that of Bqueue is that of
--   Base.Linked.
-- Proxy models proxy.c. Accept has `main` from `epoll_create` on, Thread `connfd_handler`, Doit `doit`,
--   Request `forward_requestheader` and `clienterror`, Reply `forward_reply` and
--   `reply_nonconnection`, Chunked `forward_chunked`, `getchunksize` and `hex2num`, Relay
--   `connect_handler`, Connect `do_connect`; Header has the record of proxy.h and the standard
--   functions that take a header line apart, Buffer the arrays of characters. Rio is what they call of
--   the Rio package of csapp.c, System what they call of the operating system and of `open_clientfd` and `Close`, with
--   `setnonblocking` and `reset_oneshot`: both are parameters. `Stream` states what the package
--   promises for a peer's bytes, `Source` (in Relay.Drain) what read(2) promises, `Descriptors` (in
--   Ledger) what the system promises for descriptors, `Arrivals` (in Accept.Turns) what the waits
--   and `accept` give to `main`.
--   Header.Fields and Body describe a header and a body as data, with what the header announces of
--   the body; the modules Whole and Doit.Exchange say what becomes of a message so described.
--   A handler passes on the state of the system and the calls made so far. Frame says what the
--   handlers leave alone, Ledger on which descriptors they make calls and which they leave open,
--   and the modules of Doit compose the theorems on the parts.
-- CString has the functions of ctype.h and string.h that the sources call, Base what all modules
--   share, Tests runs the definitions and the theorems on concrete data. Tests.Scripted is a system
--   over given bytes that keeps these promises, Tests.Watched the same one with its open
--   descriptors.
--
-- An `int` that overflows is undefined behaviour: `none` in `getchunksize`, `fault` in a handler. The
-- one exception is the sum of the chunk sizes, whose variable is not initialised and whose value no
-- caller reads: it is kept as 32 bits. A `size_t` wraps around.
-- The endless loops of `main` and of a thread run for a given number of rounds.
-- The loops over a connection run on fuel. The theorems that say what a handler does say how much
-- is enough: one more than the chunks of a body, one more than the fields of a header and the chunks
-- behind it together, two more than the blocks of 8192 bytes of a reply of HTTP/1.0, and for a
-- whole exchange those of the request and of the reply together; one round for a stream that has
-- ended. The theorems of Frame and Ledger hold for any fuel and any
-- peer, where the loops need not end; they are about the runs that return. The parser takes none.
--
-- Not modelled: in proxy.c the sockets and the start of the threads in `main`, and the helpers that
-- no handler calls; `hashmap_destroy`; `bqueue_init`, which sets nothing that the model has; in
-- tools/threadpool.c what `threadpool_destroy` frees, and `threadpool_adjust`, which only signals,
-- with the join of its thread; csapp.c, which is third-party code. What is printed to the terminal is left out, and so is the
-- page that `clienterror` makes and does not send.
pub mod Base
pub mod CString
pub mod RequestLine
pub mod Hashmap
pub mod Bqueue
pub mod Threadpool
pub mod Proxy
pub mod Tests
