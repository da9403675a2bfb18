-- ===== src/Tests/Doit.antt =====
-- Examples of `doit` and the handlers below it.
use tiny_proxy.Base.{
  ℕ, Bool, true, false, ◌≡◌, refl, List, [], ◌∷◌, ◌++◌, All, ◌==◌, arith, ==_same, if◌then◌else◌,
}
use tiny_proxy.Base.Int.{pos, ◌==ℤ◌}
use tiny_proxy.CString.{Bytes, bytes}
use tiny_proxy.RequestLine.Step.{RequestlineData}
use tiny_proxy.Proxy.Rio.{Call, opened, wrote, closed, controlled, nonblocking, add, Io, done}
use tiny_proxy.Proxy.Header.{Header, ConnectionStatus}
use tiny_proxy.Proxy.Request.{forward_requestheader}
use tiny_proxy.Proxy.Reply.{forward_reply, reply_nonconnection}
use tiny_proxy.Proxy.Reply.Once.{pieces, join, reply_nonconnection-sends}
use tiny_proxy.Proxy.Relay.Drain.{drain-sends}
use tiny_proxy.Proxy.Frame.{Ensures, Keeps}
use tiny_proxy.Proxy.Frame.Request.{forward_requestheader-Ensures}
use tiny_proxy.Proxy.Frame.Reply.{forward_reply-Ensures}
use tiny_proxy.Proxy.Ledger.{Ledger, usage, without}
use tiny_proxy.Proxy.Relay.{drain, connect_handler}
use tiny_proxy.Proxy.Ledger.Relay.{connect_handler-Ensures}
use tiny_proxy.Proxy.Doit.{Garbage, Uninitialised, doit}
use tiny_proxy.Proxy.Ledger.Doit.{pair, Outcome, doit-Outcome}
use tiny_proxy.Tests.Scripted.{scripted, peer, arrived, socket}
use tiny_proxy.Tests.Watched.{watched_rio, watched, watching, descriptors, three_open, three_OpenIn}

-- The client's descriptor is 5, the next one 9.
abbrev pub from_peers : Bytes → Bytes → Io scripted
from_peers client server = record {
  world = record { streams = λ rp. if rp == 5 then client else server; fresh = 9 };
  log = [];
}

abbrev no_header : Header
no_header = record { headername = []; headerdata = [] }

abbrev empty_status : ConnectionStatus
empty_status = record {
  server_setclose = false;
  client_setclose = false;
  client_transfer_encoding = [];
  server_transfer_encoding = [];
  client_trailer = [];
  server_trailer = [];
  client_shuttingdown = false;
  server_shuttingdown = false;
  client_content_length = pos 0;
  server_content_length = pos 0;
  content_type = [];
}

abbrev zeros : Garbage
zeros = record {
  buf = [];
  version = [];
  header = no_header;
  contents = λ n. [];
  chunk_buf = [];
  content_length = 0;
}

abbrev no_data : RequestlineData
no_data = record { method = []; schema = []; host = []; port = []; loc = []; version = [] }

abbrev pub blank : Uninitialised
blank = record {
  line = [];
  positive = false;
  rqdata = no_data;
  cstatus = empty_status;
  request = zeros;
  reply = zeros;
}

abbrev get_client : Io watched_rio
get_client =
    watching (bytes "GET http://a.org/x HTTP/1.0\r\nAccept: a/b\r\n\r\n")
      (bytes "HTTP/1.0 200 OK\r\n\r\nhello")

pair_of : (a : ℕ) → pair 5 4 a ≡ true → three_open a ≡ true
pair_of a h = ground arith

doit-Outcome_example :
    Ensures (Outcome descriptors get_client 5 4) (doit watched 4 blank (pos 3) 5 (pos 4) get_client)
unfolding descriptors ◌==ℤ◌
doit-Outcome_example =
    doit-Outcome descriptors (λ w. (w.net.fresh, refl)) 4 blank (pos 3) 5 4 get_client refl refl
      (λ a h. three_OpenIn [] [] a (pair_of a h)) refl

abbrev tunnel : Io watched_rio
tunnel = watching [] []

abbrev neither : ℕ → Bool
neither = without (without three_open 5) 6

connect_handler-Ensures_example :
    Ensures
      (Ledger descriptors tunnel three_open neither)
      (connect_handler watched 2 (pos 3) 5 6 tunnel)
unfolding descriptors ◌==ℤ◌ usage
connect_handler-Ensures_example =
    connect_handler-Ensures descriptors tunnel three_open three_open 5 6 refl refl refl 2 (pos 3) 9
      tunnel refl refl ([], refl, λ a. refl, λ a h. three_OpenIn [] [] a h, refl)

-- The client has closed: the tunnel ends in its first round, with every call on an open descriptor, and
-- the three descriptors are closed.
tunnel_runs :
    (io : Io watched_rio) × (connect_handler watched 2 (pos 3) 5 6 tunnel ≡ done tt io)
    × (io.world.safe ≡ true)
    × (io.log
        ≡ opened 9
          ∷ nonblocking 6
          ∷ controlled add (pos 9) 6
          ∷ nonblocking 5
          ∷ controlled add (pos 9) 5
          ∷ wrote 5 (bytes "\r\n")
          ∷ closed (pos 5)
          ∷ closed (pos 6)
          ∷ closed (pos 9)
          ∷ [])
unfolding connect_handler ◌==ℤ◌
tunnel_runs = (_, refl, refl, refl)

-- The calls are writes to 9.
abbrev writes_to : ℕ → Call → Bool
writes_to fd (wrote fd' bs) = fd' == fd
writes_to fd _ = false

abbrev OnlyWrites : ℕ → Io scripted → Type 0
OnlyWrites fd io = All (λ c. writes_to fd c ≡ true) io.log

All-append :
    (fd : ℕ) (l : List Call) (c : Call)
    → All (λ x. writes_to fd x ≡ true) l
    → writes_to fd c ≡ true
    → All (λ x. writes_to fd x ≡ true) (l ++ (c ∷ []))
All-append fd [] c h k = (k, tt)
All-append fd (x ∷ l) c h k = (h.0, All-append fd l c h.1 k)

OnlyWrites-Keeps : (rp fd : ℕ) → Keeps scripted rp fd (OnlyWrites fd)
OnlyWrites-Keeps rp fd = record {
  line = λ io h. h;
  block = λ n io h. h;
  write = λ bs io h. All-append fd io.log (wrote fd bs) h (==_same fd);
}

forward_requestheader-Ensures_example : Ensures (OnlyWrites 9) (
    forward_requestheader scripted 4 9 5
      (bytes "a.org")
      (bytes "GET")
      []
      no_header
      (λ n. [])
      []
      0
      empty_status
      (from_peers (bytes "Accept: a/b\r\n\r\n") []))
forward_requestheader-Ensures_example =
    forward_requestheader-Ensures (OnlyWrites-Keeps 5 9) 4 (bytes "a.org") (bytes "GET") []
      no_header (λ n. []) [] 0 empty_status (from_peers (bytes "Accept: a/b\r\n\r\n") []) tt

forward_reply-Ensures_example : Ensures (OnlyWrites 5) (
    forward_reply scripted 4 5 9 [] [] no_header
      (λ n. [])
      []
      0
      empty_status
      (from_peers [] (bytes "HTTP/1.0 200 OK\r\n\r\n")))
forward_reply-Ensures_example =
    forward_reply-Ensures (OnlyWrites-Keeps 9 5) 4 [] [] no_header (λ n. []) [] 0 empty_status
      (from_peers [] (bytes "HTTP/1.0 200 OK\r\n\r\n")) tt

reply_nonconnection-sends_example :
    (ps : List Bytes) × (io : Io scripted) × (reply_nonconnection scripted 2 5 9
        (from_peers [] (bytes "HTTP/1.0 200 OK\r\n\r\nhello"))
      ≡ done tt io)
    × (io.log ≡ pieces 5 ps)
    × (join ps ≡ bytes "HTTP/1.0 200 OK\r\n\r\nhello")
    × (io.world.streams 9 ≡ [])
unfolding peer
reply_nonconnection-sends_example =
    reply_nonconnection-sends scripted 9 (peer 9) 5 1 (bytes "HTTP/1.0 200 OK\r\n\r\nhello")
      (from_peers [] (bytes "HTTP/1.0 200 OK\r\n\r\nhello")) (omega arith) refl

drain-sends_example :
    (ps : List Bytes) × (io : Io scripted) × (drain arrived 2 5 9 false
        (from_peers (bytes "hello") [])
      ≡ done false io)
    × (io.log ≡ pieces 9 ps)
    × (join ps ≡ bytes "hello")
    × (io.world.streams 5 ≡ [])
unfolding socket
drain-sends_example =
    drain-sends (socket 5) 9 false 1 (bytes "hello") (from_peers (bytes "hello") []) (omega arith)
      refl
