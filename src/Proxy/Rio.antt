-- ===== src/Proxy/Rio.antt =====
-- What proxy.c uses of the Rio package of csapp.c, and the outcome of a handler.
use tiny_proxy.Base.{ℕ, ◌+◌, ◌<◌, ◌≤◌, ◌≡◌, List, [], ◌∷◌, ◌++◌, length, All, false, ◌==◌}
use tiny_proxy.Base.Int.{ℤ}
use tiny_proxy.CString.{Bytes}

abbrev pub maxline : ℕ
maxline = 8192

-- The values of `errno` that the handlers ask for: one of EINTR, EAGAIN and EWOULDBLOCK, or any
-- other.
pub data Errno : Type 0 where
  again : Errno
  hard : Errno

-- What a call of `rio_readlineb` or `rio_readnb` puts in the buffer, and its return value: the
-- number of bytes of `got`, 0, or -1 after some bytes.
pub data Read : Type 0 where
  got : Bytes → Read
  eof : Read
  failed : Errno → Bytes → Read

-- The package over the state of the system. Streams and descriptors are numbers; the result of
-- `rio_writen` is used nowhere.
pub record Rio : Type 1 where
  pub World : Type 0
  pub rio_readlineb : ℕ → World → Read × World
  pub rio_readnb : ℕ → ℕ → World → Read × World
  pub rio_writen : ℕ → Bytes → World → World

-- What the package documents of a stream on which a peer's bytes arrive: `At bytes w` says that in
-- the state `w` these bytes are still to be read from `rp`, and no error occurs before their end.
pub record Stream (rio : Rio) (rp : ℕ) : Type 1 where
  pub At : Bytes → rio.World → Type 0
  pub line :
      (l rest : Bytes) (w : rio.World)
      → At (l ++ (b'\n' ∷ rest)) w
      → All (λ c. (c == b'\n') ≡ false) l
      → length l + 2 ≤ maxline
      → (w' : rio.World) × (rio.rio_readlineb rp w ≡ (got (l ++ (b'\n' ∷ [])), w')) × At rest w'
  pub block :
      (bs rest : Bytes) (w : rio.World)
      → At (bs ++ rest) w
      → 0 < length bs
      → (w' : rio.World) × (rio.rio_readnb rp (length bs) w ≡ (got bs, w')) × At rest w'
  -- Fewer bytes than asked for come only at the end of the stream.
  pub rest :
      (bs : Bytes) (n : ℕ) (w : rio.World)
      → At bs w
      → 0 < length bs
      → length bs < n
      → (w' : rio.World) × (rio.rio_readnb rp n w ≡ (got bs, w')) × At [] w'
  pub line_end :
      (w : rio.World) → At [] w → (w' : rio.World) × (rio.rio_readlineb rp w ≡ (eof, w')) × At [] w'
  pub block_end :
      (n : ℕ) (w : rio.World)
      → At [] w
      → (w' : rio.World) × (rio.rio_readnb rp n w ≡ (eof, w')) × At [] w'
  pub no_bytes :
      (bs : Bytes) (w : rio.World)
      → At bs w
      → (w' : rio.World) × (rio.rio_readnb rp 0 w ≡ (eof, w')) × At bs w'
  pub write : (fd : ℕ) (out bs : Bytes) (w : rio.World) → At bs w → At bs (rio.rio_writen fd out w)

-- `op` of `epoll_ctl`: registered with EPOLLIN alone, with EPOLLIN and EPOLLET, or with these and
-- EPOLLONESHOT; armed again with these three, or taken out.
pub data EpollOp : Type 0 where
  add_level add add_oneshot rearm delete : EpollOp

-- What a handler does to descriptors, other than reading: it gets a new one from `open_clientfd`,
-- `epoll_create1` or `Accept`, and calls `rio_writen`, `Close`, `epoll_ctl` on a descriptor of epoll, and the
-- `fcntl` of `setnonblocking`.
pub data Call : Type 0 where
  opened : ℕ → Call
  wrote : ℕ → Bytes → Call
  closed : ℤ → Call
  controlled : EpollOp → ℤ → ℕ → Call
  nonblocking : ℕ → Call

module _ (rio : Rio) where
  -- The state of the system, and what the handler has done.
  pub record Io : Type 0 where
    pub world : rio.World
    pub log : List Call

  -- `aborted` is a failed assertion, `fault` undefined behaviour.
  pub data Run (A : Type 0) : Type 0 where
    done : A → Io → Run A
    aborted : Run A
    fault : Run A
    out_of_fuel : Run A

  abbrev pub send : ℕ → Bytes → Io → Io
  send fd bs io = record {
    world = rio.rio_writen fd bs io.world;
    log = io.log ++ (wrote fd bs ∷ []);
  }

  -- What follows a call that may not return.
  abbrev pub and_then : {A B : Type 0} → Run A → (A → Io → Run B) → Run B
  and_then (done a io) k = k a io
  and_then aborted k = aborted
  and_then fault k = fault
  and_then out_of_fuel k = out_of_fuel
