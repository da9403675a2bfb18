-- ===== src/Proxy/System.antt =====
-- What the handlers call of the system beside the Rio package, and the small functions of proxy.c
-- that wrap it.
use tiny_proxy.Base.{ℕ, Bool, Option, none, some, List, [], ◌∷◌, ◌++◌}
use tiny_proxy.Base.Int.{ℤ, pos, negsuc}
use tiny_proxy.CString.{Bytes}
use tiny_proxy.Proxy.Rio.{
  Rio, Read, Io, EpollOp, rearm, maxline, Call, opened, closed, controlled, nonblocking,
}

-- A descriptor of epoll is an `int` that may be -1. `open_clientfd` gives no descriptor where it
-- fails, and `epoll_wait` no list where it returns -1; the list is that of the descriptors that are
-- ready. `epoll_ctl` tells whether it succeeded. `Close` ends the process where close(2) fails: this
-- is the state where it returns.
pub record System : Type 1 where
  pub rio : Rio
  pub rio_readinitb : ℕ → rio.World → ℕ × rio.World
  pub open_clientfd : Bytes → Bytes → rio.World → Option ℕ × rio.World
  pub close : ℤ → rio.World → rio.World
  pub epoll_create1 : rio.World → ℤ × rio.World
  pub epoll_ctl : EpollOp → ℤ → ℕ → rio.World → Bool × rio.World
  pub epoll_wait : ℤ → rio.World → Option (List ℕ) × rio.World
  pub read : ℕ → ℕ → rio.World → Read × rio.World
  pub fcntl : ℕ → rio.World → rio.World

-- A result of `epoll_create1` or `epoll_create`.
abbrev pub descriptor : ℤ → Option ℕ
descriptor (pos fd) = some fd
descriptor (negsuc _) = none

module _ (sys : System) where
  open sys use {rio}

  abbrev pub note : Call → Io rio → Io rio
  note c io = record io { log = io.log ++ (c ∷ []) }

  -- The call that gave a descriptor, if it did.
  abbrev pub note_new : Option ℕ → Io rio → Io rio
  note_new none io = io
  note_new (some fd) io = note (opened fd) io

  abbrev pub close : ℤ → Io rio → Io rio
  close fd io = note (closed fd) (record io { world = sys.close fd io.world })

  abbrev pub control : EpollOp → ℤ → ℕ → Io rio → Bool × Io rio
  control op epollfd fd io =
      let (ok, w) = sys.epoll_ctl op epollfd fd io.world in
      (ok, note (controlled op epollfd fd) (record io { world = w }))

  abbrev pub setnonblocking : ℕ → Io rio → Io rio
  setnonblocking fd io = note (nonblocking fd) (record io { world = sys.fcntl fd io.world })

  abbrev pub reset_oneshot : ℤ → ℕ → Io rio → Io rio
  reset_oneshot epollfd fd io = (control rearm epollfd fd io).1

  -- `read` of MAXLINE bytes.
  abbrev pub read_some : ℕ → Io rio → Read × Io rio
  read_some fd io = let (r, w) = sys.read fd maxline io.world in (r, record io { world = w })
