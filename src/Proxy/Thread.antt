-- ===== src/Proxy/Thread.antt =====
-- `connfd_handler` of proxy.c: a thread waits for its connections and serves those that are ready.
pub mod Events
use tiny_proxy.Base.{ℕ, zero, suc, Bool, Option, none, some, List, [], ◌∷◌, ◌==◌, if◌then◌else◌}
use tiny_proxy.Base.Int.{ℤ, pos, negsuc, ◌==ℤ◌}
use tiny_proxy.Proxy.Rio.{Io, Run, done, and_then, opened}
use tiny_proxy.Proxy.System.{System, descriptor, note_new}
use tiny_proxy.Proxy.Doit.{Uninitialised, doit}

-- Whether the thread goes on or has ended the process.
pub data Waited : Type 0 where
  waits exits : Waited

-- `memory` is what the variables of `doit` hold when it is called. `fuel` bounds its loops.
module _ (sys : System) (memory : Io sys.rio → Uninitialised) (fuel : ℕ) (main_epollfd : ℤ) where
  open sys use {rio}

  -- The loop over the descriptors that `epoll_wait` gave.
  unfoldable pub handle_events : (conn_epollfd : ℤ) → List ℕ → Io rio → Run rio (Unit {0})
  unfolding doit
  handle_events conn_epollfd [] io = done tt io
  handle_events conn_epollfd (fd ∷ ready) io =
      and_then rio (doit sys fuel (memory io) main_epollfd fd conn_epollfd io)
        (λ _ i. handle_events conn_epollfd ready i)

  abbrev pub after_events :
      ℤ → (Io rio → Run rio Waited) → Option (List ℕ) × Io rio → Run rio Waited
  after_events conn_epollfd k (none, io) = done exits io
  after_events conn_epollfd k (some ready, io) =
      and_then rio (handle_events conn_epollfd ready io) (λ _ i. k i)

  -- The endless loop, for a number of rounds.
  unfoldable pub wait_loop : (rounds : ℕ) (conn_epollfd : ℤ) → Io rio → Run rio Waited
  unfolding handle_events
  wait_loop zero conn_epollfd io = done waits io
  wait_loop (suc rounds) conn_epollfd io =
      let (r, w) = sys.epoll_wait conn_epollfd io.world in
      after_events conn_epollfd (λ i. wait_loop rounds conn_epollfd i) (r, record io { world = w })

  -- The thread with the number `i`, which writes its descriptor of epoll into `epoll_list`. `created` is
  -- what `epoll_create` gives.
  unfoldable pub connfd_handler :
      (rounds i : ℕ)
      → (epoll_list : ℕ → ℤ) → (created : sys.rio.World → ℤ × sys.rio.World) → Io rio
      → (ℕ → ℤ) × Run rio Waited
  unfolding wait_loop
  connfd_handler rounds i epoll_list created io =
      let (conn_epollfd, w) = created io.world in
      let io' = note_new sys (descriptor conn_epollfd) (record io { world = w }) in
      (
        λ j. if j == i then conn_epollfd else epoll_list j,
        if conn_epollfd ==ℤ negsuc 0 then done exits io' else wait_loop rounds conn_epollfd io',
      )

  -- `doit` for a descriptor that `main` itself has registered.
  abbrev pub doit_proxy : ℕ → Io rio → Run rio (Unit {0})
  doit_proxy fd io = doit sys fuel (memory io) main_epollfd fd main_epollfd io
