-- ===== src/Proxy/Accept.antt =====
-- `main` of proxy.c for the descriptors that are ready: a new connection is given to a thread.
pub mod Turns
pub mod Rounds
use tiny_proxy.Base.{
  ℕ, zero, suc, ◌+◌, ◌%◌, Bool, true, false, Option, none, some, List, [], ◌∷◌, ◌==◌, if◌then◌else◌,
}
use tiny_proxy.Base.Int.{ℤ, pos, negsuc, ◌==ℤ◌}
use tiny_proxy.Proxy.Rio.{Rio, Io, opened, add_level, add_oneshot}
use tiny_proxy.Proxy.System.{System, descriptor, note, note_new, control, setnonblocking}

-- CONNFD_POOL_SIZE
abbrev pub connfd_pool_size : ℕ
connfd_pool_size = 100

abbrev pub is_positive : ℤ → Bool
is_positive (pos zero) = false
is_positive (pos (suc n)) = true
is_positive (negsuc n) = false

-- `ended` is a call of `exit`.
pub data Main (rio : Rio) : Type 0 where
  go_on : (round_robin : ℕ) → Io rio → Main rio
  aborted : Main rio
  ended : Main rio

abbrev pub continue : {rio : Rio} → Main rio → (ℕ → Io rio → Main rio) → Main rio
continue (go_on round_robin io) k = k round_robin io
continue aborted k = aborted
continue ended k = ended

-- `accept` is `Accept` of csapp.c, which ends the process where it fails. `epoll_list` holds the
-- descriptors of epoll of the threads.
module _ (sys : System) (accept : ℕ → sys.rio.World → ℕ × sys.rio.World) (epoll_list : ℕ → ℤ)
    (listenfd : ℕ) where
  open sys use {rio}

  abbrev pub registered : ℕ → Bool × Io rio → Main rio
  registered round_robin (true, io) = go_on ((round_robin + 1) % connfd_pool_size) io
  registered round_robin (false, io) = ended

  unfoldable pub accept_client : ℕ → Io rio → Main rio
  accept_client round_robin io =
      let (connfd, w) = accept listenfd io.world in
      let io' = setnonblocking sys connfd (note sys (opened connfd) (record io { world = w })) in
      if is_positive (epoll_list round_robin)
      then registered round_robin (control sys add_oneshot (epoll_list round_robin) connfd io')
      else aborted

  -- The loop over the descriptors that `epoll_wait` gave.
  unfoldable pub serve_events : List ℕ → ℕ → Io rio → Main rio
  unfolding accept_client
  serve_events [] round_robin io = go_on round_robin io
  serve_events (fd ∷ ready) round_robin io = elim (fd == listenfd) [
    | true ↦ continue (accept_client round_robin io) (λ next i. serve_events ready next i)
    | false ↦ serve_events ready round_robin io
  ]

  abbrev pub after_ready : (ℕ → Io rio → Main rio) → ℕ → Option (List ℕ) × Io rio → Main rio
  after_ready k round_robin (none, io) = ended
  after_ready k round_robin (some ready, io) = continue (serve_events ready round_robin io) k

  -- The endless loop, for a number of rounds.
  unfoldable pub accept_loop : (rounds : ℕ) (epollfd : ℤ) (round_robin : ℕ) → Io rio → Main rio
  unfolding serve_events
  accept_loop zero epollfd round_robin io = go_on round_robin io
  accept_loop (suc rounds) epollfd round_robin io =
      let (r, w) = sys.epoll_wait epollfd io.world in
      after_ready (λ next i. accept_loop rounds epollfd next i) round_robin
        (r, record io { world = w })

  abbrev pub listening : (ℕ → Io rio → Main rio) → Bool × Io rio → Main rio
  listening k (true, io) = k 0 io
  listening k (false, io) = ended

  -- `main` from `epoll_create` on, which gives what `created` says. The threads are started on the way;
  -- `epoll_list` is what they have written when the first connection comes.
  unfoldable pub main_from :
      (rounds : ℕ) → (created : sys.rio.World → ℤ × sys.rio.World) → Io rio → Main rio
  unfolding accept_loop
  main_from rounds created io =
      let (epollfd, w) = created io.world in
      let io' = note_new sys (descriptor epollfd) (record io { world = w }) in
      if epollfd ==ℤ negsuc 0
      then ended
      else listening (λ next i. accept_loop rounds epollfd next i)
          (control sys add_level epollfd listenfd io')
