-- ===== src/Proxy/Accept/Turns.antt =====
-- Which thread gets a new connection.
use mathlib.Core.Path.{subst}
use tiny_proxy.Base.{
  ℕ, zero, suc, some, ◌+◌, ◌%◌, ◌<◌, ◌≡◌, sym, ap, ◌∙◌, Bool, true, false, List, [], ◌∷◌, ◌++◌,
  ◌==◌, arith, append-nil, append_assoc, Bool-cases, inl, inr, ◌≢◌, if◌then◌else◌,
}
use tiny_proxy.Base.Int.{ℤ}
use tiny_proxy.Proxy.Rio.{Io, Call, opened, nonblocking, controlled, EpollOp, add_oneshot}
use tiny_proxy.Proxy.System.{System}
use tiny_proxy.Proxy.Accept.{
  connfd_pool_size, is_positive, go_on, continue, registered, accept_client, serve_events,
}

abbrev pub count : ℕ → List ℕ → ℕ
count a [] = 0
count a (b ∷ l) = let n = count a l in if b == a then suc n else n

-- Connections from the number `k` on: that of number `n` is set to nonblocking mode and registered with
-- the thread `n % 100`.
abbrev pub registrations : (ℕ → ℤ) → ℕ → List ℕ → List Call
registrations epoll_list k [] = []
registrations epoll_list k (fd ∷ l) =
    opened fd
    ∷ nonblocking fd
    ∷ controlled add_oneshot (epoll_list (k % connfd_pool_size)) fd
    ∷ registrations epoll_list (k + 1) l

-- The descriptors that a function numbers, `n` of them from the number `k` on.
abbrev pub numbers : (ℕ → ℕ) → ℕ → ℕ → List ℕ
numbers f k zero = []
numbers f k (suc n) = f k ∷ numbers f (k + 1) n

-- What happens to a process that waits on `epollfd` and accepts on `listenfd`: the wait with the number
-- `n` gives the descriptors `ready n`, and the connection with the number `n` has the descriptor
-- `conn n`. `At n k w` holds after `n` waits and `k` connections. No registration fails, and
-- registering and fcntl(2) neither wait nor accept.
pub record Arrivals (sys : System) (accept : ℕ → sys.rio.World → ℕ × sys.rio.World) (listenfd : ℕ)
    (epollfd : ℤ) : Type 1 where
  pub ready : ℕ → List ℕ
  pub conn : ℕ → ℕ
  pub At : (n k : ℕ) → sys.rio.World → Type 0
  pub waited :
      (n k : ℕ) (w : sys.rio.World)
      → At n k w
      → ((sys.epoll_wait epollfd w).0 ≡ some (ready n)) × At (n + 1) k (sys.epoll_wait epollfd w).1
  pub accepted :
      (n k : ℕ) (w : sys.rio.World)
      → At n k w
      → ((accept listenfd w).0 ≡ conn k) × At n (k + 1) (accept listenfd w).1
  pub registers :
      (n k : ℕ) (op : EpollOp) (e : ℤ) (fd : ℕ) (w : sys.rio.World)
      → At n k w
      → ((sys.epoll_ctl op e fd w).0 ≡ true) × At n k (sys.epoll_ctl op e fd w).1
  pub sets_flags : (n k fd : ℕ) (w : sys.rio.World) → At n k w → At n k (sys.fcntl fd w)

true_ne_false : true ≢ false
true_ne_false e = cc

next_turn : (k : ℕ) → (k % connfd_pool_size + 1) % connfd_pool_size ≡ (k + 1) % connfd_pool_size
next_turn k = omega arith

in_pool : (k : ℕ) → k % connfd_pool_size < connfd_pool_size
in_pool k = omega arith

three :
    {A : Type 0} (l0 : List A) (a b c : A) (l : List A)
    → (((l0 ++ (a ∷ [])) ++ (b ∷ [])) ++ (c ∷ [])) ++ l ≡ l0 ++ (a ∷ b ∷ c ∷ l)
three l0 a b c l =
    append_assoc ((l0 ++ (a ∷ [])) ++ (b ∷ [])) (c ∷ []) l
    ∙ append_assoc (l0 ++ (a ∷ [])) (b ∷ []) (c ∷ l)
    ∙ append_assoc l0 (a ∷ []) (b ∷ c ∷ l)

module _ (sys : System) (accept : ℕ → sys.rio.World → ℕ × sys.rio.World) (epoll_list : ℕ → ℤ)
    (listenfd : ℕ) {epollfd : ℤ} (arrivals : Arrivals sys accept listenfd epollfd) where
  open sys use {rio}
  open arrivals use {At, conn}

  registered_lem :
      (k : ℕ) (q : Bool × Io rio)
      → q.0 ≡ true
      → registered sys accept epoll_list listenfd (k % connfd_pool_size) q
        ≡ go_on ((k + 1) % connfd_pool_size) q.1
  registered_lem k (true, io) e = ap (λ n. go_on n io) (next_turn k)
  registered_lem k (false, io) e = absurd (true_ne_false (sym e))

  accept_lem :
      (n k : ℕ) (io : Io rio)
      → is_positive (epoll_list (k % connfd_pool_size)) ≡ true
      → At n k io.world
      → (io' : Io rio) × (accept_client sys accept epoll_list listenfd (k % connfd_pool_size) io
          ≡ go_on ((k + 1) % connfd_pool_size) io')
        × (io'.log
            ≡ ((io.log ++ (opened (conn k) ∷ [])) ++ (nonblocking (conn k) ∷ []))
              ++ (controlled add_oneshot (epoll_list (k % connfd_pool_size)) (conn k) ∷ []))
        × At n (k + 1) io'.world
  unfolding accept_client
  accept_lem n k io positive here =
      let e : ℤ = epoll_list (k % connfd_pool_size) in
      let (same, there) = arrivals.accepted n k io.world here in
      let fd : ℕ = (accept listenfd io.world).0 in
      let w : rio.World = sys.fcntl fd (accept listenfd io.world).1 in
      let (works, at) =
        arrivals.registers n (k + 1) add_oneshot e fd w
          (arrivals.sets_flags n (k + 1) fd (accept listenfd io.world).1 there) in
      rw positive (
        _,
        registered_lem k _ works,
        ap
            (λ x.
              ((io.log ++ (opened x ∷ [])) ++ (nonblocking x ∷ []))
              ++ (controlled add_oneshot e x ∷ []))
            same,
        at,
      )

  new_connection :
      (fd : ℕ) (ready : List ℕ) (round_robin : ℕ) (io : Io rio)
      → (fd == listenfd) ≡ true
      → serve_events sys accept epoll_list listenfd (fd ∷ ready) round_robin io
        ≡ continue
            (accept_client sys accept epoll_list listenfd round_robin io)
            (λ next i. serve_events sys accept epoll_list listenfd ready next i)
  unfolding serve_events
  new_connection fd ready round_robin io e = simp (e, serve_events)

  unexpected :
      (fd : ℕ) (ready : List ℕ) (round_robin : ℕ) (io : Io rio)
      → (fd == listenfd) ≡ false
      → serve_events sys accept epoll_list listenfd (fd ∷ ready) round_robin io
        ≡ serve_events sys accept epoll_list listenfd ready round_robin io
  unfolding serve_events
  unexpected fd ready round_robin io e = simp (e, serve_events)

  -- If the threads have made their descriptors of epoll: of the descriptors that are ready, each that is
  -- the listening one gives the next connection, the others give none, and the connection with the
  -- number `n` goes to the thread `n % 100`. Neither the assertion fails nor the process ends.
  pub serve_events-registrations :
      (ready : List ℕ) (n k : ℕ) (io : Io rio)
      → ((i : ℕ) → i < connfd_pool_size → is_positive (epoll_list i) ≡ true)
      → At n k io.world
      → (io' : Io rio) × (serve_events sys accept epoll_list listenfd ready
            (k % connfd_pool_size)
            io
          ≡ go_on ((k + count listenfd ready) % connfd_pool_size) io')
        × (io'.log ≡ io.log ++ registrations epoll_list k (numbers conn k (count listenfd ready)))
        × At n (k + count listenfd ready) io'.world
  unfolding serve_events
  serve_events-registrations [] n k io made here = (
    io,
    ap (λ m. go_on (m % connfd_pool_size) io) (omega arith),
    sym (append-nil io.log),
    subst (λ m. At n m io.world) (omega arith) here,
  )
  serve_events-registrations (fd ∷ ready) n k io made here = elim (Bool-cases (fd == listenfd)) [
    | inl e ↦
        let (io1, e1, log1, there) =
          accept_lem n k io (made (k % connfd_pool_size) (in_pool k)) here in
        let (io2, e2, log2, at) = serve_events-registrations ready n (k + 1) io1 made there in
        let more : List Call =
          registrations epoll_list (k + 1) (numbers conn (k + 1) (count listenfd ready)) in
        rw e (
          io2,
          new_connection fd ready (k % connfd_pool_size) io e
              ∙ ap
                  (λ x.
                    continue x (λ next i. serve_events sys accept epoll_list listenfd ready next i))
                  e1
              ∙ e2
              ∙ ap (λ m. go_on (m % connfd_pool_size) io2) (omega arith),
          log2 ∙ ap (λ x. x ++ more) log1 ∙ three io.log _ _ _ more,
          subst (λ m. At n m io2.world) (omega arith) at,
        )
    | inr e ↦
        let (io2, e2, log2, at) = serve_events-registrations ready n k io made here in
        rw e (io2, unexpected fd ready (k % connfd_pool_size) io e ∙ e2, log2, at)
  ]
