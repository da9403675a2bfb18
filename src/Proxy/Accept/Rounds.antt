-- ===== src/Proxy/Accept/Rounds.antt =====
-- Which thread gets a new connection, from the start of the process on.
use tiny_proxy.Base.{
  ℕ, zero, suc, ◌+◌, ◌%◌, ◌<◌, ◌≡◌, refl, sym, ap, ◌∙◌, Bool, true, false, List, [], ◌∷◌, ◌++◌,
  arith, append-nil, append_assoc, ◌≢◌,
}
use tiny_proxy.Base.Int.{ℤ, pos, ◌==ℤ◌}
use tiny_proxy.Proxy.Rio.{Io, opened, controlled, add_level}
use tiny_proxy.Proxy.System.{System, control}
use tiny_proxy.Proxy.Accept.{
  connfd_pool_size, is_positive, Main, go_on, continue, after_ready, listening, accept_loop,
  main_from,
}
use tiny_proxy.Proxy.Accept.Turns.{
  Arrivals, count, numbers, registrations, serve_events-registrations,
}

registrations-append :
    (epoll_list : ℕ → ℤ) (conn : ℕ → ℕ) (k m n : ℕ)
    → registrations epoll_list k (numbers conn k m)
        ++ registrations epoll_list (k + m) (numbers conn (k + m) n)
      ≡ registrations epoll_list k (numbers conn k (m + n))
registrations-append epoll_list conn k zero n =
    ap (λ x. registrations epoll_list x (numbers conn x n)) (omega arith)
    ∙ ap (λ x. registrations epoll_list k (numbers conn k x)) (omega arith)
registrations-append epoll_list conn k (suc m) n =
    ap (λ x. registrations epoll_list k (conn k ∷ []) ++ x)
      (ap
          (λ x.
            registrations epoll_list (k + 1) (numbers conn (k + 1) m)
            ++ registrations epoll_list x (numbers conn x n))
          (omega arith)
        ∙ registrations-append epoll_list conn (k + 1) m n)
    ∙ ap (λ x. registrations epoll_list k (numbers conn k x)) one_more
  where
    one_more : suc (m + n) ≡ suc m + n
    one_more = omega arith

-- How often the listening descriptor is ready in `rounds` waits from the one with the number `n` on.
abbrev pub arrived : (ℕ → List ℕ) → ℕ → ℕ → ℕ → ℕ
arrived ready listenfd n zero = 0
arrived ready listenfd n (suc rounds) =
    count listenfd (ready n) + arrived ready listenfd (n + 1) rounds

true_ne_false : true ≢ false
true_ne_false e = cc

module _ (sys : System) (accept : ℕ → sys.rio.World → ℕ × sys.rio.World) (epoll_list : ℕ → ℤ)
    (listenfd epollfd : ℕ) (arrivals : Arrivals sys accept listenfd (pos epollfd))
    (made : (i : ℕ) → i < connfd_pool_size → is_positive (epoll_list i) ≡ true) where
  open sys use {rio}
  open arrivals use {At, conn, ready}

  accept_loop-registrations :
      (rounds n k : ℕ) (io : Io rio)
      → At n k io.world
      → (io' : Io rio) × (accept_loop sys accept epoll_list listenfd rounds
            (pos epollfd)
            (k % connfd_pool_size)
            io
          ≡ go_on ((k + arrived ready listenfd n rounds) % connfd_pool_size) io')
        × (io'.log
            ≡ io.log
              ++ registrations epoll_list k (numbers conn k (arrived ready listenfd n rounds)))
  unfolding accept_loop
  accept_loop-registrations zero n k io here =
      (io, ap (λ m. go_on (m % connfd_pool_size) io) (omega arith), sym (append-nil io.log))
  accept_loop-registrations (suc rounds) n k io here =
      let (e, there) = arrivals.waited n k io.world here in
      let io0 : Io rio = record io { world = (sys.epoll_wait (pos epollfd) io.world).1 } in
      let c : ℕ = count listenfd (ready n) in
      let (io1, e1, l1, at) =
        serve_events-registrations sys accept epoll_list listenfd arrivals (ready n) (n + 1) k io0
          made there in
      let loop : ℕ → Io rio → Main rio =
        λ next i. accept_loop sys accept epoll_list listenfd rounds (pos epollfd) next i in
      let (io2, e2, l2) = accept_loop-registrations rounds (n + 1) (k + c) io1 at in
      let more : ℕ = arrived ready listenfd (n + 1) rounds in
      (
        io2,
        ap (λ x. after_ready sys accept epoll_list listenfd loop (k % connfd_pool_size) (x, io0)) e
            ∙ ap (λ x. continue x loop) e1
            ∙ e2
            ∙ ap (λ m. go_on (m % connfd_pool_size) io2) (omega arith),
        l2
            ∙ ap (λ x. x ++ registrations epoll_list (k + c) (numbers conn (k + c) more)) l1
            ∙ append_assoc io.log (registrations epoll_list k (numbers conn k c)) _
            ∙ ap (io.log ++◌) (registrations-append epoll_list conn k c more),
      )

  listening_lem :
      (k : ℕ → Io rio → Main rio) (q : Bool × Io rio)
      → q.0 ≡ true
      → listening sys accept epoll_list listenfd k q ≡ k 0 q.1
  listening_lem k (true, io) e = refl
  listening_lem k (false, io) e = absurd (true_ne_false (sym e))

  -- If `epoll_create` gives a descriptor, the threads have made theirs, no registration fails, and the
  -- waits and `accept` go by the arrivals: after any number of rounds, `main` has registered the
  -- listening descriptor, has taken one connection for each time that a wait gave the listening
  -- descriptor, has set the n-th of them, counted from 0, to nonblocking mode and registered it with
  -- the thread `n % 100`, in their order, and has written, opened and closed nothing else. Neither the assertion
  -- fails nor the process ends.
  pub main_from-registrations :
      (rounds : ℕ) (created : rio.World → ℤ × rio.World) (io : Io rio)
      → (created io.world).0 ≡ pos epollfd
      → At 0 0 (created io.world).1
      → (io' : Io rio) × (main_from sys accept epoll_list listenfd rounds created io
          ≡ go_on (arrived ready listenfd 0 rounds % connfd_pool_size) io')
        × (io'.log
            ≡ io.log
              ++ (opened epollfd
                  ∷ controlled add_level (pos epollfd) listenfd
                  ∷ registrations epoll_list 0 (numbers conn 0 (arrived ready listenfd 0 rounds))))
  unfolding main_from ◌==ℤ◌
  main_from-registrations rounds created io given here =
      let w : rio.World = (created io.world).1 in
      let io0 : Io rio = record { world = w; log = io.log ++ (opened epollfd ∷ []) } in
      let io1 : Io rio = (control sys add_level (pos epollfd) listenfd io0).1 in
      let loop : ℕ → Io rio → Main rio =
        λ next i. accept_loop sys accept epoll_list listenfd rounds (pos epollfd) next i in
      let (works, there) = arrivals.registers 0 0 add_level (pos epollfd) listenfd w here in
      let (io2, e, l) = accept_loop-registrations rounds 0 0 io1 there in
      (
        io2,
        rw given (
            listening_lem loop (control sys add_level (pos epollfd) listenfd io0) works
            ∙ e
            ∙ ap (λ m. go_on (m % connfd_pool_size) io2) (omega arith)),
        l
            ∙ append_assoc (io.log ++ (opened epollfd ∷ [])) _ _
            ∙ append_assoc io.log (opened epollfd ∷ []) _,
      )
