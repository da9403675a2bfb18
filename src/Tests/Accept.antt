-- ===== src/Tests/Accept.antt =====
-- Examples of `main`.
use tiny_proxy.Base.{ℕ, suc, arith, ◌+◌, ◌≡◌, refl, some, [], ◌∷◌}
use tiny_proxy.Base.Int.{ℤ, pos}
use tiny_proxy.Proxy.Rio.{Io, opened, nonblocking, controlled, add_level, add_oneshot}
use tiny_proxy.Proxy.Accept.{go_on, main_from}
use tiny_proxy.Proxy.System.{System}
use tiny_proxy.Proxy.Accept.Rounds.{main_from-registrations}
use tiny_proxy.Proxy.Accept.Turns.{Arrivals, registrations}
use tiny_proxy.Tests.Scripted.{Net, scripted, system}

abbrev accept : ℕ → Net → ℕ × Net
accept listenfd w = (w.fresh, record w { fresh = w.fresh + 1 })

abbrev made : ℕ → ℤ
made i = pos (suc (i + 9))

abbrev quiet : Io scripted
quiet = record { world = record { streams = λ rp. []; fresh = 200 }; log = [] }

-- Two connections, from the last thread on.
wraps :
    registrations made 99 (200 ∷ 201 ∷ [])
    ≡ opened 200
      ∷ nonblocking 200
      ∷ controlled add_oneshot (pos 109) 200
      ∷ opened 201
      ∷ nonblocking 201
      ∷ controlled add_oneshot (pos 10) 201
      ∷ []
wraps = refl

-- The listening descriptor is ready at each wait.
abbrev busy : System
busy = record system { epoll_wait = λ epollfd w. (some (7 ∷ 3 ∷ []), w) }

abbrev created : Net → ℤ × Net
created w = (pos 4, w)

abbrev calls : Arrivals busy accept 3 (pos 4)
calls = record {
  ready = λ n. 7 ∷ 3 ∷ [];
  conn = λ k. k + 200;
  At = λ n k w. w.fresh ≡ k + 200;
  waited = λ n k w h. (refl, h);
  accepted = λ n k w h. (h, omega (arith, h));
  registers = λ n k op e fd w h. (refl, h);
  sets_flags = λ n k fd w h. h;
}

main_from-registrations_example :
    (io : Io scripted) × (main_from busy accept made 3 2 created quiet ≡ go_on 2 io)
    × (io.log
        ≡ opened 4
          ∷ controlled add_level (pos 4) 3
          ∷ opened 200
          ∷ nonblocking 200
          ∷ controlled add_oneshot (pos 10) 200
          ∷ opened 201
          ∷ nonblocking 201
          ∷ controlled add_oneshot (pos 11) 201
          ∷ [])
main_from-registrations_example =
    main_from-registrations busy accept made 3 4 calls (λ i h. refl) 2 created quiet refl refl
