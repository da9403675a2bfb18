-- ===== src/Tests/Thread.antt =====
-- Examples of `connfd_handler`.
use tiny_proxy.Base.{refl, [], ◌∷◌}
use tiny_proxy.Base.Int.{pos, ◌==ℤ◌}
use tiny_proxy.CString.{bytes}
use tiny_proxy.Proxy.Rio.{Io}
use tiny_proxy.Proxy.Frame.{Ensures}
use tiny_proxy.Proxy.Thread.{handle_events}
use tiny_proxy.Proxy.Thread.Events.{Served, handle_events-Ensures}
use tiny_proxy.Tests.Watched.{watched_rio, watched, watching, descriptors, three_open, three_OpenIn}
use tiny_proxy.Tests.Doit.{blank}

-- The descriptors 5 and 6 of two clients, of which one sends no request line.
abbrev two_clients : Io watched_rio
two_clients =
    watching (bytes "GET http://a.org/x HTTP/1.0\r\nAccept: a/b\r\n\r\n") (bytes "hello\r\n")

handle_events-Ensures_example :
    Ensures
      (Served descriptors two_clients three_open three_open (6 ∷ 5 ∷ []))
      (handle_events watched (λ io. blank) 4 (pos 3) (pos 4) (6 ∷ 5 ∷ []) two_clients)
unfolding descriptors ◌==ℤ◌
handle_events-Ensures_example =
    handle_events-Ensures descriptors (λ w. (w.net.fresh, refl)) (λ io. blank) 4 (pos 3) 4
      (6 ∷ 5 ∷ []) three_open two_clients refl (λ a h. three_OpenIn [] [] a h) (refl, (refl, tt))
      (refl, (refl, tt)) refl refl refl
