-- ===== src/Proxy/Relay.antt =====
-- `connect_handler` of proxy.c: the tunnel between a client and a server.
pub mod Drain
use tiny_proxy.Base.{
  ℕ, zero, suc, Bool, true, false, Option, none, some, List, [], ◌∷◌, if◌then◌else◌, length, ltb,
  ◌==◌,
}
use tiny_proxy.Base.Int.{ℤ, pos, negsuc, ◌==ℤ◌}
use tiny_proxy.CString.{bytes}
use tiny_proxy.Proxy.Rio.{
  Read, got, eof, failed, Io, Run, done, out_of_fuel, send, maxline, and_then, add, delete,
}
use tiny_proxy.Proxy.System.{
  System, descriptor, note_new, close, control, setnonblocking, read_some,
}

module _ (sys : System) where
  open sys use {rio}

  -- One round of a loop that empties `from` into `target`, given the read: `k` goes on. The result
  -- is the new value of `disconnect`. After any error the loop is left.
  abbrev pub after_read : ℕ → Bool → (Io rio → Run rio Bool) → Read × Io rio → Run rio Bool
  after_read target disconnect k (eof, io) = done true io
  after_read target disconnect k (failed e bs, io) = done disconnect io
  after_read target disconnect k (got bs, io) =
      let io' = send rio target bs io in
      if ltb (length bs) maxline then done disconnect io' else k io'

  unfoldable pub drain : (fuel from target : ℕ) → Bool → Io rio → Run rio Bool
  drain zero from target disconnect io = out_of_fuel
  drain (suc fuel) from target disconnect io =
      after_read target disconnect (λ i. drain fuel from target disconnect i)
        (read_some sys from io)

  -- The descriptors that are ready, in their order.
  unfoldable pub serve_ready : (fuel clientfd serverfd : ℕ) → List ℕ → Bool → Io rio → Run rio Bool
  unfolding drain
  serve_ready fuel clientfd serverfd [] disconnect io = done disconnect io
  serve_ready fuel clientfd serverfd (fd ∷ ready) disconnect io =
      and_then rio
        (if fd == clientfd
          then drain fuel clientfd serverfd disconnect io
          else drain fuel serverfd clientfd disconnect io)
        (λ d i. serve_ready fuel clientfd serverfd ready d i)

  -- What `epoll_wait` gave: the loop is left when it failed.
  abbrev pub after_wait :
      (fuel clientfd serverfd : ℕ)
      → (Io rio → Run rio (Unit {0}))
      → Option (List ℕ) × Io rio
      → Run rio (Unit {0})
  after_wait fuel clientfd serverfd k (none, io) = done tt io
  after_wait fuel clientfd serverfd k (some ready, io) =
      and_then rio (serve_ready fuel clientfd serverfd ready false io)
        (λ disconnect i. if disconnect then done tt i else k i)

  abbrev pub wait : ℤ → Io rio → Option (List ℕ) × Io rio
  wait epollfd io = let (r, w) = sys.epoll_wait epollfd io.world in (r, record io { world = w })

  -- `fuel` bounds this loop, `inner` the ones inside. `disconnect` is set only in the round that
  -- leaves the loop.
  unfoldable pub relay :
      (fuel inner : ℕ) → ℤ → (clientfd serverfd : ℕ) → Io rio → Run rio (Unit {0})
  unfolding serve_ready
  relay zero inner epollfd clientfd serverfd io = out_of_fuel
  relay (suc fuel) inner epollfd clientfd serverfd io =
      after_wait inner clientfd serverfd (λ i. relay fuel inner epollfd clientfd serverfd i)
        (wait epollfd io)

  abbrev pub close_all : ℤ → (clientfd serverfd : ℕ) → Io rio → Io rio
  close_all epollfd clientfd serverfd io =
      close sys epollfd (close sys (pos serverfd) (close sys (pos clientfd) io))

  abbrev pub close_after : ℤ → (clientfd serverfd : ℕ) → Run rio (Unit {0}) → Run rio (Unit {0})
  close_after epollfd clientfd serverfd r =
      and_then rio r (λ _ i. done tt (close_all epollfd clientfd serverfd i))

  -- From the second registration on.
  abbrev pub join_client :
      (fuel : ℕ) → ℤ → (clientfd serverfd : ℕ) → Bool × Io rio → Run rio (Unit {0})
  join_client fuel epollfd clientfd serverfd (false, io) =
      done tt (close_all epollfd clientfd serverfd (control sys delete epollfd serverfd io).1)
  join_client fuel epollfd clientfd serverfd (true, io) =
      close_after epollfd clientfd serverfd
        (relay fuel fuel epollfd clientfd serverfd (send rio clientfd (bytes "\r\n") io))

  -- From the first registration on.
  abbrev pub join_server :
      (fuel : ℕ) → ℤ → (clientfd serverfd : ℕ) → Bool × Io rio → Run rio (Unit {0})
  join_server fuel epollfd clientfd serverfd (false, io) =
      done tt (close_all epollfd clientfd serverfd io)
  join_server fuel epollfd clientfd serverfd (true, io) =
      join_client fuel epollfd clientfd serverfd
        (control sys add epollfd clientfd (setnonblocking sys clientfd io))

  -- The function tests the global `epollfd`, not the descriptor that it has made.
  unfoldable pub connect_handler :
      (fuel : ℕ) (epollfd : ℤ) (clientfd serverfd : ℕ) → Io rio → Run rio (Unit {0})
  unfolding relay
  connect_handler fuel epollfd clientfd serverfd io =
      let (connect_epollfd, w) = sys.epoll_create1 io.world in
      let io' : Io rio = note_new sys (descriptor connect_epollfd) (record io { world = w }) in
      if epollfd ==ℤ negsuc 0
      then done tt io'
      else join_server fuel connect_epollfd clientfd serverfd
          (control sys add connect_epollfd serverfd (setnonblocking sys serverfd io'))
