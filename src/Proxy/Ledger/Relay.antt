-- ===== src/Proxy/Ledger/Relay.antt =====
-- The descriptors that `connect_handler` uses.
use tiny_proxy.Base.{
  ℕ, zero, suc, ◌≡◌, ◌∙◌, refl, sym, ap, Bool, true, false, not, ◌&&◌, ◌||◌, Option, none, some,
  List, [], ◌∷◌, ◌==◌, arith, length, ltb, ◌≢◌, Bool-cases, inl, inr, ==_iff, ==_flip, ==_same,
}
use tiny_proxy.Base.Int.{ℤ, pos, negsuc, ◌==ℤ◌}
use tiny_proxy.CString.{bytes}
use tiny_proxy.Proxy.Rio.{Read, got, eof, failed, Io, Run, maxline, add, delete}
use tiny_proxy.Proxy.System.{System, control, setnonblocking, read_some}
use tiny_proxy.Proxy.Frame.{Ensures, Ensures-if, Ensures-and_then}
use tiny_proxy.Proxy.Relay.{
  after_read, drain, serve_ready, after_wait, wait, relay, close_all, close_after, join_client,
  join_server, connect_handler,
}
use tiny_proxy.Proxy.Ledger.{
  Descriptors, Ledger, Ledger-world, Ledger-same, Ledger-control, Ledger-setnonblocking,
  Ledger-write, Ledger-close, Ledger-open, new_lem, with_fd, without,
}

still_open : (now : ℕ → Bool) (e a : ℕ) → now a ≡ true → with_fd now e a ≡ true
still_open now e a h = rw h refl

new_open : (now : ℕ → Bool) (e : ℕ) → with_fd now e e ≡ true
new_open now e = rw (==_same e) (or_true (now e))
  where
    or_true : (b : Bool) → (b || true) ≡ true
    or_true b = ground arith

false_ne_true : false ≢ true
false_ne_true e = cc

not_new : (now : ℕ → Bool) (fd a : ℕ) → now a ≡ true → now fd ≡ false → (a == fd) ≡ false
not_new now fd a h k = elim (Bool-cases (a == fd)) [
  | inl e ↦ absurd (false_ne_true (sym k ∙ ap now (sym ((==_iff a fd).0 e)) ∙ h))
  | inr e ↦ e
]

cancel :
    (n x p q : Bool) → (x ≡ true → n ≡ false) → ((((n || x) && p) && q) && not x) ≡ ((n && p) && q)
cancel n false p q h = ground arith
cancel false true p q h = ground arith
cancel true true p q h = absurd (false_ne_true (sym (h refl)))

module _ {sys : System} (ds : Descriptors sys) (first : Io sys.rio) (start now : ℕ → Bool)
    (client server : ℕ) (has_client : now client ≡ true) (has_server : now server ≡ true)
    (differ : (server == client) ≡ false) where
  open sys use {rio}

  -- Afterwards, both are closed.
  abbrev closed_both : ℕ → Bool
  closed_both = without (without now client) server

  module _ (now' : ℕ → Bool) (client_open : now' client ≡ true) (server_open : now' server ≡ true)
      (e : ℕ) (epoll_open : now' e ≡ true) where
    after_read-Ensures :
        (target : ℕ) (d : Bool) (k : Io rio → Run rio Bool) (q : Read × Io rio)
        → now' target ≡ true
        → ((i : Io rio) → Ledger ds first start now' i → Ensures (Ledger ds first start now') (k i))
        → Ledger ds first start now' q.1
        → Ensures (Ledger ds first start now') (after_read sys target d k q)
    after_read-Ensures target d k (eof, io) h next l = l
    after_read-Ensures target d k (failed e bs, io) h next l = l
    after_read-Ensures target d k (got bs, io) h next l =
        let l' = Ledger-write ds first start now' target bs io h l in
        Ensures-if (Ledger ds first start now') (ltb (length bs) maxline) _ _ l' (next _ l')

    drain-Ensures :
        (fuel from target : ℕ) (d : Bool) (io : Io rio)
        → now' from ≡ true
        → now' target ≡ true
        → Ledger ds first start now' io
        → Ensures (Ledger ds first start now') (drain sys fuel from target d io)
    unfolding drain
    drain-Ensures zero from target d io readable h l = tt
    drain-Ensures (suc fuel) from target d io readable h l =
        after_read-Ensures target d (λ i. drain sys fuel from target d i) (read_some sys from io) h
          (λ i li. drain-Ensures fuel from target d i readable h li)
          (Ledger-world ds first start now' io _ l (λ a. ds.after_read a from maxline io.world)
            (ds.sound_read from maxline io.world (l.3 from readable) l.4))

    serve_ready-Ensures :
        (fuel : ℕ) (ready : List ℕ) (d : Bool) (io : Io rio)
        → Ledger ds first start now' io
        → Ensures (Ledger ds first start now') (serve_ready sys fuel client server ready d io)
    unfolding serve_ready
    serve_ready-Ensures fuel [] d io l = l
    serve_ready-Ensures fuel (fd ∷ ready) d io l =
        Ensures-and_then (Ledger ds first start now') (Ledger ds first start now') _ _
          (Ensures-if (Ledger ds first start now') (fd == client) _ _
            (drain-Ensures fuel client server d io client_open server_open l)
            (drain-Ensures fuel server client d io server_open client_open l))
          (λ b i li. serve_ready-Ensures fuel ready b i li)

    after_wait-Ensures :
        (fuel : ℕ) (k : Io rio → Run rio (Unit {0})) (q : Option (List ℕ) × Io rio)
        → ((i : Io rio) → Ledger ds first start now' i → Ensures (Ledger ds first start now') (k i))
        → Ledger ds first start now' q.1
        → Ensures (Ledger ds first start now') (after_wait sys fuel client server k q)
    after_wait-Ensures fuel k (none, io) next l = l
    after_wait-Ensures fuel k (some ready, io) next l =
        Ensures-and_then (Ledger ds first start now') (Ledger ds first start now') _ _
          (serve_ready-Ensures fuel ready false io l)
          (λ b i li. Ensures-if (Ledger ds first start now') b _ _ li (next i li))

    relay-Ensures :
        (fuel inner : ℕ) (io : Io rio)
        → Ledger ds first start now' io
        → Ensures (Ledger ds first start now') (relay sys fuel inner (pos e) client server io)
    unfolding relay
    relay-Ensures zero inner io l = tt
    relay-Ensures (suc fuel) inner io l =
        after_wait-Ensures inner (λ i. relay sys fuel inner (pos e) client server i)
          (wait sys (pos e) io) (λ i li. relay-Ensures fuel inner i li)
          (Ledger-world ds first start now' io _ l (λ a. ds.after_wait a (pos e) io.world)
            (ds.sound_wait e io.world (l.3 e epoll_open) l.4))

  server_open_yet : (n : ℕ → Bool) → n server ≡ true → without n client server ≡ true
  server_open_yet n h = rw (h, differ) refl

  all_closed :
      (fd : ℕ)
      → now fd ≡ false
      → (a : ℕ) → without (without (without (with_fd now fd) client) server) fd a ≡ closed_both a
  all_closed fd new a =
      cancel (now a) (a == fd) (not (a == client)) (not (a == server))
        (λ e. ap now ((==_iff a fd).0 e) ∙ new)

  epoll_open_yet :
      (fd : ℕ) → now fd ≡ false → without (without (with_fd now fd) client) server fd ≡ true
  epoll_open_yet fd new =
      rw
        (
          new,
          ==_same fd,
          ==_flip client fd (not_new now fd client has_client new),
          ==_flip server fd (not_new now fd server has_server new),
        )
        refl

  module _ (e : ℕ) (new : now e ≡ false) where
    abbrev joined : ℕ → Bool
    joined = with_fd now e

    client_in : joined client ≡ true
    client_in = still_open now e client has_client

    server_in : joined server ≡ true
    server_in = still_open now e server has_server

    close_all-Ledger :
        (io : Io rio)
        → Ledger ds first start joined io
        → Ledger ds first start closed_both (close_all sys (pos e) client server io)
    close_all-Ledger io l =
        Ledger-same ds first start (without (without (without joined client) server) e) closed_both
          _ (all_closed e new)
          (Ledger-close ds first start (without (without joined client) server) e _
            (epoll_open_yet e new)
            (Ledger-close ds first start (without joined client) server _
              (server_open_yet joined server_in)
              (Ledger-close ds first start joined client io client_in l)))

    close_after-Ensures :
        (r : Run rio (Unit {0}))
        → Ensures (Ledger ds first start joined) r
        → Ensures (Ledger ds first start closed_both) (close_after sys (pos e) client server r)
    close_after-Ensures r h =
        Ensures-and_then (Ledger ds first start joined) (Ledger ds first start closed_both) r _ h
          (λ _ i li. close_all-Ledger i li)

    join_client-Ensures :
        (fuel : ℕ) (q : Bool × Io rio)
        → Ledger ds first start joined q.1
        → Ensures (Ledger ds first start closed_both) (join_client sys fuel (pos e) client server q)
    join_client-Ensures fuel (false, io) l =
        close_all-Ledger _
          (Ledger-control ds first start joined delete e server io (new_open now e) server_in l)
    join_client-Ensures fuel (true, io) l = close_after-Ensures _ (
        relay-Ensures joined client_in server_in e (new_open now e) fuel fuel _
          (Ledger-write ds first start joined client (bytes "\r\n") io client_in l))

    join_server-Ensures :
        (fuel : ℕ) (q : Bool × Io rio)
        → Ledger ds first start joined q.1
        → Ensures (Ledger ds first start closed_both) (join_server sys fuel (pos e) client server q)
    join_server-Ensures fuel (false, io) l = close_all-Ledger io l
    join_server-Ensures fuel (true, io) l =
        join_client-Ensures fuel (control sys add (pos e) client (setnonblocking sys client io)) (
          Ledger-control ds first start joined add e client _ (new_open now e) client_in
            (Ledger-setnonblocking ds first start joined client io client_in l))

  -- For any fuel: when the function returns, no call, read or wait was made on a descriptor that was not
  -- open, and of those of `now` that were open all but the client's and the server's still are; the
  -- descriptor of epoll is closed too. This is so if the client's and the server's are open at
  -- first and differ, `epoll_create1` gives a descriptor, and the global `epollfd` is not -1.
  pub connect_handler-Ensures :
      (fuel : ℕ) (epollfd : ℤ) (e : ℕ) (io : Io rio)
      → (epollfd ==ℤ negsuc 0) ≡ false
      → (sys.epoll_create1 io.world).0 ≡ pos e
      → Ledger ds first start now io
      → Ensures
          (Ledger ds first start closed_both)
          (connect_handler sys fuel epollfd client server io)
  unfolding connect_handler
  connect_handler-Ensures fuel epollfd e io made created l =
      let (is_open, fresh) = ds.create_new io.world e created in
      let new = new_lem ds first start now e io l fresh in
      let l' =
        Ledger-open ds first start now e io _ l new is_open (λ a. ds.after_create a io.world)
          (ds.sound_create io.world l.4) in
      rw (made, created)
        (join_server-Ensures e new fuel _ (
          Ledger-control ds first start (with_fd now e) add e server _ (new_open now e)
            (server_in e new)
            (Ledger-setnonblocking ds first start (with_fd now e) server _ (server_in e new) l')))
