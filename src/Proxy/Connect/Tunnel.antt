-- ===== src/Proxy/Connect/Tunnel.antt =====
-- What `do_connect` does when bytes have arrived, and when the peer has closed.
use tiny_proxy.Base.{
  ℕ, zero, suc, ◌*◌, ◌<◌, ◌≡◌, refl, ap, ◌∙◌, Bool, true, false, ◌||◌, Option, none, some, List, [],
  ◌∷◌, ◌++◌, if◌then◌else◌, length, ltb, ◌==◌, append_assoc,
}
use tiny_proxy.Base.Int.{ℤ, pos, negsuc}
use tiny_proxy.CString.{Bytes}
use tiny_proxy.Hashmap.Ops.{Chmap, hashmap_get, hashmap_remove}
use tiny_proxy.Hashmap.View.{IsChmap, view}
use tiny_proxy.Hashmap.Laws.{hashmap_get-view, hashmap_remove-Changes}
use mathlib.Core.Option.{get_or}
use tiny_proxy.Proxy.Rio.{
  Read, got, eof, failed, Io, Run, done, send, and_then, maxline, controlled, closed, delete, rearm,
}
use tiny_proxy.Proxy.System.{System, close, control, read_some}
use tiny_proxy.Proxy.Reply.Once.{pieces, join}
use tiny_proxy.Proxy.Relay.{after_read, drain}
use tiny_proxy.Proxy.Relay.Drain.{Source, drain-sends}
use tiny_proxy.Proxy.Connect.{end_tunnel, rearm_client, after_tunnel_read, tunnel_loop, do_connect}

module _ (sys : System) (hc : ℕ) (epollfd : ℤ) (clientfd server : ℕ) (m : Chmap) where
  open sys use {rio}

  abbrev at_end : Bool → Io rio → Run rio Chmap
  at_end true i = end_tunnel sys hc epollfd clientfd (pos server) m i
  at_end false i = rearm_client sys hc epollfd clientfd m i

  if_last :
      (b : Bool) (io : Io rio) (k : Io rio → Run rio Chmap) (k' : Io rio → Run rio Bool)
      → k io ≡ and_then rio (k' io) at_end
      → (if b then rearm_client sys hc epollfd clientfd m io else k io)
        ≡ and_then rio (if b then done false io else k' io) at_end
  if_last true io k k' e = refl
  if_last false io k k' e = e

  after_read-drain :
      (q : Read × Io rio) (k : Io rio → Run rio Chmap) (k' : Io rio → Run rio Bool)
      → ((i : Io rio) → k i ≡ and_then rio (k' i) at_end)
      → after_tunnel_read sys hc epollfd clientfd (pos server) m k q
        ≡ and_then rio (after_read sys server false k' q) at_end
  after_read-drain (eof, io) k k' e = refl
  after_read-drain (failed x bs, io) k k' e = refl
  after_read-drain (got bs, io) k k' e =
      if_last (ltb (length bs) maxline) (send rio server bs io) k k' (e (send rio server bs io))

  -- The loop is that of the later tunnel, with what follows it.
  tunnel_loop-drain :
      (fuel : ℕ) (io : Io rio)
      → tunnel_loop sys hc epollfd fuel clientfd (pos server) m io
        ≡ and_then rio (drain sys fuel clientfd server false io) at_end
  unfolding tunnel_loop drain
  tunnel_loop-drain zero io = refl
  tunnel_loop-drain (suc fuel) io =
      after_read-drain (read_some sys clientfd io)
        (λ i. tunnel_loop sys hc epollfd fuel clientfd (pos server) m i)
        (λ i. drain sys fuel clientfd server false i) (tunnel_loop-drain fuel)

  paired :
      (fuel : ℕ) (io : Io rio)
      → IsChmap hc m
      → view hc m clientfd ≡ some (pos server)
      → do_connect sys hc epollfd fuel clientfd m io
        ≡ tunnel_loop sys hc epollfd fuel clientfd (pos server) m io
  unfolding do_connect
  paired fuel io is e =
      let found : hashmap_get hc m (pos clientfd) ≡ some (pos server) =
        (hashmap_get-view is clientfd).0 ∙ ap (λ o. some (get_or o (negsuc 0))) e in
      simp (found, do_connect)

  end_tunnel_lem :
      (m1 m2 : Chmap) (k1 k2 : ℕ) (io : Io rio)
      → hashmap_remove hc m (pos clientfd) ≡ some (m1, k1)
      → hashmap_remove hc m1 (pos server) ≡ some (m2, k2)
      → (io' : Io rio) × (end_tunnel sys hc epollfd clientfd (pos server) m io ≡ done m2 io')
        × (io'.log
            ≡ (((io.log ++ (controlled delete epollfd clientfd ∷ []))
                  ++ (controlled delete epollfd server ∷ []))
                ++ (closed (pos clientfd) ∷ []))
              ++ (closed (pos server) ∷ []))
  unfolding end_tunnel
  end_tunnel_lem m1 m2 k1 k2 io e1 e2 =
      let i : Io rio = (control sys delete epollfd clientfd io).1 in
      let j : Io rio = (control sys delete epollfd server i).1 in
      (close sys (pos server) (close sys (pos clientfd) j), simp (e1, e2, end_tunnel), refl)

four :
    {A : Type 0} (l : List A) (a b c d : A)
    → (((l ++ (a ∷ [])) ++ (b ∷ [])) ++ (c ∷ [])) ++ (d ∷ []) ≡ l ++ (a ∷ b ∷ c ∷ d ∷ [])
four l a b c d =
    append_assoc ((l ++ (a ∷ [])) ++ (b ∷ [])) (c ∷ []) (d ∷ [])
    ∙ append_assoc (l ++ (a ∷ [])) (b ∷ []) (c ∷ d ∷ [])
    ∙ append_assoc l (a ∷ []) (b ∷ c ∷ d ∷ [])

either_removed :
    (a b : Bool) (r : Option ℤ)
    → (if b then none else (if a then none else r)) ≡ (if a || b then none else r)
either_removed true true r = refl
either_removed true false r = refl
either_removed false b r = refl

module _ (sys : System) (hc : ℕ) (epollfd : ℤ) (clientfd server : ℕ) (m : Chmap) (is : IsChmap hc m)
    (paired_with : view hc m clientfd ≡ some (pos server)) where
  open sys use {rio}

  -- For a well-formed map in which the descriptor stands with another: when its peer has closed,
  -- `do_connect` returns in the first round. It has taken both descriptors out of the map, which
  -- is still well-formed and keeps all other pairs, and has taken them both out of epoll and closed
  -- them both, in this order, and has done nothing else.
  pub do_connect-end :
      (fuel : ℕ) (w : rio.World) (io : Io rio)
      → sys.read clientfd maxline io.world ≡ (eof, w)
      → (m' : Chmap) × (io' : Io rio) × (do_connect sys hc epollfd (suc fuel) clientfd m io
          ≡ done m' io')
        × IsChmap hc m'
        × ((b : ℕ)
            → view hc m' b ≡ (if (clientfd == b) || (server == b) then none else view hc m b))
        × (io'.log
            ≡ io.log
              ++ (controlled delete epollfd clientfd
                  ∷ controlled delete epollfd server
                  ∷ closed (pos clientfd)
                  ∷ closed (pos server)
                  ∷ []))
  unfolding tunnel_loop
  do_connect-end fuel w io e =
      let first = hashmap_remove-Changes is clientfd in
      let second = hashmap_remove-Changes first.valid server in
      let io0 : Io rio = record io { world = w } in
      let (io', e', log) =
        end_tunnel_lem sys hc epollfd clientfd server m first.map second.map _ _ io0 first.returns
          second.returns in
      (
        second.map,
        io',
        paired sys hc epollfd clientfd server m (suc fuel) io is paired_with
            ∙ ap
                (λ (x : Read × rio.World).
                  after_tunnel_read sys hc epollfd clientfd (pos server) m
                    (λ i. tunnel_loop sys hc epollfd fuel clientfd (pos server) m i)
                    (x.0, record io { world = x.1 }))
                e
            ∙ e',
        second.valid,
        λ b.
            second.views b
            ∙ ap (λ r. if server == b then none else r) (first.views b)
            ∙ either_removed (clientfd == b) (server == b) (view hc m b),
        log ∙ four io.log _ _ _ _,
      )

  -- For such a map, when bytes have arrived and the peer has not closed: `do_connect` returns with the
  -- map as it was, if its fuel is one more than a number of rounds that, at 8192 bytes each, exceeds
  -- what has arrived. It has written all of it to the other descriptor, in its order, and at last has
  -- armed the descriptor again.
  pub do_connect-passes :
      (s : Source sys clientfd) (fuel : ℕ) (bs : Bytes) (io : Io rio)
      → length bs < fuel * maxline
      → s.Available bs io.world
      → (ps : List Bytes) × (io' : Io rio) × (do_connect sys hc epollfd (suc fuel) clientfd m io
          ≡ done m io')
        × (io'.log ≡ io.log ++ (pieces server ps ++ (controlled rearm epollfd clientfd ∷ [])))
        × (join ps ≡ bs)
  do_connect-passes s fuel bs io less here =
      let (ps, io1, e, log, j, _) = drain-sends s server false fuel bs io less here in
      (
        ps,
        _,
        paired sys hc epollfd clientfd server m (suc fuel) io is paired_with
            ∙ tunnel_loop-drain sys hc epollfd clientfd server m (suc fuel) io
            ∙ ap (λ r. and_then rio r (at_end sys hc epollfd clientfd server m)) e,
        ap (λ x. x ++ (controlled rearm epollfd clientfd ∷ [])) log
            ∙ append_assoc io.log (pieces server ps) _,
        j,
      )
