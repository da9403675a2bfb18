-- ===== src/Proxy/Relay/Drain.antt =====
-- The inner loops of `connect_handler`: one descriptor is emptied into the other.
use tiny_proxy.Base.{
  ℕ, zero, suc, ◌*◌, ◌<◌, ◌≡◌, refl, sym, ap, ◌∙◌, subst, Bool, true, List, [], ◌∷◌, ◌++◌, length,
  take, drop, append-nil, arith, ltb, Bool-cases, inl, inr, ltb→lt, if◌then◌else◌,
}
use tiny_proxy.CString.{Bytes}
use tiny_proxy.Proxy.Rio.{Read, got, failed, again, Io, Run, done, send, maxline}
use tiny_proxy.Proxy.System.{System}
use tiny_proxy.Proxy.Reply.Once.{
  pieces, join, take-drop, length-take_le, length-drop, ltb-false_le, append-pieces,
}
use tiny_proxy.Proxy.Relay.{after_read, drain}

-- What read(2) documents of a descriptor in nonblocking mode: `Available bytes w` says that these bytes
-- have arrived on `fd` and are still to be read. With none of them it fails with EAGAIN.
pub record Source (sys : System) (fd : ℕ) : Type 1 where
  pub Available : Bytes → sys.rio.World → Type 0
  pub full :
      (bs rest : Bytes) (w : sys.rio.World)
      → Available (bs ++ rest) w
      → length bs ≡ maxline
      → (w' : sys.rio.World) × (sys.read fd maxline w ≡ (got bs, w')) × Available rest w'
  pub short :
      (bs : Bytes) (w : sys.rio.World)
      → Available bs w
      → 0 < length bs
      → length bs < maxline
      → (w' : sys.rio.World) × (sys.read fd maxline w ≡ (got bs, w')) × Available [] w'
  pub nothing :
      (w : sys.rio.World)
      → Available [] w
      → (w' : sys.rio.World) × (sys.read fd maxline w ≡ (failed again [], w')) × Available [] w'
  pub write :
      (target : ℕ) (out bs : Bytes) (w : sys.rio.World)
      → Available bs w
      → Available bs (sys.rio.rio_writen target out w)

module _ {sys : System} {fd : ℕ} (s : Source sys fd) (target : ℕ) (disconnect : Bool) where
  open sys use {rio}
  open s use {Available}

  one_read :
      (fuel : ℕ) {r : Read} {w : rio.World} (io : Io rio)
      → sys.read fd maxline io.world ≡ (r, w)
      → drain sys (suc fuel) fd target disconnect io
        ≡ after_read sys target disconnect
            (λ i. drain sys fuel fd target disconnect i)
            (r, record io { world = w })
  unfolding drain
  one_read fuel io e =
      ap
        (λ x.
          after_read sys target disconnect (λ i. drain sys fuel fd target disconnect i)
            (x.0, record io { world = x.1 }))
        e

  after_short :
      (bs : Bytes) (k : Io rio → Run rio Bool) (io : Io rio)
      → ltb (length bs) maxline ≡ true
      → after_read sys target disconnect k (got bs, io) ≡ done disconnect (send rio target bs io)
  after_short bs k io e =
      ap (λ b. if b then done disconnect (send rio target bs io) else k (send rio target bs io)) e

  after_full :
      (bs : Bytes) (k : Io rio → Run rio Bool) (io : Io rio)
      → length bs ≡ maxline
      → after_read sys target disconnect k (got bs, io) ≡ k (send rio target bs io)
  after_full bs k io e =
      ap
        (λ n.
          if ltb n maxline
          then done disconnect (send rio target bs io)
          else k (send rio target bs io))
        e

  -- The loop returns with `disconnect` as it was, if its fuel is one more than a number of rounds
  -- that, at 8192 bytes each, exceeds what has arrived. It has written all that had arrived to the
  -- other descriptor, in its order, and nothing of it is left to be read, so that no event is lost
  -- to the edge-triggered epoll.
  pub drain-sends :
      (fuel : ℕ) (bs : Bytes) (io : Io rio)
      → length bs < fuel * maxline
      → Available bs io.world
      → (ps : List Bytes) × (io' : Io rio) × (drain sys (suc fuel) fd target disconnect io
          ≡ done disconnect io')
        × (io'.log ≡ io.log ++ pieces target ps)
        × (join ps ≡ bs)
        × Available [] io'.world
  drain-sends zero bs io h here = absurd (omega arith)
  drain-sends (suc fuel) [] io h here =
      let (w, e, there) = s.nothing io.world here in
      ([], _, one_read (suc fuel) io e, sym (append-nil io.log), refl, there)
  drain-sends (suc fuel) (c ∷ bs) io h here =
      let all : Bytes = c ∷ bs in
      elim (Bool-cases (ltb (length all) maxline)) [
        | inl small ↦
            let (w, e, there) = s.short all io.world here (omega arith) (ltb→lt _ _ small) in
            (
              all ∷ [],
              _,
              one_read (suc fuel) io e
                  ∙ after_short all (λ i. drain sys (suc fuel) fd target disconnect i)
                      (record io { world = w }) small,
              refl,
              append-nil all,
              s.write target all [] w there,
            )
        | inr large ↦
            let first = take maxline all in
            let later = drop maxline all in
            let size : length first ≡ maxline =
              length-take_le maxline all (ltb-false_le (length all) maxline large) in
            let (w, e, there) =
              s.full first later io.world
                (subst (λ x. Available x io.world) (sym (take-drop maxline all)) here) size in
            let io1 : Io rio = send rio target first (record io { world = w }) in
            let (ps, io', e', l, j, at) =
              drain-sends fuel later io1
                (omega (arith, length-drop maxline all, ltb-false_le (length all) maxline large, h))
                (s.write target first later w there) in
            (
              first ∷ ps,
              io',
              one_read (suc fuel) io e
                  ∙ after_full first (λ i. drain sys (suc fuel) fd target disconnect i)
                      (record io { world = w }) size
                  ∙ e',
              append-pieces target first ps io.log io'.log l,
              ap (first ++◌) j ∙ take-drop maxline all,
              at,
            )
      ]
