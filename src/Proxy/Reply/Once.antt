-- ===== src/Proxy/Reply/Once.antt =====
-- `reply_nonconnection`: a reply that ends where the server closes the connection.
use tiny_proxy.Base.{
  ℕ, zero, suc, ◌-◌, ◌*◌, ◌<◌, ◌≤◌, ◌≡◌, refl, sym, ap, ◌∙◌, subst, false, List, [], ◌∷◌, ◌++◌,
  length, take, drop, append-nil, append_assoc, arith, ltb, Bool-cases, inl, inr, ltb→lt,
}
use tiny_proxy.CString.{Bytes}
use tiny_proxy.Proxy.Rio.{Rio, Stream, got, Call, wrote, Io, done, send, maxline}
use tiny_proxy.Proxy.Chunked.Forward.{read_block_lem}
use tiny_proxy.Proxy.Reply.{after_piece, reply_nonconnection}

-- The writes of some pieces, and what they make together.
abbrev pub pieces : ℕ → List Bytes → List Call
pieces fd [] = []
pieces fd (p ∷ ps) = wrote fd p ∷ pieces fd ps

abbrev pub join : List Bytes → Bytes
join [] = []
join (p ∷ ps) = p ++ join ps

pub take-drop : (n : ℕ) (bs : Bytes) → take n bs ++ drop n bs ≡ bs
take-drop zero bs = refl
take-drop (suc n) [] = refl
take-drop (suc n) (c ∷ bs) = ap (◌∷◌ c) (take-drop n bs)

pub length-take_le : (n : ℕ) (bs : Bytes) → n ≤ length bs → length (take n bs) ≡ n
length-take_le zero bs h = refl
length-take_le (suc n) [] h = absurd (omega arith)
length-take_le (suc n) (c ∷ bs) h = ap suc (length-take_le n bs (omega arith))

pub length-drop : (n : ℕ) (bs : Bytes) → length (drop n bs) ≡ length bs - n
length-drop zero bs = omega arith
length-drop (suc n) [] = omega arith
length-drop (suc n) (c ∷ bs) = omega (arith, length-drop n bs)

pub ltb-false_le : (m n : ℕ) → ltb m n ≡ false → n ≤ m
ltb-false_le m n h = ground arith

-- Two logs of writes, one after the other.
pub append-pieces :
    (fd : ℕ) (p : Bytes) (ps : List Bytes) (l0 l : List Call)
    → l ≡ (l0 ++ (wrote fd p ∷ [])) ++ pieces fd ps
    → l ≡ l0 ++ pieces fd (p ∷ ps)
append-pieces fd p ps l0 l e = e ∙ append_assoc l0 (wrote fd p ∷ []) (pieces fd ps)

module _ (rio : Rio) (rp : ℕ) (s : Stream rio rp) (fd : ℕ) where
  open s use {At, block, block_end, rest, write}

  -- The end, with nothing left to read.
  at_eof :
      (fuel : ℕ) (io : Io rio)
      → At [] io.world
      → (io' : Io rio) × (reply_nonconnection rio (suc fuel) fd rp io ≡ done tt io')
        × (io'.log ≡ io.log)
        × At [] io'.world
  unfolding reply_nonconnection
  at_eof fuel io here =
      let (w, e, there) = block_end maxline io.world here in
      (
        record io { world = w },
        ap (after_piece rio fd (λ i. reply_nonconnection rio fuel fd rp i))
            (read_block_lem rio rp s maxline io e),
        refl,
        there,
      )

  -- One piece.
  one_piece :
      (fuel : ℕ) (bs : Bytes) (io : Io rio) (w : rio.World)
      → rio.rio_readnb rp maxline io.world ≡ (got bs, w)
      → reply_nonconnection rio (suc fuel) fd rp io
        ≡ reply_nonconnection rio fuel fd rp (send rio fd bs (record io { world = w }))
  unfolding reply_nonconnection
  one_piece fuel bs io w e =
      ap (after_piece rio fd (λ i. reply_nonconnection rio fuel fd rp i))
        (read_block_lem rio rp s maxline io e)

  -- A reply of any bytes, behind which the server closes, is written to the client whole and in its
  -- order, in pieces, nothing else is written, and the function returns, if the fuel is one more than
  -- a number of rounds that, at 8192 bytes each, exceeds the length of the reply.
  pub reply_nonconnection-sends :
      (fuel : ℕ) (bs : Bytes) (io : Io rio)
      → length bs < fuel * maxline
      → At bs io.world
      → (ps : List Bytes) × (io' : Io rio) × (reply_nonconnection rio (suc fuel) fd rp io
          ≡ done tt io')
        × (io'.log ≡ io.log ++ pieces fd ps)
        × (join ps ≡ bs)
        × At [] io'.world
  reply_nonconnection-sends zero bs io h here = absurd (omega arith)
  reply_nonconnection-sends (suc fuel) [] io h here =
      let (io', e, l, at) = at_eof (suc fuel) io here in
      ([], io', e, l ∙ sym (append-nil io.log), refl, at)
  reply_nonconnection-sends (suc fuel) (c ∷ bs) io h here =
      let all : Bytes = c ∷ bs in
      elim (Bool-cases (ltb (length all) maxline)) [
        | inl small ↦
            let (w, e, there) = rest all maxline io.world here (omega arith) (ltb→lt _ _ small) in
            let io1 : Io rio = send rio fd all (record io { world = w }) in
            let (io', e', l, at) = at_eof fuel io1 (write fd all [] w there) in
            (all ∷ [], io', one_piece (suc fuel) all io w e ∙ e', l, append-nil all, at)
        | inr large ↦
            let first = take maxline all in
            let later = drop maxline all in
            let full : maxline ≤ length all = ltb-false_le (length all) maxline large in
            let size : length first ≡ maxline = length-take_le maxline all full in
            let (w, e, there) =
              block first later io.world
                (subst (λ x. At x io.world) (sym (take-drop maxline all)) here)
                (omega (arith, size)) in
            let io1 : Io rio = send rio fd first (record io { world = w }) in
            let (ps, io', e', l, j, at) =
              reply_nonconnection-sends fuel later io1
                (omega (arith, length-drop maxline all, full, h)) (write fd first later w there) in
            (
              first ∷ ps,
              io',
              one_piece (suc fuel) first io w
                    (subst (λ n. rio.rio_readnb rp n io.world ≡ (got first, w)) size e)
                  ∙ e',
              append-pieces fd first ps io.log io'.log l,
              ap (first ++◌) j ∙ take-drop maxline all,
              at,
            )
      ]
