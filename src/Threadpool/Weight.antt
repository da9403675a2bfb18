-- ===== src/Threadpool/Weight.antt =====
-- How far the workers are from their end.
use tiny_proxy.Base.{
  ℕ, zero, suc, ◌+◌, ◌*◌, ◌<◌, ◌≤◌, ◌≡◌, refl, ap, false, ◌==◌, inl, inr, if◌then◌else◌, Bool-cases,
  ==_iff, arith,
}
use tiny_proxy.Threadpool.Machine.{Worker, idle, runs, exited, set_worker}

-- How many steps a worker is from its end.
abbrev pub weight : Worker → ℕ
weight idle = 1
weight (runs a) = 2
weight exited = 0

abbrev pub left : ℕ → (ℕ → Worker) → ℕ
left zero ws = 0
left (suc n) ws = weight (ws n) + left n ws

weight_le : (w : Worker) → weight w ≤ 2
weight_le idle = omega arith
weight_le (runs a) = omega arith
weight_le exited = omega arith

pub left_le : (size : ℕ) (ws : ℕ → Worker) → left size ws ≤ 2 * size
left_le zero ws = omega arith
left_le (suc n) ws = omega (arith, weight_le (ws n), left_le n ws)

below_apart : (n i : ℕ) → n < i → (n == i) ≡ false
below_apart n i h = ground arith

left_above :
    (ws : ℕ → Worker) (i : ℕ) (w : Worker) (n : ℕ) → n ≤ i → left n (set_worker ws i w) ≡ left n ws
left_above ws i w zero h = refl
left_above ws i w (suc n) h =
    rw (below_apart n i (omega (arith, h)))
      (ap (λ x. weight (ws n) + x) (left_above ws i w n (omega (arith, h))))

below_next : (n i : ℕ) → i < suc n → (n == i) ≡ false → i < n
below_next n i h e = ground arith

pub left_set :
    (ws : ℕ → Worker) (i : ℕ) (w : Worker) (size : ℕ)
    → i < size
    → left size (set_worker ws i w) + weight (ws i) ≡ left size ws + weight w
left_set ws i w zero h = absurd (omega (arith, h))
left_set ws i w (suc n) h = elim (Bool-cases (n == i)) [
  | inl e ↦
      let same : n ≡ i = (==_iff n i).0 e in
      let above : left n (set_worker ws i w) ≡ left n ws =
        left_above ws i w n (omega (arith, same)) in
      let at : weight (set_worker ws i w n) ≡ weight w =
        ap (λ b. weight (if b then w else ws n)) e in
      let old : weight (ws n) ≡ weight (ws i) = ap (λ x. weight (ws x)) same in
      omega (arith, above, at, old)
  | inr e ↦
      let below = left_set ws i w n (below_next n i h e) in
      let at : weight (set_worker ws i w n) ≡ weight (ws n) =
        ap (λ b. weight (if b then w else ws n)) e in
      omega (arith, below, at)
]
