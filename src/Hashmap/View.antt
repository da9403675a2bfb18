-- ===== src/Hashmap/View.antt =====
-- What a well-formed table is, and the map from keys to values that it stands for.
use tiny_proxy.Base.{
  ℕ, ◌*◌, ◌/◌, ◌%◌, ◌^◌, ◌<◌, ◌≡◌, ◌∙◌, subst, Bool, true, Option, none, some, List, if◌then◌else◌,
  length, arith, Bool-cases, inl, inr, ◌==◌, ◌&&◌,
}
use native.Mathlib.Nat.{mod-lt}
use tiny_proxy.Base.Int.{ℤ, pos, ◌==ℤ◌}
use tiny_proxy.Hashmap.Chain.{Chain, find, Distinct, value_of}
use tiny_proxy.Hashmap.Table.{
  Segment, seg_size, chain_at, set_chain, AllChains, Rows, total, chain_at-lt, chain_at-set_chain,
  length-set_chain, set_chain-Rows, AllChains-set_chain,
}
use tiny_proxy.Hashmap.Ops.{Chmap, hashmap_hash, hashmap_getentry}

pub record IsChmap (hash_capacity : ℕ) (m : Chmap) : Type 0 where
  pub width : hash_capacity ≡ length m.segs * seg_size
  pub nonempty : 0 < length m.segs
  pub rows : Rows m.segs
  pub distinct : AllChains Distinct m.segs
  pub sized : m.size ≡ total m.segs % 2 ^ 64

-- The value that the map has for a key.
unfoldable pub view : ℕ → Chmap → ℕ → Option ℤ
unfolding hashmap_getentry
view hash_capacity m k = elim (hashmap_getentry hash_capacity m (pos k)) [
  | none ↦ none
  | some e ↦ value_of e
]

abbrev pub row : ℕ → ℕ → ℕ
row hc k = k % hc / seg_size

abbrev pub slot : ℕ → ℕ → ℕ
slot hc k = k % hc % seg_size

-- Every key that is not negative has a chain.
pub located :
    {hc : ℕ} {m : Chmap}
    → IsChmap hc m
    → (k : ℕ) → (c : Chain) × (chain_at m.segs (row hc k) (slot hc k) ≡ some c)
located {hc} {m} is k =
    chain_at-lt m.segs (row hc k) (slot hc k) is.rows
      (omega
        (arith, is.width, is.nonempty, mod-lt k {m = hc} (omega (arith, is.width, is.nonempty))))
      (omega arith)

abbrev pub lookup : Option Chain → ℤ → Option ℤ
lookup none k = none
lookup (some c) k = value_of (find k c)

abbrev pub same_slot : ℕ → ℕ → ℕ → Bool
same_slot hc a b = row hc a == row hc b && slot hc a == slot hc b

pub view_lem :
    (hc : ℕ) (m : Chmap) (k : ℕ)
    → view hc m k ≡ lookup (chain_at m.segs (row hc k) (slot hc k)) (pos k)
unfolding view hashmap_hash
view_lem hc m k = ground arith

pub same_slot_refl : (hc a : ℕ) → same_slot hc a a ≡ true
same_slot_refl hc a = ground arith

same_slot_chain :
    (hc : ℕ) (segs : List Segment) (a b : ℕ)
    → same_slot hc a b ≡ true
    → chain_at segs (row hc b) (slot hc b) ≡ chain_at segs (row hc a) (slot hc a)
same_slot_chain hc segs a b h =
    let p : row hc b ≡ row hc a = ground arith in
    let q : slot hc b ≡ slot hc a = ground arith in rw (p, q)

-- A chain is replaced by one in which a search for any key finds what it found before, except for
-- the key `a`. (`r` is what it finds there.)
pub view-set_chain :
    {hc : ℕ} {m : Chmap} (is : IsChmap hc m) (a b n : ℕ) (c d : Chain) (r : Option ℤ)
    → chain_at m.segs (row hc a) (slot hc a) ≡ some c
    → ((j : ℤ) → value_of (find j d) ≡ (if pos a ==ℤ j then r else value_of (find j c)))
    → view hc (record m { segs = set_chain m.segs (row hc a) (slot hc a) d; size = n }) b
      ≡ (if a == b then r else view hc m b)
unfolding ◌==ℤ◌
view-set_chain {hc} {m} is a b n c d r spot found =
    rw
      (
        view_lem,
        view_lem,
        chain_at-set_chain m.segs (row hc a) (slot hc a) (row hc b) (slot hc b) d {old = c} spot,
      )
      (elim (Bool-cases (a == b)) [
        | inl e ↦
            let same : a ≡ b = ground arith in
            let s : same_slot hc a b ≡ true =
              subst (λ x. same_slot hc a x ≡ true) same (same_slot_refl hc a) in
            rw (s, e) (found (pos b) ∙ rw e)
        | inr e ↦ elim (Bool-cases (same_slot hc a b)) [
          | inl s ↦ rw (s, e, same_slot_chain hc m.segs a b s ∙ spot) (found (pos b) ∙ rw e)
          | inr s ↦ rw (s, e)
        ]
      ])

-- What a change of one chain keeps of the invariant.
pub set_chain-IsChmap :
    {hc : ℕ} {m : Chmap} (is : IsChmap hc m) (i j n : ℕ) (c d : Chain)
    → chain_at m.segs i j ≡ some c
    → Distinct d
    → n ≡ total (set_chain m.segs i j d) % 2 ^ 64
    → IsChmap hc (record m { segs = set_chain m.segs i j d; size = n })
set_chain-IsChmap {m} is i j n c d spot keys size = record {
  width = rw length-set_chain is.width;
  nonempty = rw length-set_chain is.nonempty;
  rows = set_chain-Rows m.segs i j d is.rows;
  distinct = AllChains-set_chain Distinct m.segs i j d is.distinct keys;
  sized = size;
}

-- The outcome of an operation that leaves the key `a` with `r` and every other key alone, returns
-- `code`, and lets the table grow from `before` to `after` entries.
pub record Changes (hc : ℕ) (m : Chmap) (a : ℕ) (r : Option ℤ) (code : ℕ) (out : Option (Chmap × ℕ))
    : Type 0 where
  pub map : Chmap
  pub returns : out ≡ some (map, code)
  pub valid : IsChmap hc map
  pub views : (b : ℕ) → view hc map b ≡ (if a == b then r else view hc m b)

abbrev pub absent : Option ℤ → ℕ
absent none = 1
absent (some v) = 0
