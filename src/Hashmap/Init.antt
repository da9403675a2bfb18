-- ===== src/Hashmap/Init.antt =====
-- `hashmap_init`.
use tiny_proxy.Base.{
  ℕ, zero, suc, ◌+◌, ◌*◌, ◌/◌, ◌%◌, ◌^◌, ◌<◌, lt→ltb, ◌≡◌, ◌∙◌, refl, ap, true, none, some, List,
  [], replicate, arith, length-replicate,
}
use tiny_proxy.Base.Int.{ℤ, pos}
use tiny_proxy.Hashmap.Chain.{Chain, find, value_of, Distinct}
use tiny_proxy.Hashmap.Table.{
  Segment, seg_size, AllChains, Rows, total, AllChains-chain_at, row_total,
}
use tiny_proxy.Hashmap.Ops.{Chmap, to_int, hashmap_init}
use tiny_proxy.Hashmap.View.{IsChmap, view, lookup, view_lem, row, slot, located}

abbrev empty_row : Segment
empty_row = replicate seg_size []

abbrev empty_table : ℕ → List Segment
empty_table n = replicate n empty_row

empty_table-Rows : (n : ℕ) → Rows (empty_table n)
empty_table-Rows zero = tt
empty_table-Rows (suc n) = (refl, empty_table-Rows n)

empty_table-Distinct : (n : ℕ) → AllChains Distinct (empty_table n)
empty_table-Distinct zero = tt
empty_table-Distinct (suc n) =
    ((tt, (tt, (tt, (tt, (tt, (tt, (tt, tt))))))), empty_table-Distinct n)

empty_table-total : (n : ℕ) → total (empty_table n) ≡ 0
unfolding total row_total
empty_table-total zero = refl
empty_table-total (suc n) = omega (arith, empty_table-total n)

abbrev IsEmpty : Chain → Type 0
IsEmpty c = (k : ℤ) → find k c ≡ none

empty_table-IsEmpty : (n : ℕ) → AllChains IsEmpty (empty_table n)
unfolding find
empty_table-IsEmpty zero = tt
empty_table-IsEmpty (suc n) = (
  (λ k. refl, (λ k. refl, (λ k. refl, (λ k. refl, (λ k. refl, (λ k. refl, (λ k. refl, tt))))))),
  empty_table-IsEmpty n,
)

abbrev fresh : ℕ → Chmap
fresh capacity = record {
  capacity = pos capacity;
  size = 0;
  segs = empty_table (capacity / seg_size + 1);
}

fresh-IsChmap : (capacity : ℕ) → IsChmap ((capacity / seg_size + 1) * seg_size) (fresh capacity)
fresh-IsChmap capacity = record {
  width = rw length-replicate;
  nonempty = rw length-replicate (omega arith);
  rows = empty_table-Rows (capacity / seg_size + 1);
  distinct = empty_table-Distinct (capacity / seg_size + 1);
  sized = rw empty_table-total;
}

fresh-view :
    (capacity k : ℕ) → view ((capacity / seg_size + 1) * seg_size) (fresh capacity) k ≡ none
fresh-view capacity k =
    let n : ℕ = capacity / seg_size + 1 in
    let (c, spot) = located (fresh-IsChmap capacity) k in
    view_lem (n * seg_size) (fresh capacity) k
    ∙ ap (λ x. lookup x (pos k)) spot
    ∙ ap value_of (
        AllChains-chain_at IsEmpty (empty_table n) (row (n * seg_size) k) (slot (n * seg_size) k)
          {c = c} (empty_table-IsEmpty n) spot (pos k))

-- A product that an `int` holds is what the `int` gets.
kept : (n : ℕ) → n < 2 ^ 31 → to_int (n % 2 ^ 64) ≡ pos n
unfolding to_int
kept n h =
    let whole : (n % 2 ^ 64) % 2 ^ 32 ≡ n = omega (arith, h) in rw (whole, lt→ltb n (2 ^ 31) h) refl

-- Given memory, and a capacity that is not negative and for which the number of slots fits in an
-- `int`, `hashmap_init` sets `hash_capacity` to that number, which is greater than the capacity, and makes a
-- well-formed table that has a value for no key.
pub hashmap_init-IsChmap :
    (capacity : ℕ)
    → (capacity / seg_size + 1) * seg_size < 2 ^ 31
    → (m : Chmap) × (slots : ℕ) × (hashmap_init true true (pos capacity) ≡ (pos slots, some m))
      × (capacity < slots)
      × IsChmap slots m
      × ((k : ℕ) → view slots m k ≡ none)
unfolding hashmap_init
hashmap_init-IsChmap capacity h = (
  fresh capacity,
  (capacity / seg_size + 1) * seg_size,
  ap (λ x. (x, some (fresh capacity))) (kept _ h),
  omega arith,
  fresh-IsChmap capacity,
  fresh-view capacity,
)
