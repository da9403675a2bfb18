-- ===== src/Hashmap/Table.antt =====
-- The segments, seven chains each, and how one chain is read and replaced.
use mathlib.Core.Path.{subst}
use tiny_proxy.Base.{
  ℕ, zero, ◌∙◌, suc, ◌+◌, ◌<◌, ◌≡◌, refl, ap, ◌&&◌, Option, none, some, List, [], ◌∷◌, length,
  get_elem?, set, All, arith, ◌==◌, if◌then◌else◌, get_elem?-lt, length-set,
}
use tiny_proxy.Hashmap.Chain.{Chain}

abbrev pub seg_size : ℕ
seg_size = 7

abbrev pub Segment : Type 0
Segment = List Chain

-- The slot `segs[i].entrys[j]`, `none` outside the arrays.
unfoldable pub chain_at : List Segment → ℕ → ℕ → Option Chain
chain_at [] i j = none
chain_at (row ∷ segs) zero j = get_elem? row j
chain_at (row ∷ segs) (suc i) j = chain_at segs i j

-- Replaces the chain of a slot.
unfoldable pub set_chain : List Segment → ℕ → ℕ → Chain → List Segment
set_chain [] i j c = []
set_chain (row ∷ segs) zero j c = set row j c ∷ segs
set_chain (row ∷ segs) (suc i) j c = row ∷ set_chain segs i j c

-- Every chain of the table has the property.
abbrev pub AllChains : (Chain → Type 0) → List Segment → Type 0
AllChains P segs = All (λ row. All P row) segs

abbrev pub Rows : List Segment → Type 0
Rows segs = All (λ row. length row ≡ seg_size) segs

unfoldable pub row_total : Segment → ℕ
row_total [] = 0
row_total (c ∷ row) = length c + row_total row

-- The number of entries in the table.
unfoldable pub total : List Segment → ℕ
total [] = 0
total (row ∷ segs) = row_total row + total segs

pub length-set_chain :
    (segs : List Segment) (i j : ℕ) (c : Chain) → length (set_chain segs i j c) ≡ length segs
unfolding set_chain
length-set_chain [] i j c = refl
length-set_chain (row ∷ segs) zero j c = refl
length-set_chain (row ∷ segs) (suc i) j c = ap suc (length-set_chain segs i j c)

pub set_chain-Rows :
    (segs : List Segment) (i j : ℕ) (c : Chain) → Rows segs → Rows (set_chain segs i j c)
unfolding set_chain
set_chain-Rows [] i j c h = tt
set_chain-Rows (row ∷ segs) zero j c h = (length-set row j c ∙ h.0, h.1)
set_chain-Rows (row ∷ segs) (suc i) j c h = (h.0, set_chain-Rows segs i j c h.1)

pub chain_at-lt :
    (segs : List Segment) (i j : ℕ)
    → Rows segs
    → i < length segs
    → j < seg_size
    → (c : Chain) × (chain_at segs i j ≡ some c)
unfolding chain_at
chain_at-lt [] i j h k l = elim k [ ]
chain_at-lt (row ∷ segs) zero j h k l = get_elem?-lt row j (rw h.0 l)
chain_at-lt (row ∷ segs) (suc i) j h k l = chain_at-lt segs i j h.1 (omega arith) l

get_elem?-set {ℓ} :
    {A : Type ℓ} (xs : List A) (i j : ℕ) (v : A) {old : A}
    → get_elem? xs i ≡ some old
    → get_elem? (set xs i v) j ≡ (if i == j then some v else get_elem? xs j)
get_elem?-set [] i j v h = cc
get_elem?-set (x ∷ xs) zero zero v h = refl
get_elem?-set (x ∷ xs) zero (suc j) v h = ground arith
get_elem?-set (x ∷ xs) (suc i) zero v h = ground arith
get_elem?-set (x ∷ xs) (suc i) (suc j) v {old} h =
    get_elem?-set xs i j v {old = old} h ∙ ground arith

pub chain_at-set_chain :
    (segs : List Segment) (i j i' j' : ℕ) (c : Chain) {old : Chain}
    → chain_at segs i j ≡ some old
    → chain_at (set_chain segs i j c) i' j'
      ≡ (if i == i' && j == j' then some c else chain_at segs i' j')
unfolding chain_at set_chain
chain_at-set_chain [] i j i' j' c h = cc
chain_at-set_chain (row ∷ segs) zero j zero j' c {old} h = get_elem?-set row j j' c {old = old} h
chain_at-set_chain (row ∷ segs) zero j (suc i') j' c h = ground arith
chain_at-set_chain (row ∷ segs) (suc i) j zero j' c h = ground arith
chain_at-set_chain (row ∷ segs) (suc i) j (suc i') j' c {old} h =
    chain_at-set_chain segs i j i' j' c {old = old} h ∙ ground arith

row_total-set :
    (row : Segment) (j : ℕ) (c : Chain) {old : Chain}
    → get_elem? row j ≡ some old
    → row_total (set row j c) + length old ≡ row_total row + length c
unfolding row_total
row_total-set [] j c h = cc
row_total-set (x ∷ row) zero c {old} h = let same : x ≡ old = cc in omega (arith, ap length same)
row_total-set (x ∷ row) (suc j) c {old} h = omega (arith, row_total-set row j c {old = old} h)

pub total-set_chain :
    (segs : List Segment) (i j : ℕ) (c : Chain) {old : Chain}
    → chain_at segs i j ≡ some old
    → total (set_chain segs i j c) + length old ≡ total segs + length c
unfolding total set_chain chain_at
total-set_chain [] i j c h = cc
total-set_chain (row ∷ segs) zero j c {old} h = omega (arith, row_total-set row j c {old = old} h)
total-set_chain (row ∷ segs) (suc i) j c {old} h =
    omega (arith, total-set_chain segs i j c {old = old} h)

module _ (P : Chain → Type 0) where
  AllRow-set : (row : Segment) (j : ℕ) (c : Chain) → All P row → P c → All P (set row j c)
  AllRow-set [] j c h k = tt
  AllRow-set (x ∷ row) zero c h k = (k, h.1)
  AllRow-set (x ∷ row) (suc j) c h k = (h.0, AllRow-set row j c h.1 k)

  pub AllChains-set_chain :
      (segs : List Segment) (i j : ℕ) (c : Chain)
      → AllChains P segs
      → P c
      → AllChains P (set_chain segs i j c)
  unfolding set_chain
  AllChains-set_chain [] i j c h k = tt
  AllChains-set_chain (row ∷ segs) zero j c h k = (AllRow-set row j c h.0 k, h.1)
  AllChains-set_chain (row ∷ segs) (suc i) j c h k = (h.0, AllChains-set_chain segs i j c h.1 k)

  All-get_elem? : (row : Segment) (j : ℕ) {c : Chain} → All P row → get_elem? row j ≡ some c → P c
  All-get_elem? [] j h e = cc
  All-get_elem? (x ∷ row) zero {c} h e = let same : x ≡ c = cc in subst P same h.0
  All-get_elem? (x ∷ row) (suc j) {c} h e = All-get_elem? row j {c = c} h.1 e

  pub AllChains-chain_at :
      (segs : List Segment) (i j : ℕ) {c : Chain}
      → AllChains P segs
      → chain_at segs i j ≡ some c
      → P c
  unfolding chain_at
  AllChains-chain_at [] i j h e = cc
  AllChains-chain_at (row ∷ segs) zero j {c} h e = All-get_elem? row j {c = c} h.0 e
  AllChains-chain_at (row ∷ segs) (suc i) j {c} h e = AllChains-chain_at segs i j {c = c} h.1 e
