-- ===== src/Hashmap/Ops.antt =====
-- The functions of concurrent_hashmap.c, given the global variable `hash_capacity` that
-- `hashmap_init` sets and which is positive wherever the other functions divide by it. Memory does not run out, except in `hashmap_init`, which tests for it.
use tiny_proxy.Base.{
  ℕ, zero, suc, ◌+◌, ◌-◌, ◌*◌, ◌/◌, ◌%◌, ◌^◌, ◌≡◌, ltb, Bool, Option, none, some, List, [],
  replicate, if◌then◌else◌,
}
use tiny_proxy.Base.Int.{incr, decr, ℤ, pos, negsuc}
use tiny_proxy.Hashmap.Chain.{Entry, Chain, find, append, assign, unlink}
use tiny_proxy.Hashmap.Table.{Segment, seg_size, chain_at, set_chain}

-- `capacity` is an `int`, `size` a `size_t`.
pub record Chmap : Type 0 where
  pub capacity : ℤ
  pub size : ℕ
  pub segs : List Segment

-- `(capacity/SEG_SIZE)+1` as a `size_t`. C's division goes towards 0.
abbrev pub segments : ℤ → ℕ
segments (pos n) = n / seg_size + 1
segments (negsuc n) = (2 ^ 64 + 1 - (n + 1) / seg_size) % 2 ^ 64

-- What is kept of a `size_t` in an `int` of 32 bits.
unfoldable pub to_int : ℕ → ℤ
to_int n = let low = n % 2 ^ 32 in if ltb low (2 ^ 31) then pos low else negsuc (2 ^ 32 - 1 - low)

-- The new value of `hash_capacity`, and the map. The flags say whether `calloc` and `malloc` gave
-- memory.
unfoldable pub hashmap_init : (calloc malloc : Bool) → ℤ → ℤ × Option Chmap
unfolding to_int
hashmap_init calloc malloc capacity =
    let nmemb = segments capacity in
    let map : Chmap = record {
      capacity = capacity;
      size = 0;
      segs = replicate nmemb (replicate seg_size []);
    } in
    (
      to_int (nmemb * seg_size % 2 ^ 64),
      if calloc then (if malloc then some map else none) else none,
    )

-- C's `%`, which takes the sign of the key.
unfoldable pub hashmap_hash : ℕ → ℤ → ℤ
hashmap_hash hash_capacity (pos n) = pos (n % hash_capacity)
hashmap_hash hash_capacity (negsuc n) = elim ((n + 1) % hash_capacity) [
  | zero ↦ pos 0
  | suc r ↦ negsuc r
]

-- Runs `k` on the slot `segs[hash / SEG_SIZE].entrys[hash % SEG_SIZE]` and its chain. A negative
-- hash gives a negative index.
unfoldable pub at_hash : {A : Type 0} → Chmap → ℤ → (ℕ → ℕ → Chain → A) → Option A
at_hash m (negsuc h) k = none
at_hash m (pos h) k = elim (chain_at m.segs (h / seg_size) (h % seg_size)) [
  | none ↦ none
  | some c ↦ some (k (h / seg_size) (h % seg_size) c)
]

pub at_hash_lem :
    {A : Type 0} (m : Chmap) (h : ℕ) (k : ℕ → ℕ → Chain → A) {c : Chain}
    → chain_at m.segs (h / seg_size) (h % seg_size) ≡ some c
    → at_hash m (pos h) k ≡ some (k (h / seg_size) (h % seg_size) c)
unfolding at_hash
at_hash_lem m h k spot = rw (spot, at_hash)

unfoldable pub hashmap_getentry : ℕ → Chmap → ℤ → Option (Option Entry)
unfolding at_hash
hashmap_getentry hash_capacity m key =
    at_hash m (hashmap_hash hash_capacity key) (λ i j c. find key c)

-- What `hashmap_put` and `hashmap_putIfAbsent` do under the write lock for a key that
-- `hashmap_getentry` has not found: a new entry behind the last of its chain.
unfoldable pub insert_entry : ℕ → Chmap → ℤ → ℤ → Option Chmap
unfolding at_hash
insert_entry hash_capacity m key value =
    let hash = hashmap_hash hash_capacity key in
    at_hash m hash (λ i j c. record m {
      segs = set_chain m.segs i j (append (record { key = key; hash = hash; value = value }) c);
      size = incr m.size;
    })

-- What `hashmap_put` does under the write lock for an entry that was found.
unfoldable pub assign_entry : ℕ → Chmap → ℤ → ℤ → Option Chmap
unfolding at_hash
assign_entry hash_capacity m key value =
    at_hash m (hashmap_hash hash_capacity key)
      (λ i j c. record m { segs = set_chain m.segs i j (assign key value c) })

abbrev pub returning : ℕ → Option Chmap → Option (Chmap × ℕ)
returning r none = none
returning r (some m) = some (m, r)

unfoldable pub hashmap_put : ℕ → Chmap → ℤ → ℤ → Option (Chmap × ℕ)
hashmap_put hash_capacity m key value = elim (hashmap_getentry hash_capacity m key) [
  | none ↦ none
  | some none ↦ returning 1 (insert_entry hash_capacity m key value)
  | some (some e) ↦ returning 0 (assign_entry hash_capacity m key value)
]

unfoldable pub hashmap_put_if_absent : ℕ → Chmap → ℤ → ℤ → Option (Chmap × ℕ)
hashmap_put_if_absent hash_capacity m key value = elim (hashmap_getentry hash_capacity m key) [
  | none ↦ none
  | some none ↦ returning 1 (insert_entry hash_capacity m key value)
  | some (some e) ↦ some (m, 0)
]

unfoldable pub hashmap_contains_key : ℕ → Chmap → ℤ → Option ℕ
hashmap_contains_key hash_capacity m key = elim (hashmap_getentry hash_capacity m key) [
  | none ↦ none
  | some none ↦ some 0
  | some (some e) ↦ some 1
]

-- -1 for a key that is not there.
unfoldable pub hashmap_get : ℕ → Chmap → ℤ → Option ℤ
hashmap_get hash_capacity m key = elim (hashmap_getentry hash_capacity m key) [
  | none ↦ none
  | some none ↦ some (negsuc 0)
  | some (some e) ↦ some e.value
]

-- Unlinks the entry of the key from its chain, if it is there.
unfoldable pub take_out : Chmap → ℤ → ℕ → ℕ → Chain → Chmap × ℕ
take_out m key i j c = elim (unlink key c) [
  | none ↦ (m, 0)
  | some rest ↦ (record m { segs = set_chain m.segs i j rest; size = decr m.size }, 1)
]

unfoldable pub hashmap_remove : ℕ → Chmap → ℤ → Option (Chmap × ℕ)
unfolding at_hash take_out
hashmap_remove hash_capacity m key = at_hash m (hashmap_hash hash_capacity key) (take_out m key)

unfoldable pub hashmap_size : Chmap → ℕ
hashmap_size m = m.size
