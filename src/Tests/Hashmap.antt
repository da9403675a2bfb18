-- ===== src/Tests/Hashmap.antt =====
-- Tests and examples of the hash map.
use tiny_proxy.Base.{ℕ, true, false, ◌<◌, ◌≡◌, refl, Option, none, some, [], ◌∷◌, arith}
use tiny_proxy.Base.Int.{pos, negsuc, ◌==ℤ◌}
use tiny_proxy.Hashmap.Chain.{Entry, Distinct, find, has}
use tiny_proxy.Hashmap.Table.{AllChains, chain_at, total, row_total}
use tiny_proxy.Hashmap.Ops.{
  Chmap, hashmap_init, hashmap_hash, hashmap_put, hashmap_put_if_absent, hashmap_remove,
  hashmap_getentry, insert_entry, at_hash,
}
use tiny_proxy.Hashmap.View.{IsChmap, view, Changes}
use tiny_proxy.Hashmap.Laws.{
  hashmap_put-Changes, hashmap_put_if_absent-Changes, hashmap_remove-Changes,
}
use tiny_proxy.Hashmap.Init.{hashmap_init-IsChmap}
use tiny_proxy.Hashmap.Race.{insert_entry_twice}

abbrev entry : ℕ → ℕ → Entry
entry k v = record { key = pos k; hash = pos 0; value = pos v }

-- One segment. The keys 7 and 14 share a slot.
abbrev pub two_entries : Chmap
two_entries = record {
  capacity = pos 5;
  size = 2;
  segs = ((entry 7 70 ∷ entry 14 140 ∷ []) ∷ [] ∷ [] ∷ [] ∷ [] ∷ [] ∷ [] ∷ []) ∷ [];
}

pub two_entries-IsChmap : IsChmap 7 two_entries
unfolding total row_total has ◌==ℤ◌
two_entries-IsChmap = record {
  width = refl;
  nonempty = omega arith;
  rows = (refl, tt);
  distinct = (((refl, (refl, tt)), (tt, (tt, (tt, (tt, (tt, (tt, tt))))))), tt);
  sized = refl;
}

hashmap_put-Changes_example :
    Changes 7 two_entries 14 (some (pos 5)) 0 (hashmap_put 7 two_entries (pos 14) (pos 5))
unfolding view hashmap_getentry at_hash hashmap_hash chain_at find ◌==ℤ◌
hashmap_put-Changes_example = hashmap_put-Changes two_entries-IsChmap 14 (pos 5)

hashmap_put_if_absent-Changes_example :
    Changes 7 two_entries 14
      (some (pos 140))
      0
      (hashmap_put_if_absent 7 two_entries (pos 14) (pos 5))
unfolding view hashmap_getentry at_hash hashmap_hash chain_at find ◌==ℤ◌
hashmap_put_if_absent-Changes_example = hashmap_put_if_absent-Changes two_entries-IsChmap 14 (pos 5)

hashmap_remove-Changes_example :
    Changes 7 two_entries 7 none 1 (hashmap_remove 7 two_entries (pos 7))
unfolding view hashmap_getentry at_hash hashmap_hash chain_at find ◌==ℤ◌
hashmap_remove-Changes_example = hashmap_remove-Changes two_entries-IsChmap 7

hashmap_init-IsChmap_example :
    (m : Chmap) × (slots : ℕ) × (hashmap_init true true (pos 5) ≡ (pos slots, some m))
    × (5 < slots)
    × IsChmap slots m
    × ((k : ℕ) → view slots m k ≡ none)
hashmap_init-IsChmap_example = hashmap_init-IsChmap 5 (omega arith)

-- The largest capacity makes `hash_capacity` negative.
hash_capacity_wraps : (hashmap_init false false (pos 2147483647)).0 ≡ negsuc 2147483642
unfolding hashmap_init
hash_capacity_wraps = refl

insert_entry_twice_example :
    (m1 m2 : Chmap) × (insert_entry 7 two_entries (pos 21) (pos 1) ≡ some m1)
    × (insert_entry 7 m1 (pos 21) (pos 2) ≡ some m2)
    × (view 7 m2 21 ≡ some (pos 1))
    × ¬ (AllChains Distinct m2.segs)
unfolding view hashmap_getentry at_hash hashmap_hash chain_at find ◌==ℤ◌
insert_entry_twice_example = insert_entry_twice two_entries-IsChmap 21 (pos 1) (pos 2) refl

-- Runs of the operations.
abbrev size_after : Option (Chmap × ℕ) → ℕ
size_after none = 0
size_after (some (m, r)) = m.size

put_grows : size_after (hashmap_put 7 two_entries (pos 3) (pos 30)) ≡ 3
unfolding hashmap_put hashmap_getentry hashmap_hash chain_at find insert_entry
put_grows = refl

-- A negative key has a negative hash and so a slot in front of the array.
negative_key : hashmap_put 7 two_entries (negsuc 0) (pos 1) ≡ none
unfolding hashmap_put hashmap_getentry hashmap_hash
negative_key = refl
