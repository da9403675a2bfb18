-- ===== src/Hashmap/Race.antt =====
-- Two threads that put one new key. `hashmap_put` searches under the read lock of the segment, and
-- inserts under the write lock that it takes afterwards.
use tiny_proxy.Base.{◌%◌, sym, ℕ, ◌≡◌, ◌∙◌, ap, [], ◌∷◌, Option, none, some, refl, true, arith}
use tiny_proxy.Base.Int.{ℤ, pos, ==ℤ_iff, incr}
use tiny_proxy.Hashmap.Chain.{
  Entry, Chain, Distinct, find, append, has, has-append, value_of, has_of_some,
}
use tiny_proxy.Hashmap.Table.{
  AllChains, chain_at, set_chain, chain_at-set_chain, AllChains-chain_at,
}
use tiny_proxy.Hashmap.Ops.{Chmap, hashmap_hash, insert_entry, at_hash_lem}
use tiny_proxy.Hashmap.View.{IsChmap, view, view_lem, same_slot_refl, located, row, slot, lookup}
use tiny_proxy.Hashmap.Laws.{view_at}

none_of_value : (o : Option Entry) → value_of o ≡ none → o ≡ none
none_of_value none h = refl
none_of_value (some e) h = cc

find-append_old :
    (k : ℤ) (f : Entry) (c : Chain) {e : Entry} → find k c ≡ some e → find k (append f c) ≡ some e
unfolding find append
find-append_old k f [] h = cc
find-append_old k f (x ∷ c) {e} h = ground (arith, find-append_old k f c {e = e})

find-append_new :
    (k : ℤ) (f : Entry) (c : Chain) → f.key ≡ k → find k c ≡ none → find k (append f c) ≡ some f
unfolding find append
find-append_new k f [] e h = ground (arith, ==ℤ_iff f.key k)
find-append_new k f (x ∷ c) e h = ground (arith, find-append_new k f c)

append-not_Distinct : (f : Entry) (c : Chain) → has f.key c ≡ true → ¬ Distinct (append f c)
unfolding has append
append-not_Distinct f [] h d = cc
append-not_Distinct f (x ∷ c) h d =
    ground (
      arith,
      has-append x.key f c,
      ==ℤ_iff x.key f.key,
      ==ℤ_iff f.key x.key,
      append-not_Distinct f c,
    )

abbrev entry : ℕ → ℕ → ℤ → Entry
entry hc a v = record { key = pos a; hash = pos (a % hc); value = v }

abbrev inserted : ℕ → Chmap → ℕ → ℤ → Chain → Chmap
inserted hc m a v c = record m {
  segs = set_chain m.segs (row hc a) (slot hc a) (append (entry hc a v) c);
  size = incr m.size;
}

insert_entry_lem :
    (hc : ℕ) (m : Chmap) (a : ℕ) (v : ℤ) (c : Chain)
    → chain_at m.segs (row hc a) (slot hc a) ≡ some c
    → insert_entry hc m (pos a) v ≡ some (inserted hc m a v c)
unfolding insert_entry hashmap_hash
insert_entry_lem hc m a v c spot =
    at_hash_lem m (a % hc)
      (λ i j x. record m {
        segs = set_chain m.segs i j (append (entry hc a v) x);
        size = incr m.size;
      })
      {c = c} spot

inserted_chain :
    (hc : ℕ) (m : Chmap) (a : ℕ) (v : ℤ) (c : Chain)
    → chain_at m.segs (row hc a) (slot hc a) ≡ some c
    → chain_at (inserted hc m a v c).segs (row hc a) (slot hc a) ≡ some (append (entry hc a v) c)
inserted_chain hc m a v c spot =
    chain_at-set_chain m.segs (row hc a) (slot hc a) (row hc a) (slot hc a)
      (append (entry hc a v) c) {old = c} spot
    ∙ rw (same_slot_refl hc a)

-- In a well-formed table, for a key that is not negative and has no value: where two calls of
-- `hashmap_put` or `hashmap_putIfAbsent` have both searched before either inserts, the second
-- insertion leaves a table in which a search for the key finds the value that was inserted first,
-- and in which a key stands twice in a chain.
pub insert_entry_twice :
    {hc : ℕ} {m : Chmap}
    → IsChmap hc m
    → (a : ℕ) (v w : ℤ) → view hc m a ≡ none
    → (m1 m2 : Chmap) × (insert_entry hc m (pos a) v ≡ some m1)
      × (insert_entry hc m1 (pos a) w ≡ some m2)
      × (view hc m2 a ≡ some v)
      × ¬ (AllChains Distinct m2.segs)
insert_entry_twice {hc} {m} is a v w new =
    let (c, spot) = located is a in
    let m1 : Chmap = inserted hc m a v c in
    let c1 : Chain = append (entry hc a v) c in
    let spot1 = inserted_chain hc m a v c spot in
    let m2 : Chmap = inserted hc m1 a w c1 in
    let spot2 = inserted_chain hc m1 a w c1 spot1 in
    let gone : find (pos a) c ≡ none =
      none_of_value (find (pos a) c) (sym (view_at is a c spot) ∙ new) in
    let first = find-append_new (pos a) (entry hc a v) c refl gone in
    (
      m1,
      m2,
      insert_entry_lem hc m a v c spot,
      insert_entry_lem hc m1 a w c1 spot1,
      view_lem hc m2 a
          ∙ ap (λ x. lookup x (pos a)) spot2
          ∙ ap value_of (find-append_old (pos a) (entry hc a w) c1 first),
      λ distinct.
          append-not_Distinct (entry hc a w) c1 (has_of_some (pos a) c1 {e = entry hc a v} first) (
            AllChains-chain_at Distinct m2.segs (row hc a) (slot hc a)
              {c = append (entry hc a w) c1} distinct spot2),
    )
