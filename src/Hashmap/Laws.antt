-- ===== src/Hashmap/Laws.antt =====
-- The table against a map from keys to values, for keys that are not negative, as descriptors are.
use tiny_proxy.Base.{
  ℕ, ◌-◌, ◌%◌, ◌^◌, ◌≡◌, refl, ap, ◌∙◌, subst, true, Option, none, some, if◌then◌else◌, arith,
  Bool-cases, Option-cases, inl, inr, ◌==◌,
}
use mathlib.Core.Option.{get_or}
use tiny_proxy.Base.Int.{ℤ, pos, negsuc, incr, decr}
use tiny_proxy.Hashmap.Chain.{
  Entry, Chain, find, append, assign, delete, has, Distinct, value_of, find-append, find-assign,
  find-delete, has_of_some, append-Distinct, assign-Distinct, delete-Distinct, length-append_entry,
  length-assign, length-delete, unlink-none, unlink-some,
}
use tiny_proxy.Hashmap.Table.{chain_at, set_chain, total-set_chain, AllChains-chain_at}
use tiny_proxy.Hashmap.Ops.{
  Chmap, hashmap_hash, at_hash_lem, hashmap_getentry, insert_entry, assign_entry, hashmap_put,
  hashmap_put_if_absent, hashmap_get, hashmap_contains_key, hashmap_remove, returning, take_out,
}
use tiny_proxy.Hashmap.View.{
  IsChmap, view, row, slot, located, view_lem, view-set_chain, set_chain-IsChmap, Changes, absent,
}

module _ {hc : ℕ} {m : Chmap} (is : IsChmap hc m) (a : ℕ) (c : Chain)
    (spot : chain_at m.segs (row hc a) (slot hc a) ≡ some c) where
  pub view_at : view hc m a ≡ value_of (find (pos a) c)
  view_at = rw (view_lem, spot)

  getentry_at : hashmap_getentry hc m (pos a) ≡ some (find (pos a) c)
  unfolding hashmap_getentry hashmap_hash
  getentry_at = at_hash_lem m (a % hc) (λ i j x. find (pos a) x) {c = c} spot

  keys : Distinct c
  keys = AllChains-chain_at Distinct m.segs (row hc a) (slot hc a) {c = c} is.distinct spot

  insert_entry-Changes :
      (v : ℤ)
      → find (pos a) c ≡ none
      → Changes hc m a (some v) 1 (returning 1 (insert_entry hc m (pos a) v))
  unfolding insert_entry hashmap_hash
  insert_entry-Changes v new =
      let e : Entry = record { key = pos a; hash = pos (a % hc); value = v } in
      let d : Chain = append e c in
      record {
        map = record m { segs = set_chain m.segs (row hc a) (slot hc a) d; size = incr m.size };
        returns = ap (returning 1) (
            at_hash_lem m (a % hc)
              (λ i j x. record m { segs = set_chain m.segs i j (append e x); size = incr m.size })
              {c = c} spot);
        valid =
            set_chain-IsChmap is (row hc a) (slot hc a) (incr m.size) c d spot
              (append-Distinct e c new keys)
              (omega (
                arith,
                is.sized,
                total-set_chain m.segs (row hc a) (slot hc a) d {old = c} spot,
                length-append_entry e c,
              ));
        views = λ b.
            view-set_chain is a b (incr m.size) c d (some v) spot
              (λ j. find-append (pos a) j e c refl new);
      }

  assign_entry-Changes :
      (v : ℤ) {e : Entry}
      → find (pos a) c ≡ some e
      → Changes hc m a (some v) 0 (returning 0 (assign_entry hc m (pos a) v))
  unfolding assign_entry hashmap_hash
  assign_entry-Changes v {e} old =
      let d : Chain = assign (pos a) v c in
      record {
        map = record m { segs = set_chain m.segs (row hc a) (slot hc a) d };
        returns = ap (returning 0) (
            at_hash_lem m (a % hc)
              (λ i j x. record m { segs = set_chain m.segs i j (assign (pos a) v x) }) {c = c}
              spot);
        valid =
            set_chain-IsChmap is (row hc a) (slot hc a) m.size c d spot
              (assign-Distinct (pos a) v c keys)
              (is.sized
                ∙ ap (λ n. n % 2 ^ 64)
                    (omega (
                      arith,
                      total-set_chain m.segs (row hc a) (slot hc a) d {old = c} spot,
                      length-assign (pos a) v c,
                    )));
        views = λ b.
            view-set_chain is a b m.size c d (some v) spot
              (λ j. find-assign (pos a) j v c (has_of_some (pos a) c {e = e} old));
      }

  remove_lem : hashmap_remove hc m (pos a) ≡ some (take_out m (pos a) (row hc a) (slot hc a) c)
  unfolding hashmap_remove hashmap_hash
  remove_lem = at_hash_lem m (a % hc) (take_out m (pos a)) {c = c} spot

  -- Nothing changes if the key `a` is to have what it has.
  unchanged :
      (b : ℕ) (r : Option ℤ) → view hc m a ≡ r → view hc m b ≡ (if a == b then r else view hc m b)
  unchanged b r h = elim (Bool-cases (a == b)) [
    | inl e ↦ let same : a ≡ b = ground arith in rw e (subst (λ x. view hc m x ≡ r) same h)
    | inr e ↦ rw e
  ]

  remove_missing : find (pos a) c ≡ none → Changes hc m a none 0 (hashmap_remove hc m (pos a))
  unfolding take_out
  remove_missing new = record {
    map = m;
    returns = remove_lem ∙ rw (unlink-none (pos a) c new, take_out);
    valid = is;
    views = λ b. unchanged b none (view_at ∙ rw new);
  }

  remove_found :
      {e : Entry} → find (pos a) c ≡ some e → Changes hc m a none 1 (hashmap_remove hc m (pos a))
  unfolding take_out
  remove_found {e} old =
      let d : Chain = delete (pos a) c in
      let there : has (pos a) c ≡ true = has_of_some (pos a) c {e = e} old in
      record {
        map = record m { segs = set_chain m.segs (row hc a) (slot hc a) d; size = decr m.size };
        returns = remove_lem ∙ rw (unlink-some (pos a) c {e = e} old, take_out);
        valid =
            set_chain-IsChmap is (row hc a) (slot hc a) (decr m.size) c d spot
              (delete-Distinct (pos a) c keys)
              (omega (
                arith,
                is.sized,
                total-set_chain m.segs (row hc a) (slot hc a) d {old = c} spot,
                length-delete (pos a) c there,
              ));
        views = λ b.
            view-set_chain is a b (decr m.size) c d none spot (λ j. find-delete (pos a) j c keys);
      }

-- For a well-formed table and a key that is not negative, `hashmap_put` succeeds, keeps the table
-- well-formed, gives the key its value and leaves every other key alone. It returns 1 for a new key and 0 for one that was there.
pub hashmap_put-Changes :
    {hc : ℕ} {m : Chmap}
    → IsChmap hc m
    → (a : ℕ) (v : ℤ) → Changes hc m a (some v) (absent (view hc m a)) (hashmap_put hc m (pos a) v)
unfolding hashmap_put
hashmap_put-Changes {hc} {m} is a v =
    let (c, spot) = located is a in
    elim (Option-cases (find (pos a) c)) [
      | inl new ↦
          rw (view_at is a c spot, getentry_at is a c spot ∙ ap some new, new, hashmap_put)
            (insert_entry-Changes is a c spot v new)
      | inr (e, old) ↦
          rw (view_at is a c spot, getentry_at is a c spot ∙ ap some old, old, hashmap_put)
            (assign_entry-Changes is a c spot v {e = e} old)
    ]

-- For a well-formed table and a key that is not negative, `hashmap_putIfAbsent` succeeds and keeps
-- the table well-formed. A key that is there keeps its value, a new one gets the value given, and every other key is left alone. It returns 1 for a new
-- key and 0 for one that was there.
pub hashmap_put_if_absent-Changes :
    {hc : ℕ} {m : Chmap}
    → IsChmap hc m
    → (a : ℕ) (v : ℤ)
    → Changes hc m a
        (some (get_or (view hc m a) v))
        (absent (view hc m a))
        (hashmap_put_if_absent hc m (pos a) v)
unfolding hashmap_put_if_absent
hashmap_put_if_absent-Changes {hc} {m} is a v =
    let (c, spot) = located is a in
    elim (Option-cases (find (pos a) c)) [
      | inl new ↦
          rw
            (view_at is a c spot, getentry_at is a c spot ∙ ap some new, new, hashmap_put_if_absent)
            (insert_entry-Changes is a c spot v new)
      | inr (e, old) ↦
          rw
            (view_at is a c spot, getentry_at is a c spot ∙ ap some old, old, hashmap_put_if_absent)
            (record {
              map = m;
              returns = refl;
              valid = is;
              views = λ b. unchanged is a c spot b (some e.value) (view_at is a c spot ∙ rw old);
            })
    ]

-- For a well-formed table and a key that is not negative, `hashmap_remove` succeeds, keeps the table well-formed, leaves the key without a value and every
-- other key alone. It returns 1 if the key was there and 0 if it was not.
pub hashmap_remove-Changes :
    {hc : ℕ} {m : Chmap}
    → IsChmap hc m
    → (a : ℕ) → Changes hc m a none (1 - absent (view hc m a)) (hashmap_remove hc m (pos a))
hashmap_remove-Changes {hc} {m} is a =
    let (c, spot) = located is a in
    elim (Option-cases (find (pos a) c)) [
      | inl new ↦ rw (view_at is a c spot, new) (remove_missing is a c spot new)
      | inr (e, old) ↦ rw (view_at is a c spot, old) (remove_found is a c spot {e = e} old)
    ]

pub hashmap_get-view :
    {hc : ℕ} {m : Chmap}
    → IsChmap hc m
    → (a : ℕ)
    → (hashmap_get hc m (pos a) ≡ some (get_or (view hc m a) (negsuc 0)))
      × (hashmap_contains_key hc m (pos a) ≡ some (1 - absent (view hc m a)))
unfolding hashmap_get hashmap_contains_key
hashmap_get-view {hc} {m} is a =
    let (c, spot) = located is a in ground (arith, view_at is a c spot, getentry_at is a c spot)
