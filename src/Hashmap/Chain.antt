-- ===== src/Hashmap/Chain.antt =====
-- The entries behind one slot of a segment, in the order of their `next` pointers, and the loops
-- that walk them.
use tiny_proxy.Base.{
  ◌+◌, ◌≡◌, refl, Bool, true, false, Option, none, some, List, [], ◌∷◌, length, arith,
  if◌then◌else◌,
}
use mathlib.Core.Option
use tiny_proxy.Base.Int.{ℤ, ◌==ℤ◌, ==ℤ_iff}

pub record Entry : Type 0 where
  pub key : ℤ
  pub hash : ℤ
  pub value : ℤ

abbrev pub Chain : Type 0
Chain = List Entry

-- The first entry with the key.
unfoldable pub find : ℤ → Chain → Option Entry
find k [] = none
find k (e ∷ c) = if e.key ==ℤ k then some e else find k c

-- `while(entryhead->next!=NULL) entryhead = entryhead->next; entryhead->next = entry;`
unfoldable pub append : Entry → Chain → Chain
append e [] = e ∷ []
append e (f ∷ c) = f ∷ append e c

-- `entry->value = value`, at the first entry with the key.
unfoldable pub assign : ℤ → ℤ → Chain → Chain
assign k v [] = []
assign k v (e ∷ c) = if e.key ==ℤ k then record e { value = v } ∷ c else e ∷ assign k v c

-- Takes out the first entry with the key, if there is one.
unfoldable pub unlink : ℤ → Chain → Option Chain
unlink k [] = none
unlink k (e ∷ c) = if e.key ==ℤ k then some c else Option.map (◌∷◌ e) (unlink k c)

abbrev pub value_of : Option Entry → Option ℤ
value_of none = none
value_of (some e) = some e.value

unfoldable pub has : ℤ → Chain → Bool
has k [] = false
has k (e ∷ c) = if e.key ==ℤ k then true else has k c

-- No key stands twice.
abbrev pub Distinct : Chain → Type 0
Distinct [] = Unit
Distinct (e ∷ c) = (has e.key c ≡ false) × Distinct c

pub has_of_none : (k : ℤ) (c : Chain) → find k c ≡ none → has k c ≡ false
unfolding find has
has_of_none k [] h = refl
has_of_none k (e ∷ c) h = ground (arith, has_of_none k c)

pub has_of_some : (k : ℤ) (c : Chain) {e : Entry} → find k c ≡ some e → has k c ≡ true
unfolding find has
has_of_some k [] h = cc
has_of_some k (e ∷ c) {e = f} h = ground (arith, has_of_some k c {e = f})

pub none_of_has : (k : ℤ) (c : Chain) → has k c ≡ false → find k c ≡ none
unfolding find has
none_of_has k [] h = refl
none_of_has k (e ∷ c) h = ground (arith, none_of_has k c)

pub has-append :
    (k : ℤ) (e : Entry) (c : Chain) → has k (append e c) ≡ (if has k c then true else e.key ==ℤ k)
unfolding has append
has-append k e [] = ground arith
has-append k e (f ∷ c) = ground (arith, has-append k e c)

has-assign : (j k v : ℤ) (c : Chain) → has j (assign k v c) ≡ has j c
unfolding has assign
has-assign j k v [] = refl
has-assign j k v (e ∷ c) = ground (arith, has-assign j k v c)

-- What a search finds after each change.
pub find-append :
    (k j : ℤ) (e : Entry) (c : Chain)
    → e.key ≡ k
    → find k c ≡ none
    → value_of (find j (append e c)) ≡ (if k ==ℤ j then some e.value else value_of (find j c))
unfolding find append
find-append k j e [] h n = ground arith
find-append k j e (f ∷ c) h n =
    ground (arith, ==ℤ_iff f.key k, ==ℤ_iff f.key j, ==ℤ_iff k j, find-append k j e c h)

pub find-assign :
    (k j v : ℤ) (c : Chain)
    → has k c ≡ true
    → value_of (find j (assign k v c)) ≡ (if k ==ℤ j then some v else value_of (find j c))
unfolding find assign has
find-assign k j v [] h = cc
find-assign k j v (e ∷ c) h =
    ground (arith, ==ℤ_iff e.key k, ==ℤ_iff e.key j, ==ℤ_iff k j, find-assign k j v c)

-- The chain without the first entry with the key.
unfoldable pub delete : ℤ → Chain → Chain
delete k [] = []
delete k (e ∷ c) = if e.key ==ℤ k then c else e ∷ delete k c

pub unlink-delete : (k : ℤ) (c : Chain) → unlink k c ≡ (if has k c then some (delete k c) else none)
unfolding unlink has delete
unlink-delete k [] = refl
unlink-delete k (e ∷ c) = ground (arith, unlink-delete k c)

pub unlink-none : (k : ℤ) (c : Chain) → find k c ≡ none → unlink k c ≡ none
unlink-none k c h = ground (arith, unlink-delete k c, has_of_none k c)

pub unlink-some :
    (k : ℤ) (c : Chain) {e : Entry} → find k c ≡ some e → unlink k c ≡ some (delete k c)
unlink-some k c {e} h = ground (arith, unlink-delete k c, has_of_some k c {e = e})

has-delete : (j k : ℤ) (c : Chain) → has j c ≡ false → has j (delete k c) ≡ false
unfolding has delete
has-delete j k [] h = refl
has-delete j k (e ∷ c) h = ground (arith, has-delete j k c)

pub find-delete :
    (k j : ℤ) (c : Chain)
    → Distinct c
    → value_of (find j (delete k c)) ≡ (if k ==ℤ j then none else value_of (find j c))
unfolding find delete
find-delete k j [] d = ground arith
find-delete k j (e ∷ c) d = ground (
  arith,
  ==ℤ_iff e.key k,
  ==ℤ_iff e.key j,
  ==ℤ_iff k j,
  none_of_has e.key c d.0,
  find-delete k j c,
)

pub delete-Distinct : (k : ℤ) (c : Chain) → Distinct c → Distinct (delete k c)
unfolding delete
delete-Distinct k [] d = tt
delete-Distinct k (e ∷ c) d = ground (arith, delete-Distinct k c, has-delete e.key k c)

pub length-delete : (k : ℤ) (c : Chain) → has k c ≡ true → length (delete k c) + 1 ≡ length c
unfolding has delete
length-delete k [] h = cc
length-delete k (e ∷ c) h = ground (arith, length-delete k c)

pub append-Distinct :
    (e : Entry) (c : Chain) → find e.key c ≡ none → Distinct c → Distinct (append e c)
unfolding append find has
append-Distinct e [] n d = (refl, tt)
append-Distinct e (f ∷ c) n d =
    ground
      (arith, append-Distinct e c, has-append f.key e c, ==ℤ_iff e.key f.key, ==ℤ_iff f.key e.key)

pub assign-Distinct : (k v : ℤ) (c : Chain) → Distinct c → Distinct (assign k v c)
unfolding assign
assign-Distinct k v [] d = tt
assign-Distinct k v (e ∷ c) d = ground (arith, assign-Distinct k v c, has-assign e.key k v c)

pub length-append_entry : (e : Entry) (c : Chain) → length (append e c) ≡ length c + 1
unfolding append
length-append_entry e [] = refl
length-append_entry e (f ∷ c) = omega (arith, length-append_entry e c)

pub length-assign : (k v : ℤ) (c : Chain) → length (assign k v c) ≡ length c
unfolding assign
length-assign k v [] = refl
length-assign k v (e ∷ c) = ground (arith, length-assign k v c)
