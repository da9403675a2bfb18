-- ===== src/Base/Linked.antt =====
-- The memory of a list whose entries are linked by their `next`, as tools/bqueue.c and
-- tools/threadpool.c keep it: what may hang on a pointer, and how an entry is hung on it.
use tiny_proxy.Base.{
  ℕ, ◌≡◌, refl, sym, ap, ◌∙◌, false, Option, none, some, if◌then◌else◌, List, [], ◌∷◌, ◌++◌, All,
  ◌==◌, ◌≢◌, Bool-cases, inl, inr, ==_iff, ==_flip, ==_same,
}

pub data Pointer : Type 0 where
  null : Pointer
  to : ℕ → Pointer

-- An entry that holds a `V`.
pub record Linkable (V : Type 0) : Type 0 where
  pub held : V
  pub next : Pointer

-- `none` where nothing is allocated.
abbrev pub Heap : Type 0 → Type 0
Heap V = ℕ → Option (Linkable V)

abbrev pub address : Pointer → ℕ
address null = 0
address (to a) = a

null_ne_to : {a : ℕ} → null ≢ to a
null_ne_to e = cc

-- `if(entry==tail) tail = NULL;`, with the tail at `t`.
abbrev pub cut_tail : ℕ → ℕ → Pointer
cut_tail entry t = if entry == t then null else to t

module _ {V : Type 0} where
  abbrev pub write_at : Heap V → ℕ → Option (Linkable V) → Heap V
  write_at h a o b = if b == a then o else h b

  -- `entry->next = p` at an address.
  unfoldable pub set_next : Heap V → ℕ → Pointer → Option (Heap V)
  set_next h a p = elim (h a) [
    | none ↦ none
    | some c ↦ some (write_at h a (some (record c { next = p })))
  ]

-- An entry of the queue: its address and what it holds.
abbrev pub Node : Type 0 → Type 0
Node V = ℕ × V

module _ {V : Type 0} where
  -- The nodes hang on `p`, in this order. What the last one's `next` holds is left open.
  abbrev pub Linked : Heap V → Pointer → List (Node V) → Type 0
  Linked h p [] = Unit
  Linked h p ((a, x) ∷ l) =
      (n : Pointer) × (p ≡ to a) × (h a ≡ some (record { held = x; next = n })) × Linked h n l

  abbrev pub Fresh : ℕ → List (Node V) → Type 0
  Fresh a l = All (λ (e : Node V). (e.0 == a) ≡ false) l

  abbrev pub Distinct : List (Node V) → Type 0
  Distinct [] = Unit
  Distinct ((a, x) ∷ l) = Fresh a l × Distinct l

  abbrev pub last : List (Node V) → Pointer
  last [] = null
  last ((a, x) ∷ []) = to a
  last (e ∷ f ∷ l) = last (f ∷ l)

  pub Linked-write_at :
      (h : Heap V) (p : Pointer) (l : List (Node V)) (a : ℕ) (o : Option (Linkable V))
      → Fresh a l
      → Linked h p l
      → Linked (write_at h a o) p l
  Linked-write_at h p [] a o fresh is = tt
  Linked-write_at h p ((b, x) ∷ l) a o fresh (n, e, c, more) =
      (n, e, rw fresh.0 c, Linked-write_at h n l a o fresh.1 more)

  some_ne_none : {c : Linkable V} → some c ≢ none
  some_ne_none e = cc

  pub apart : (h : Heap V) (b a : ℕ) {c : Linkable V} → h b ≡ some c → h a ≡ none → (b == a) ≡ false
  apart h b a {c} there free = elim (Bool-cases (b == a)) [
    | inl e ↦ absurd (some_ne_none (sym there ∙ ap h ((==_iff b a).0 e) ∙ free))
    | inr e ↦ e
  ]

  -- An address that is not allocated is no entry's.
  pub Fresh-free :
      (h : Heap V) (p : Pointer) (l : List (Node V)) (a : ℕ) → Linked h p l → h a ≡ none → Fresh a l
  Fresh-free h p [] a is free = tt
  Fresh-free h p ((b, x) ∷ l) a (n, e, c, more) free =
      (apart h b a c free, Fresh-free h n l a more free)

  pub Fresh-append :
      (l : List (Node V)) (b a : ℕ) (x : V)
      → Fresh b l
      → (b == a) ≡ false
      → Fresh b (l ++ ((a, x) ∷ []))
  Fresh-append [] b a x fresh ne = (==_flip b a ne, tt)
  Fresh-append (e ∷ l) b a x fresh ne = (fresh.0, Fresh-append l b a x fresh.1 ne)

  pub Distinct-append :
      (l : List (Node V)) (a : ℕ) (x : V) → Fresh a l → Distinct l → Distinct (l ++ ((a, x) ∷ []))
  Distinct-append [] a x fresh is = (tt, tt)
  Distinct-append ((b, y) ∷ l) a x fresh is =
      (Fresh-append l b a x is.0 fresh.0, Distinct-append l a x fresh.1 is.1)

  pub last-append : (l : List (Node V)) (e : Node V) → last (l ++ (e ∷ [])) ≡ to e.0
  last-append [] e = refl
  last-append (f ∷ []) e = refl
  last-append (f ∷ g ∷ l) e = last-append (g ∷ l) e

  -- The last entry is none of the others.
  pub last-Fresh : (l : List (Node V)) (a t : ℕ) → Fresh a l → last l ≡ to t → (a == t) ≡ false
  last-Fresh [] a t fresh e = absurd (null_ne_to e)
  last-Fresh ((b, x) ∷ []) a t fresh e = ap (λ y. a == y) (sym (ap address e)) ∙ ==_flip b a fresh.0
  last-Fresh (f ∷ g ∷ l) a t fresh e = last-Fresh (g ∷ l) a t fresh.1 e

  -- The entry that the tail points to is there, and a new one can be hung on it.
  pub Linked-append :
      (h : Heap V) (p : Pointer) (l : List (Node V)) (a t : ℕ) (x : V) (garbage : Pointer)
      → Linked h p l
      → Distinct l
      → Fresh a l
      → last l ≡ to t
      → h a ≡ some (record { held = x; next = garbage })
      → (y : V) × (n : Pointer) × (h t ≡ some (record { held = y; next = n }))
        × Linked (write_at h t (some (record { held = y; next = to a }))) p (l ++ ((a, x) ∷ []))
  Linked-append h p [] a t x garbage is distinct fresh e there = absurd (null_ne_to e)
  Linked-append h p ((b, y) ∷ []) a t x garbage (n, eb, cb, more) distinct fresh e there =
      rw (sym (ap address e))
        (y, n, cb, (to a, eb, rw ==_same refl, (garbage, refl, rw (==_flip b a fresh.0) there, tt)))
  Linked-append h p ((b, y) ∷ f ∷ l) a t x garbage (n, eb, cb, more) distinct fresh e there =
      let (z, m, ct, linked) =
        Linked-append h n (f ∷ l) a t x garbage more distinct.1 fresh.1 e there in
      (z, m, ct, (n, eb, rw (last-Fresh (f ∷ l) b t distinct.0 e) cb, linked))

  pub cut_tail_lem :
      (a t : ℕ) (x : V) (l : List (Node V))
      → Fresh a l
      → last ((a, x) ∷ l) ≡ to t
      → cut_tail a t ≡ last l
  cut_tail_lem a t x [] fresh e =
      rw (sym (ap address e)) (ap (λ c. if c then null else to a) (==_same a))
  cut_tail_lem a t x (f ∷ l) fresh e =
      ap (λ c. if c then null else to t) (last-Fresh (f ∷ l) a t fresh e) ∙ sym e
