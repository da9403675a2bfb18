-- ===== src/Bqueue/Fifo.antt =====
-- The queue on the heap against a first-in first-out list of values.
use tiny_proxy.Base.{
  ==_same, ℕ, suc, ◌+◌, ◌%◌, ◌^◌, ◌<◌, ◌≡◌, refl, sym, ap, ◌∙◌, Bool, true, false, none, some, List,
  [], ◌∷◌, ◌++◌, length, length-append, arith, Bool-cases, inl, inr, not, ◌&&◌, ◌⊎◌, subst, ==_iff,
  if◌then◌else◌,
}
use tiny_proxy.Base.Int.{ℤ, pos, negsuc, incr, decr}
use tiny_proxy.Bqueue.Ops.{
  Queue, Bqueue, isempty, enqueue, take_entry, dequeue, inserted, bqueue_insert, free_entry,
  bqueue_remove_nonblocking, waits, removes, bqueue_remove,
}
use tiny_proxy.Base.Linked.{
  Pointer, null, to, Linkable, Heap, write_at, set_next, Node, Linked, Fresh, Distinct, last,
  Linked-write_at, Fresh-free, Distinct-append, last-append, Linked-append, cut_tail, cut_tail_lem,
}

pub record IsBqueue (b : Bqueue) (l : List (Node ℤ)) : Type 0 where
  pub linked : Linked b.heap b.queue.head l
  pub distinct : Distinct l
  pub tail : b.queue.tail ≡ last l
  pub size : b.queue.size ≡ length l % 2 ^ 64

abbrev pub values : List (Node ℤ) → List ℤ
values [] = []
values ((a, x) ∷ l) = x ∷ values l

-- The queue is well-formed and has these values, the oldest first.
abbrev pub Holds : Bqueue → List ℤ → Type 0
Holds b xs = (l : List (Node ℤ)) × IsBqueue b l × (values l ≡ xs)

values-append :
    (l : List (Node ℤ)) (a : ℕ) (x : ℤ) → values (l ++ ((a, x) ∷ [])) ≡ values l ++ (x ∷ [])
values-append [] a x = refl
values-append ((b, y) ∷ l) a x = ap (◌∷◌ y) (values-append l a x)

length-values : (l : List (Node ℤ)) → length (values l) ≡ length l
length-values [] = refl
length-values ((a, x) ∷ l) = ap suc (length-values l)

last_some : (e : Node ℤ) (l : List (Node ℤ)) → (t : ℕ) × (last (e ∷ l) ≡ to t)
last_some e [] = (e.0, refl)
last_some e (f ∷ l) = last_some f l

set_next_lem :
    (h : Heap ℤ) (t : ℕ) (p : Pointer) {y : ℤ} {n : Pointer}
    → h t ≡ some (record { held = y; next = n })
    → set_next h t p ≡ some (write_at h t (some (record { held = y; next = p })))
unfolding set_next
set_next_lem h t p there = rw (there, set_next)

enqueue_lem :
    (h h' : Heap ℤ) (q : Queue) (a t : ℕ)
    → q.tail ≡ to t
    → set_next h t (to a) ≡ some h'
    → enqueue h q a ≡ some (h', record { head = q.head; tail = to a; size = incr q.size })
unfolding enqueue
enqueue_lem h h' q a t tail eq = rw (tail, eq) refl

size-append :
    (l : List (Node ℤ)) (e : Node ℤ) (n : ℕ)
    → n ≡ length l % 2 ^ 64
    → incr n ≡ length (l ++ (e ∷ [])) % 2 ^ 64
size-append l e n h = omega (arith, h, length-append l (e ∷ []))

insert-IsBqueue :
    (b : Bqueue) (l : List (Node ℤ)) (a : ℕ) (garbage : Pointer) (x : ℤ)
    → IsBqueue b l
    → b.heap a ≡ none
    → (b' : Bqueue) × (bqueue_insert b a garbage x ≡ some (b', pos 1))
      × IsBqueue b' (l ++ ((a, x) ∷ []))
unfolding bqueue_insert enqueue
insert-IsBqueue b [] a garbage x is free = (
  record b {
    heap = write_at b.heap a (some (record { held = x; next = garbage }));
    queue = record { head = to a; tail = to a; size = incr b.queue.size };
  },
  rw is.tail refl,
  record {
    linked = (garbage, refl, rw ==_same refl, tt);
    distinct = (tt, tt);
    tail = refl;
    size = size-append [] (a, x) b.queue.size is.size;
  },
)
insert-IsBqueue b (f ∷ l) a garbage x is free =
    let (t, et) = last_some f l in
    let h1 : Heap ℤ = write_at b.heap a (some (record { held = x; next = garbage })) in
    let fresh : Fresh a (f ∷ l) = Fresh-free b.heap b.queue.head (f ∷ l) a is.linked free in
    let kept : Linked h1 b.queue.head (f ∷ l) =
      Linked-write_at b.heap b.queue.head (f ∷ l) a _ fresh is.linked in
    let (y, n, ct, linked) =
      Linked-append h1 b.queue.head (f ∷ l) a t x garbage kept is.distinct fresh et
        (rw ==_same refl) in
    (
      _,
      ap (inserted b) (enqueue_lem h1 _ b.queue a t (is.tail ∙ et) (set_next_lem h1 t (to a) ct)),
      record {
        linked = linked;
        distinct = Distinct-append (f ∷ l) a x fresh is.distinct;
        tail = sym (last-append (f ∷ l) (a, x));
        size = size-append (f ∷ l) (a, x) b.queue.size is.size;
      },
    )

-- An insertion into a well-formed queue, of an entry that `malloc` has put where nothing was
-- allocated, succeeds, returns 1 and adds the value behind the others, whatever the memory of the
-- entry held.
pub bqueue_insert-Holds :
    (b : Bqueue) (xs : List ℤ) (a : ℕ) (garbage : Pointer) (x : ℤ)
    → Holds b xs
    → b.heap a ≡ none
    → (b' : Bqueue) × (bqueue_insert b a garbage x ≡ some (b', pos 1)) × Holds b' (xs ++ (x ∷ []))
bqueue_insert-Holds b xs a garbage x (l, is, same) free =
    let (b', e, is') = insert-IsBqueue b l a garbage x is free in
    (b', e, (l ++ ((a, x) ∷ []), is', values-append l a x ∙ ap (λ v. v ++ (x ∷ [])) same))

take_entry_lem :
    (h : Heap ℤ) (q : Queue) (t a : ℕ) {x : ℤ} {n : Pointer}
    → h a ≡ some (record { held = x; next = n })
    → take_entry h q t a
      ≡ some (
        write_at h a (some (record { held = x; next = null })),
        record { head = n; tail = cut_tail a t; size = decr q.size },
        to a,
      )
unfolding take_entry
take_entry_lem h q t a there = rw (there, take_entry)

dequeue_lem :
    (h : Heap ℤ) (q : Queue) (a t : ℕ) {x : ℤ} {n : Pointer}
    → q.tail ≡ to t
    → q.head ≡ to a
    → h a ≡ some (record { held = x; next = n })
    → dequeue h q
      ≡ some (
        write_at h a (some (record { held = x; next = null })),
        record { head = n; tail = cut_tail a t; size = decr q.size },
        to a,
      )
unfolding dequeue
dequeue_lem h q a t {x} {n} tail head there =
    rw (tail, head) (take_entry_lem h q t a {x = x} {n = n} there)

abbrev removed : Bqueue → ℕ → ℕ → ℤ → Pointer → Bqueue
removed b a t x n = record b {
  heap = write_at (write_at b.heap a (some (record { held = x; next = null }))) a none;
  queue = record { head = n; tail = cut_tail a t; size = decr b.queue.size };
}

free_entry_lem :
    (b : Bqueue) (h : Heap ℤ) (q : Queue) (a : ℕ) {c : Linkable ℤ}
    → h a ≡ some c
    → free_entry b (some (h, q, to a))
      ≡ some (record b { heap = write_at h a none; queue = q }, c.held)
unfolding free_entry
free_entry_lem b h q a there = rw there refl

-- What the two functions do with a queue that has these values.
abbrev pub Removes : Bqueue → Bool → List ℤ → Type 0
Removes b true xs =
    (bqueue_remove_nonblocking b ≡ some (b, negsuc 0))
    × (bqueue_remove b ≡ removes (some (b, negsuc 0)))
Removes b false [] = (bqueue_remove_nonblocking b ≡ some (b, negsuc 1)) × (bqueue_remove b ≡ waits)
Removes b false (x ∷ xs) =
    (b' : Bqueue) × (bqueue_remove_nonblocking b ≡ some (b', x))
    × (bqueue_remove b ≡ removes (some (b', x)))
    × Holds b' xs

removed_lem :
    (b : Bqueue) (a t : ℕ) (x : ℤ) (n : Pointer)
    → b.queue.tail ≡ to t
    → b.queue.head ≡ to a
    → b.heap a ≡ some (record { held = x; next = n })
    → free_entry b (dequeue b.heap b.queue) ≡ some (removed b a t x n, x)
removed_lem b a t x n tail head there =
    ap (free_entry b) (dequeue_lem b.heap b.queue a t tail head there)
    ∙ free_entry_lem b _ _ a {c = record { held = x; next = null }} (rw ==_same refl)

removed-IsBqueue :
    (b : Bqueue) (a t : ℕ) (x : ℤ) (n : Pointer) (l : List (Node ℤ))
    → IsBqueue b ((a, x) ∷ l)
    → last ((a, x) ∷ l) ≡ to t
    → length l + 1 < 2 ^ 64
    → Linked b.heap n l
    → IsBqueue (removed b a t x n) l
removed-IsBqueue b a t x n l is e short more = record {
  linked =
      Linked-write_at _ n l a none is.distinct.0
        (Linked-write_at b.heap n l a _ is.distinct.0 more);
  distinct = is.distinct.1;
  tail = cut_tail_lem a t x l is.distinct.0 e;
  size = omega (arith, is.size);
}

not_empty :
    (b : Bqueue) (f : Node ℤ) (l : List (Node ℤ))
    → IsBqueue b (f ∷ l)
    → length l + 1 < 2 ^ 64
    → isempty b.queue ≡ false
not_empty b f l is short = elim (Bool-cases (isempty b.queue)) [
  | inl e ↦ absurd (omega (arith, (==_iff b.queue.size 0).0 e, is.size))
  | inr e ↦ e
]

then_lem : {A : Type 0} {d : Bool} (x y : A) → d ≡ true → (if d then x else y) ≡ x
then_lem x y h = rw h refl

else_lem : {A : Type 0} {d : Bool} (x y : A) → d ≡ false → (if d then x else y) ≡ y
else_lem x y h = rw h refl

waits_lem : (e d : Bool) → e ≡ true → d ≡ false → (e && not d) ≡ true
waits_lem e d h k = rw (h, k) refl

goes_on_lem : (e d : Bool) → (e ≡ false) ⊎ (d ≡ true) → (e && not d) ≡ false
goes_on_lem e d h = ground arith

remove-Removes :
    (b : Bqueue) (l : List (Node ℤ)) (down : Bool)
    → IsBqueue b l
    → length l < 2 ^ 64
    → b.shuttingdown ≡ down
    → Removes b down (values l)
unfolding bqueue_remove_nonblocking bqueue_remove
remove-Removes b l true is short down = (
  then_lem _ _ down,
  else_lem _ _ (goes_on_lem (isempty b.queue) b.shuttingdown (inr down)) ∙ then_lem _ _ down,
)
remove-Removes b [] false is short down =
    let empty : isempty b.queue ≡ true = rw is.size refl in
    (
      else_lem _ _ down ∙ then_lem _ _ empty,
      then_lem _ _ (waits_lem (isempty b.queue) b.shuttingdown empty down),
    )
remove-Removes b ((a, x) ∷ l) false is short down =
    let (t, et) = last_some (a, x) l in
    let (n, head, there, more) = is.linked in
    let eq = removed_lem b a t x n (is.tail ∙ et) head there in
    let some_left = not_empty b (a, x) l is (omega arith) in
    (
      removed b a t x n,
      else_lem _ _ down ∙ else_lem _ _ some_left ∙ eq,
      else_lem _ _ (goes_on_lem (isempty b.queue) b.shuttingdown (inl some_left))
          ∙ else_lem _ _ down
          ∙ ap removes eq,
      (l, removed-IsBqueue b a t x n l is et (omega arith) more, refl),
    )

-- For a well-formed queue of fewer than 2 ^ 64 values: after a shut-down both functions return -1
-- and change nothing. Otherwise, where the queue is empty, the one returns -2 and changes nothing
-- and the other waits; where it is not, both return the oldest value and leave a well-formed
-- queue of the others in their order.
pub bqueue_remove-Removes :
    (b : Bqueue) (xs : List ℤ) → Holds b xs → length xs < 2 ^ 64 → Removes b b.shuttingdown xs
bqueue_remove-Removes b xs (l, is, same) short =
    subst (λ v. Removes b b.shuttingdown v) same
      (remove-Removes b l b.shuttingdown is (omega (arith, ap length same, length-values l)) refl)
