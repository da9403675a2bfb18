-- ===== src/Threadpool/Safe.antt =====
-- What a well-formed pool is, with workers that run its tasks.
use tiny_proxy.Base.{
  ℕ, ◌≡◌, refl, sym, ap, ◌∙◌, Bool, true, false, ◌||◌, none, some, List, [], ◌∷◌, ◌++◌, Bool-cases,
  inl, inr, ==_same,
}
use tiny_proxy.Base.Linked.{
  Pointer, to, Linkable, Heap, write_at, set_next, cut_tail, cut_tail_lem, Node, Linked, Fresh,
  Distinct, last, Linked-write_at, Fresh-free, Distinct-append, last-append, last-Fresh,
  Linked-append, apart,
}
use tiny_proxy.Threadpool.Ops.{
  Job, Threadpool, added, link_task, threadpool_add, is_null, takes, exits, waits, take_task,
  threadpool_handle,
}
use tiny_proxy.Threadpool.Machine.{runs, Machine}

abbrev pub jobs : List (Node Job) → List Job
jobs [] = []
jobs ((a, x) ∷ l) = x ∷ jobs l

-- The tasks of `l` hang on the header in their order, and the tail points to the last.
pub record IsPool (p : Threadpool) (l : List (Node Job)) : Type 0 where
  pub linked : Linked p.heap p.task_header l
  pub distinct : Distinct l
  pub tail : p.task_tail_p ≡ last l

-- The list is that of the jobs that were added and not taken. A task that a worker runs is allocated, is
-- not in the list, and is no other worker's.
pub record IsSafe (m : Machine) : Type 0 where
  pub queue : List (Node Job)
  pub is_pool : IsPool m.pool queue
  pub order : m.submitted ≡ m.begun ++ jobs queue
  pub running :
      (i a : ℕ)
      → m.workers i ≡ runs a
      → (task : Linkable Job) × (m.pool.heap a ≡ some task) × Fresh a queue
  pub single : (i j a : ℕ) → m.workers i ≡ runs a → m.workers j ≡ runs a → i ≡ j

pub jobs-append :
    (l : List (Node Job)) (a : ℕ) (x : Job) → jobs (l ++ ((a, x) ∷ [])) ≡ jobs l ++ (x ∷ [])
jobs-append [] a x = refl
jobs-append ((b, y) ∷ l) a x = ap (◌∷◌ y) (jobs-append l a x)

last_some : (e : Node Job) (l : List (Node Job)) → (t : ℕ) × (last (e ∷ l) ≡ to t)
last_some e [] = (e.0, refl)
last_some e (f ∷ l) = last_some f l

-- A task of a worker stays where it is.
abbrev Keeps : Threadpool → Threadpool → List (Node Job) → Type 0
Keeps p q l =
    (b : ℕ) (task : Linkable Job) → p.heap b ≡ some task → Fresh b l → q.heap b ≡ some task

set_next_lem :
    (h : Heap Job) (t : ℕ) (p : Pointer) {y : Job} {n : Pointer}
    → h t ≡ some (record { held = y; next = n })
    → set_next h t p ≡ some (write_at h t (some (record { held = y; next = p })))
unfolding set_next
set_next_lem h t p there = rw (there, set_next)

linked_lem :
    (p : Threadpool) (h h' : Heap Job) (a t : ℕ) (garbage : Pointer) (job : Job)
    → h ≡ write_at p.heap a (some (record { held = job; next = garbage }))
    → (is_null job.function || is_null job.args) ≡ false
    → p.task_tail_p ≡ to t
    → set_next h t (to a) ≡ some h'
    → threadpool_add p a garbage job ≡ added (record p { heap = h'; task_tail_p = to a })
unfolding threadpool_add
linked_lem p h h' a t garbage job same set tail e =
    rw (set, tail) (ap (λ x. link_task p a (set_next x t (to a))) (sym same) ∙ ap (link_task p a) e)

pub add-IsPool :
    (p : Threadpool) (l : List (Node Job)) (a : ℕ) (garbage : Pointer) (job : Job)
    → (is_null job.function || is_null job.args) ≡ false
    → IsPool p l
    → p.heap a ≡ none
    → (q : Threadpool) × (threadpool_add p a garbage job ≡ added q)
      × IsPool q (l ++ ((a, job) ∷ []))
      × Keeps p q l
unfolding threadpool_add
add-IsPool p [] a garbage job set is free = (
  record p {
    heap = write_at p.heap a (some (record { held = job; next = garbage }));
    task_tail_p = to a;
    task_header = to a;
  },
  rw (set, is.tail) refl,
  record { linked = (garbage, refl, rw ==_same refl, tt); distinct = (tt, tt); tail = refl },
  λ b task there fresh. rw (apart p.heap b a there free) there,
)
add-IsPool p (f ∷ l) a garbage job set is free =
    let (t, et) = last_some f l in
    let h1 : Heap Job = write_at p.heap a (some (record { held = job; next = garbage })) in
    let fresh : Fresh a (f ∷ l) = Fresh-free p.heap p.task_header (f ∷ l) a is.linked free in
    let kept : Linked h1 p.task_header (f ∷ l) =
      Linked-write_at p.heap p.task_header (f ∷ l) a _ fresh is.linked in
    let (y, n, ct, linked) =
      Linked-append h1 p.task_header (f ∷ l) a t job garbage kept is.distinct fresh et
        (rw ==_same refl) in
    (
      _,
      linked_lem p h1 _ a t garbage job refl set (is.tail ∙ et) (set_next_lem h1 t (to a) ct),
      record {
        linked = linked;
        distinct = Distinct-append (f ∷ l) a job fresh is.distinct;
        tail = sym (last-append (f ∷ l) (a, job));
      },
      λ b task there apart_b.
          rw (last-Fresh (f ∷ l) b t apart_b et, apart p.heap b a there free) there,
    )

-- What a worker that has the lock does, by the flag and the list of tasks.
abbrev pub Turns : Threadpool → Bool → List (Node Job) → Type 0
Turns p true l = threadpool_handle p ≡ exits
Turns p false [] = threadpool_handle p ≡ waits
Turns p false ((a, x) ∷ l) =
    (q : Threadpool) × (threadpool_handle p ≡ takes a q) × IsPool q l × (q.heap ≡ p.heap)

handle_lem :
    (p : Threadpool) (a t : ℕ)
    → p.isshuttingdown ≡ false
    → p.task_tail_p ≡ to t
    → p.task_header ≡ to a
    → threadpool_handle p ≡ take_task p a
unfolding threadpool_handle
handle_lem p a t open_ tail header = simp (tail, open_, header)

take_lem :
    (p : Threadpool) (a t : ℕ) {x : Job} {n : Pointer}
    → p.task_tail_p ≡ to t
    → p.heap a ≡ some (record { held = x; next = n })
    → take_task p a ≡ takes a (record p { task_header = n; task_tail_p = cut_tail a t })
unfolding take_task
take_lem p a t tail there = simp (there, tail, take_task)

pub handle-Turns :
    (p : Threadpool) (b : Bool) (l : List (Node Job))
    → p.isshuttingdown ≡ b
    → IsPool p l
    → Turns p b l
unfolding threadpool_handle
handle-Turns p true l e is = elim (Bool-cases (is_null p.task_tail_p)) [
  | inl k ↦ rw (k, e) refl
  | inr k ↦ rw (k, e) refl
]
handle-Turns p false [] e is = rw (is.tail, e) refl
handle-Turns p false ((a, x) ∷ l) e is =
    let (t, et) = last_some (a, x) l in
    let (n, header, there, more) = is.linked in
    (
      record p { task_header = n; task_tail_p = cut_tail a t },
      handle_lem p a t e (is.tail ∙ et) header ∙ take_lem p a t (is.tail ∙ et) there,
      record {
        linked = more;
        distinct = is.distinct.1;
        tail = cut_tail_lem a t x l is.distinct.0 et;
      },
      refl,
    )
