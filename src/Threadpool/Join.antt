-- ===== src/Threadpool/Join.antt =====
-- `threadpool_destroy` behind the flag: the workers that it joins, where none is asleep.
use tiny_proxy.Base.{
  ℕ, zero, suc, ◌+◌, ◌*◌, ◌<◌, ◌≤◌, ◌≡◌, ◌≢◌, refl, sym, ap, ◌∙◌, Bool, true, false, ◌||◌, Option,
  none, some, ◌==◌, ◌⊎◌, inl, inr, if◌then◌else◌, Bool-cases, ==_iff, arith,
}
use tiny_proxy.Base.Linked.{Pointer, null, to, Heap, write_at, set_next}
use tiny_proxy.Threadpool.Ops.{
  Job, Threadpool, Addition, added, aborted, fault, threadpool_add, link_task, is_null, exits,
  threadpool_handle,
}
use tiny_proxy.Threadpool.Machine.{
  Worker, idle, runs, exited, Machine, set_worker, Step, adds, begins, calls, leaves, shuts, Reach,
  next, start,
}
use tiny_proxy.Threadpool.Safe.{IsSafe}
use tiny_proxy.Threadpool.Reach.{Reach-IsSafe}
use tiny_proxy.Threadpool.Steps.{
  run_lem, run_task_allocated, exits_ne_takes, added_inj, aborted_ne_added,
}
use tiny_proxy.Threadpool.Weight.{weight, left, left_le, left_set}

-- The worker that takes the step, if one does.
abbrev pub step_worker : {m n : Machine} → Step m n → Option ℕ
step_worker (adds a garbage job p free e to_n) = none
step_worker (begins i a task p is_idle e there to_n) = some i
step_worker (calls i a job p run e to_n) = some i
step_worker (leaves i is_idle e to_n) = some i
step_worker (shuts to_n) = none

-- `k` steps of the workers below `size`, and any of other threads between them.
pub data Joining (size : ℕ) (m : Machine) : Machine → ℕ → Type 0 where
  no_steps : Joining size m m 0
  works :
      {n o : Machine} {k : ℕ}
      → Joining size m n k
      → (i : ℕ) → i < size
      → (s : Step n o) → step_worker s ≡ some i
      → Joining size m o (suc k)
  others :
      {n o : Machine} {k : ℕ}
      → Joining size m n k
      → (s : Step n o) → step_worker s ≡ none
      → Joining size m o k

pub none_ne_some : {i : ℕ} → none ≢ some i
none_ne_some e = cc

some_inj : {i j : ℕ} → some i ≡ some j → i ≡ j
some_inj e = cc

fault_ne_added : {p : Threadpool} → fault ≢ added p
fault_ne_added e = cc

-- A worker that has the lock exits.
pub shut_exits : (p : Threadpool) → p.isshuttingdown ≡ true → threadpool_handle p ≡ exits
unfolding threadpool_handle
shut_exits p shut = ground (arith, shut)

link_shut :
    (p q : Threadpool) (a : ℕ) (o : Option (Heap Job))
    → link_task p a o ≡ added q
    → q.isshuttingdown ≡ p.isshuttingdown
link_shut p q a none e = absurd (fault_ne_added e)
link_shut p q a (some h) e = ap (λ (x : Threadpool). x.isshuttingdown) (sym (added_inj e))

tail_shut :
    (p q : Threadpool) (h : Heap Job) (a : ℕ) (tail : Pointer)
    → elim tail [
      | null ↦ added (record p { heap = h; task_tail_p = to a; task_header = to a })
      | to t ↦ link_task p a (set_next h t (to a))
    ]
      ≡ added q
    → q.isshuttingdown ≡ p.isshuttingdown
tail_shut p q h a null e = ap (λ (x : Threadpool). x.isshuttingdown) (sym (added_inj e))
tail_shut p q h a (to t) e = link_shut p q a (set_next h t (to a)) e

not_aborted :
    (b : Bool) (x : Addition) (q : Threadpool) → (if b then aborted else x) ≡ added q → x ≡ added q
not_aborted true x q e = absurd (aborted_ne_added e)
not_aborted false x q e = e

add_shut :
    (p q : Threadpool) (a : ℕ) (garbage : Pointer) (job : Job)
    → threadpool_add p a garbage job ≡ added q
    → q.isshuttingdown ≡ p.isshuttingdown
unfolding threadpool_add
add_shut p q a garbage job e =
    tail_shut p q (write_at p.heap a (some (record { held = job; next = garbage }))) a p.task_tail_p
      (not_aborted (is_null job.function || is_null job.args) _ q e)

pub others_lem :
    {m n : Machine} (size : ℕ) (s : Step m n)
    → step_worker s ≡ none
    → m.pool.isshuttingdown ≡ true
    → (left size n.workers ≡ left size m.workers) × (n.pool.isshuttingdown ≡ true)
others_lem {m} {n} size (adds a garbage job p free e to_n) _ shut = (
  ap (λ (x : Machine). left size x.workers) to_n,
  ap (λ (x : Machine). x.pool.isshuttingdown) to_n ∙ add_shut m.pool p a garbage job e ∙ shut,
)
others_lem size (begins i a task p _ e there to_n) h shut = absurd (none_ne_some (sym h))
others_lem size (calls i a job p run e to_n) h shut = absurd (none_ne_some (sym h))
others_lem size (leaves i _ e to_n) h shut = absurd (none_ne_some (sym h))
others_lem size (shuts to_n) _ shut = (
  ap (λ (x : Machine). left size x.workers) to_n,
  ap (λ (x : Machine). x.pool.isshuttingdown) to_n,
)

pub works_lem :
    {m n : Machine} (size i : ℕ) (s : Step m n)
    → step_worker s ≡ some i
    → i < size
    → IsSafe m
    → m.pool.isshuttingdown ≡ true
    → (suc (left size n.workers) ≤ left size m.workers) × (n.pool.isshuttingdown ≡ true)
works_lem size i (adds a garbage job p free e to_n) h below safe shut = absurd (none_ne_some h)
works_lem {m} {n} size i (begins i' a task p _ e there to_n) h below safe shut =
    absurd (exits_ne_takes (sym (shut_exits m.pool shut) ∙ e))
works_lem {m} {n} size i (calls i' a job p run e to_n) h below safe shut =
    let same : i' ≡ i = some_inj h in
    let (task, there, _) = safe.running i' a run in
    let less = left_set m.workers i' idle size (omega (arith, same, below)) in
    let was : weight (m.workers i') ≡ 2 = ap weight run in
    let now : left size n.workers ≡ left size (set_worker m.workers i' idle) =
      ap (λ (x : Machine). left size x.workers) to_n in
    (
      omega (arith, less, was, now),
      ap (λ (x : Machine). x.pool.isshuttingdown) to_n
          ∙ ap (λ (x : Threadpool). x.isshuttingdown) (run_lem m.pool p a job there e)
          ∙ shut,
    )
works_lem {m} {n} size i (leaves i' is_idle e to_n) h below safe shut =
    let same : i' ≡ i = some_inj h in
    let less = left_set m.workers i' exited size (omega (arith, same, below)) in
    let was : weight (m.workers i') ≡ 1 = ap weight is_idle in
    let now : left size n.workers ≡ left size (set_worker m.workers i' exited) =
      ap (λ (x : Machine). left size x.workers) to_n in
    (omega (arith, less, was, now), ap (λ (x : Machine). x.pool.isshuttingdown) to_n ∙ shut)
works_lem size i (shuts to_n) h below safe shut = absurd (none_ne_some h)

-- A worker that has not exited can take a step.
can_step :
    (m : Machine) (i : ℕ) (w : Worker)
    → m.workers i ≡ w
    → IsSafe m
    → m.pool.isshuttingdown ≡ true
    → (w ≡ exited) ⊎ ((n : Machine) × (s : Step m n) × (step_worker s ≡ some i))
can_step m i idle e safe shut = inr (_, leaves i e (shut_exits m.pool shut) refl, refl)
can_step m i (runs a) e safe shut =
    let (task, there, _) = safe.running i a e in
    inr (_, calls i a task.held _ e (run_task_allocated m.pool a {task = task} there) refl, refl)
can_step m i exited e safe shut = inl refl

last_below : (i n : ℕ) → i < suc n → (i == n) ≡ false → i < n
last_below i n h e = ground arith

all_or_one :
    (m : Machine) (size : ℕ)
    → IsSafe m
    → m.pool.isshuttingdown ≡ true
    → ((i : ℕ) → i < size → m.workers i ≡ exited)
      ⊎ ((i : ℕ) × (i < size) × (n : Machine) × (s : Step m n) × (step_worker s ≡ some i))
all_or_one m zero safe shut = inl (λ i h. absurd (omega (arith, h)))
all_or_one m (suc size) safe shut = elim (can_step m size (m.workers size) refl safe shut) [
  | inr (n, s, e) ↦ inr (size, omega arith, n, s, e)
  | inl last ↦ elim (all_or_one m size safe shut) [
    | inr (i, below, n, s, e) ↦ inr (i, omega (arith, below), n, s, e)
    | inl all ↦ inl (λ i h. elim (Bool-cases (i == size)) [
      | inl e ↦ ap m.workers ((==_iff i size).0 e) ∙ last
      | inr e ↦ all i (last_below i size h e)
    ])
  ]
]

joining_lem :
    (h : Heap Job) (garbage : Pointer) (size : ℕ) (m n : Machine) (k : ℕ)
    → Reach (start h garbage size) m
    → m.pool.isshuttingdown ≡ true
    → Joining size m n k
    → Reach (start h garbage size) n
      × (n.pool.isshuttingdown ≡ true)
      × (k + left size n.workers ≤ left size m.workers)
joining_lem h garbage size m n k r shut no_steps = (r, shut, omega arith)
joining_lem h garbage size m n k r shut (works {n = before} {k = k'} j i below s e) =
    let (r', shut', less) = joining_lem h garbage size m before k' r shut j in
    let (one, shut'') = works_lem size i s e below (Reach-IsSafe h garbage size before r') shut' in
    (next r' s, shut'', omega (arith, less, one))
joining_lem h garbage size m n k r shut (others {n = before} j s e) =
    let (r', shut', less) = joining_lem h garbage size m before k r shut j in
    let (same, shut'') = others_lem size s e shut' in (next r' s, shut'', omega (arith, less, same))

-- From every state that is reached from a new pool of `size` workers and in which the pool shuts down,
-- whatever other threads do between the steps: the workers take at most `2 * size` steps, and
-- behind any number of them either all workers have exited or one of them can take another.
pub joins_lem :
    (h : Heap Job) (garbage : Pointer) (size : ℕ) (m n : Machine) (k : ℕ)
    → Reach (start h garbage size) m
    → m.pool.isshuttingdown ≡ true
    → Joining size m n k
    → (k ≤ 2 * size)
      × (((i : ℕ) → i < size → n.workers i ≡ exited)
          ⊎ ((i : ℕ) × (i < size) × (o : Machine) × (s : Step n o) × (step_worker s ≡ some i)))
joins_lem h garbage size m n k r shut j =
    let (r', shut', less) = joining_lem h garbage size m n k r shut j in
    (
      omega (arith, less, left_le size m.workers),
      all_or_one n size (Reach-IsSafe h garbage size n r') shut',
    )
