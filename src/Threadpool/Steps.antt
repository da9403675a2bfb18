-- ===== src/Threadpool/Steps.antt =====
-- The steps of the pool and its workers keep `IsSafe`.
use tiny_proxy.Base.{
  ℕ, ◌≡◌, refl, sym, ap, ◌∙◌, subst, Bool, true, false, ◌||◌, Option, none, some, List, [], ◌∷◌,
  ◌++◌, ◌==◌, ◌≢◌, if◌then◌else◌, Bool-cases, inl, inr, ==_iff, ==_same, append_assoc,
}
use tiny_proxy.Base.Linked.{
  Pointer, Linkable, Heap, write_at, Node, Fresh, Linked-write_at, apart, Fresh-append,
}
use tiny_proxy.Threadpool.Ops.{
  Job, Threadpool, added, aborted, threadpool_add, is_null, takes, exits, waits, threadpool_handle,
  run_task, shut_down,
}
use tiny_proxy.Threadpool.Machine.{
  Worker, idle, runs, exited, Machine, set_worker, Step, adds, begins, calls, leaves, shuts, start,
}
use tiny_proxy.Threadpool.Safe.{IsPool, IsSafe, jobs, jobs-append, add-IsPool, Turns, handle-Turns}

runs_inj : {a b : ℕ} → runs a ≡ runs b → a ≡ b
runs_inj e = cc

idle_ne_runs : {a : ℕ} → idle ≢ runs a
idle_ne_runs e = cc

exited_ne_runs : {a : ℕ} → exited ≢ runs a
exited_ne_runs e = cc

pub exits_ne_takes : {a : ℕ} {p : Threadpool} → exits ≢ takes a p
exits_ne_takes e = cc

waits_ne_takes : {a : ℕ} {p : Threadpool} → waits ≢ takes a p
waits_ne_takes e = cc

takes_inj : {a b : ℕ} {p q : Threadpool} → takes a p ≡ takes b q → (a ≡ b) × (p ≡ q)
takes_inj e = (cc, cc)

pub added_inj : {p q : Threadpool} → added p ≡ added q → p ≡ q
added_inj e = cc

pub aborted_ne_added : {p : Threadpool} → aborted ≢ added p
aborted_ne_added e = cc

held_inj : {c d : Linkable Job} → some c ≡ some d → c ≡ d
held_inj e = cc

true_ne_false : true ≢ false
true_ne_false e = cc

-- A worker that runs after another's state was set to one in which it does not run.
still_runs :
    (ws : ℕ → Worker) (i j a : ℕ) (w : Worker)
    → ((b : ℕ) → w ≢ runs b)
    → set_worker ws i w j ≡ runs a
    → (ws j ≡ runs a) × ((j == i) ≡ false)
still_runs ws i j a w not_running e = elim (Bool-cases (j == i)) [
  | inl k ↦ absurd (not_running a (sym (ap (λ b. if b then w else ws j) k) ∙ e))
  | inr k ↦ (sym (ap (λ b. if b then w else ws j) k) ∙ e, k)
]

refused :
    (p : Threadpool) (a : ℕ) (garbage : Pointer) (job : Job)
    → (is_null job.function || is_null job.args) ≡ true
    → threadpool_add p a garbage job ≡ aborted
unfolding threadpool_add
refused p a garbage job k = rw k refl

adds-IsSafe :
    (m : Machine) (a : ℕ) (garbage : Pointer) (job : Job) (p : Threadpool)
    → IsSafe m
    → m.pool.heap a ≡ none
    → threadpool_add m.pool a garbage job ≡ added p
    → IsSafe (record m { pool = p; submitted = m.submitted ++ (job ∷ []) })
adds-IsSafe m a garbage job p s free e =
    elim (Bool-cases (is_null job.function || is_null job.args)) [
      | inl k ↦ absurd (aborted_ne_added (sym (refused m.pool a garbage job k) ∙ e))
      | inr k ↦
          let (q, e', is, keeps) = add-IsPool m.pool s.queue a garbage job k s.is_pool free in
          let same : q ≡ p = added_inj (sym e' ∙ e) in
          record {
            queue = s.queue ++ ((a, job) ∷ []);
            is_pool = subst (λ x. IsPool x (s.queue ++ ((a, job) ∷ []))) same is;
            order =
                ap (λ x. x ++ (job ∷ [])) s.order
                ∙ append_assoc m.begun (jobs s.queue) (job ∷ [])
                ∙ sym (ap (m.begun ++◌) (jobs-append s.queue a job));
            running = λ i b run.
                let (task, there, fresh) = s.running i b run in
                (
                  task,
                  subst (λ (x : Threadpool). x.heap b ≡ some task) same (keeps b task there fresh),
                  Fresh-append s.queue b a job fresh (apart m.pool.heap b a there free),
                );
            single = s.single;
          }
    ]

-- What `takes` tells of the queue.
begins_lem :
    (p q : Threadpool) (a : ℕ) (b : Bool) (l : List (Node Job))
    → Turns p b l
    → threadpool_handle p ≡ takes a q
    → (x : Job) × (l' : List (Node Job)) × (l ≡ (a, x) ∷ l') × IsPool q l' × (q.heap ≡ p.heap)
begins_lem p q a true l t e = absurd (exits_ne_takes (sym t ∙ e))
begins_lem p q a false [] t e = absurd (waits_ne_takes (sym t ∙ e))
begins_lem p q a false ((c, x) ∷ l) (r, t, is, same) e =
    let (ec, er) = takes_inj (sym t ∙ e) in
    (
      x,
      l,
      ap (λ y. (y, x) ∷ l) ec,
      subst (λ y. IsPool y l) er is,
      ap (λ (y : Threadpool). y.heap) (sym er) ∙ same,
    )

begins-IsSafe :
    (m : Machine) (l : List (Node Job)) (i a : ℕ) (x : Job) (task : Linkable Job) (p : Threadpool)
    → IsPool m.pool ((a, x) ∷ l)
    → m.submitted ≡ m.begun ++ (x ∷ jobs l)
    → ((j b : ℕ)
        → m.workers j ≡ runs b
        → (t : Linkable Job) × (m.pool.heap b ≡ some t) × Fresh b ((a, x) ∷ l))
    → ((j k b : ℕ) → m.workers j ≡ runs b → m.workers k ≡ runs b → j ≡ k)
    → m.pool.heap a ≡ some task
    → IsPool p l
    → p.heap ≡ m.pool.heap
    → IsSafe (record m {
      pool = p;
      workers = set_worker m.workers i (runs a);
      begun = m.begun ++ (task.held ∷ []);
    })
begins-IsSafe m l i a x task p is order running single there is' same =
    let (n, _, c, _) = is.linked in
    let job : task.held ≡ x = ap (λ (y : Linkable Job). y.held) (held_inj (sym there ∙ c)) in
    let new : (j b : ℕ) → (j == i) ≡ true → set_worker m.workers i (runs a) j ≡ runs b → a ≡ b =
      λ j b k run. runs_inj (sym (ap (λ y. if y then runs a else m.workers j) k) ∙ run) in
    let old : (j b : ℕ)
        → (j == i) ≡ false
        → set_worker m.workers i (runs a) j ≡ runs b
        → m.workers j ≡ runs b =
      λ j b k run. sym (ap (λ y. if y then runs a else m.workers j) k) ∙ run in
    let not_a : (j b : ℕ) → m.workers j ≡ runs b → a ≢ b = λ j b run e.
      true_ne_false (sym (==_same b) ∙ sym (ap (λ y. y == b) e) ∙ (running j b run).2.0) in
    record {
      queue = l;
      is_pool = is';
      order =
          order
          ∙ sym (append_assoc m.begun (x ∷ []) (jobs l))
          ∙ ap (λ y. (m.begun ++ (y ∷ [])) ++ jobs l) (sym job);
      running = λ j b run. elim (Bool-cases (j == i)) [
        | inl k ↦
            let e : a ≡ b = new j b k run in
            (
              task,
              ap (λ h. h b) same ∙ ap m.pool.heap (sym e) ∙ there,
              subst (λ y. Fresh y l) e is.distinct.0,
            )
        | inr k ↦
            let (t, at, fresh) = running j b (old j b k run) in
            (t, ap (λ h. h b) same ∙ at, fresh.1)
      ];
      single = λ j k b run run'. elim (Bool-cases (j == i)) [
        | inl e ↦ elim (Bool-cases (k == i)) [
          | inl e' ↦ (==_iff j i).0 e ∙ sym ((==_iff k i).0 e')
          | inr e' ↦ absurd (not_a k b (old k b e' run') (new j b e run))
        ]
        | inr e ↦ elim (Bool-cases (k == i)) [
          | inl e' ↦ absurd (not_a j b (old j b e run) (new k b e' run'))
          | inr e' ↦ single j k b (old j b e run) (old k b e' run')
        ]
      ];
    }

pub run_task_allocated :
    (p : Threadpool) (a : ℕ) {task : Linkable Job}
    → p.heap a ≡ some task
    → run_task p a ≡ some (task.held, record p { heap = write_at p.heap a none })
unfolding run_task
run_task_allocated p a there = simp (there, run_task)

-- The task of another worker is left alone.
other_task :
    (m : Machine) (i j a b : ℕ) {t : Linkable Job}
    → IsSafe m
    → m.workers i ≡ runs a
    → m.workers j ≡ runs b
    → (j == i) ≡ false
    → m.pool.heap b ≡ some t
    → write_at m.pool.heap a none b ≡ some t
other_task m i j a b s run_i run_j differ at = elim (Bool-cases (b == a)) [
  | inl e ↦
      let both : j ≡ i = s.single j i b run_j (run_i ∙ ap runs (sym ((==_iff b a).0 e))) in
      absurd (true_ne_false (sym (==_same i) ∙ sym (ap (λ y. y == i) both) ∙ differ))
  | inr e ↦ rw e at
]

-- The pool behind `run_task`.
pub run_lem :
    (p q : Threadpool) (a : ℕ) (job : Job) {task : Linkable Job}
    → p.heap a ≡ some task
    → run_task p a ≡ some (job, q)
    → q ≡ record p { heap = write_at p.heap a none }
unfolding run_task
run_lem p q a job {task} there e =
    ap (λ (o : Option (Job × Threadpool)). elim o [ none ↦ q | some r ↦ r.1 ])
      (sym e ∙ run_task_allocated p a {task = task} there)

pub freed-IsPool :
    (p : Threadpool) (l : List (Node Job)) (a : ℕ)
    → Fresh a l
    → IsPool p l
    → IsPool (record p { heap = write_at p.heap a none }) l
freed-IsPool p l a fresh is = record {
  linked = Linked-write_at p.heap p.task_header l a none fresh is.linked;
  distinct = is.distinct;
  tail = is.tail;
}

calls-IsSafe :
    (m : Machine) (i a : ℕ) (job : Job) (p : Threadpool)
    → IsSafe m
    → m.workers i ≡ runs a
    → run_task m.pool a ≡ some (job, p)
    → IsSafe (record m {
      pool = p;
      workers = set_worker m.workers i idle;
      called = m.called ++ (job ∷ []);
    })
calls-IsSafe m i a job p s run e =
    let (task, there, fresh) = s.running i a run in
    let same : p ≡ record m.pool { heap = write_at m.pool.heap a none } =
      run_lem m.pool p a job there e in
    record {
      queue = s.queue;
      is_pool =
          subst (λ x. IsPool x s.queue) (sym same) (freed-IsPool m.pool s.queue a fresh s.is_pool);
      order = s.order;
      running = λ j b run'.
          let (run_j, differ) = still_runs m.workers i j b idle (λ c. idle_ne_runs) run' in
          let (t, at, fresh_b) = s.running j b run_j in
          (
            t,
            ap (λ (x : Threadpool). x.heap b) same ∙ other_task m i j a b s run run_j differ at,
            fresh_b,
          );
      single = λ j k b run_j run_k.
          s.single j k b (still_runs m.workers i j b idle (λ c. idle_ne_runs) run_j).0
            (still_runs m.workers i k b idle (λ c. idle_ne_runs) run_k).0;
    }

leaves-IsSafe :
    (m : Machine) (i : ℕ) → IsSafe m → IsSafe (record m { workers = set_worker m.workers i exited })
leaves-IsSafe m i s = record {
  queue = s.queue;
  is_pool = s.is_pool;
  order = s.order;
  running =
      λ j b run. s.running j b (still_runs m.workers i j b exited (λ c. exited_ne_runs) run).0;
  single = λ j k b run_j run_k.
      s.single j k b (still_runs m.workers i j b exited (λ c. exited_ne_runs) run_j).0
        (still_runs m.workers i k b exited (λ c. exited_ne_runs) run_k).0;
}

shuts-IsSafe : (m : Machine) → IsSafe m → IsSafe (record m { pool = shut_down m.pool })
shuts-IsSafe m s = record {
  queue = s.queue;
  is_pool = record {
    linked = s.is_pool.linked;
    distinct = s.is_pool.distinct;
    tail = s.is_pool.tail;
  };
  order = s.order;
  running = s.running;
  single = s.single;
}

takes-IsSafe :
    (m : Machine) (i a : ℕ) (task : Linkable Job) (p : Threadpool)
    → IsSafe m
    → threadpool_handle m.pool ≡ takes a p
    → m.pool.heap a ≡ some task
    → IsSafe (record m {
      pool = p;
      workers = set_worker m.workers i (runs a);
      begun = m.begun ++ (task.held ∷ []);
    })
takes-IsSafe m i a task p s e there =
    let turn = handle-Turns m.pool m.pool.isshuttingdown s.queue refl s.is_pool in
    let (x, l, el, is, same) = begins_lem m.pool p a m.pool.isshuttingdown s.queue turn e in
    begins-IsSafe m l i a x task p (subst (λ q. IsPool m.pool q) el s.is_pool)
      (s.order ∙ ap (λ q. m.begun ++ jobs q) el)
      (λ j b run.
        let (t, at, fresh) = s.running j b run in (t, at, subst (λ q. Fresh b q) el fresh))
      s.single there is same

pub Step-IsSafe : (m n : Machine) → Step m n → IsSafe m → IsSafe n
Step-IsSafe m n (adds a garbage job p free e to_n) s =
    subst IsSafe (sym to_n) (adds-IsSafe m a garbage job p s free e)
Step-IsSafe m n (begins i a task p _ e there to_n) s =
    subst IsSafe (sym to_n) (takes-IsSafe m i a task p s e there)
Step-IsSafe m n (calls i a job p run e to_n) s =
    subst IsSafe (sym to_n) (calls-IsSafe m i a job p s run e)
Step-IsSafe m n (leaves i _ _ to_n) s = subst IsSafe (sym to_n) (leaves-IsSafe m i s)
Step-IsSafe m n (shuts to_n) s = subst IsSafe (sym to_n) (shuts-IsSafe m s)

pub start-IsSafe : (h : Heap Job) (garbage : Pointer) (size : ℕ) → IsSafe (start h garbage size)
start-IsSafe h garbage size = record {
  queue = [];
  is_pool = record { linked = tt; distinct = tt; tail = refl };
  order = refl;
  running = λ i a e. absurd (idle_ne_runs e);
  single = λ i j a e. absurd (idle_ne_runs e);
}
