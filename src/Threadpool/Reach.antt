-- ===== src/Threadpool/Reach.antt =====
-- The pool in the states that its threads can reach.
use tiny_proxy.Base.{ℕ, ◌≡◌, refl, some, List, ◌++◌}
use tiny_proxy.Base.Linked.{Pointer, Heap, Node}
use tiny_proxy.Threadpool.Ops.{Job, Threadpool, run_task}
use tiny_proxy.Threadpool.Machine.{runs, Machine, Reach, here, next, start}
use tiny_proxy.Threadpool.Safe.{IsPool, IsSafe, jobs, Turns, handle-Turns}
use tiny_proxy.Threadpool.Steps.{Step-IsSafe, start-IsSafe, freed-IsPool, run_task_allocated}

-- Whatever the threads do and in whichever order: in every state that is reached from a new pool, the
-- list of tasks holds the jobs that were added and not yet taken, in the order in which they were
-- added, and they were taken in that order too; a task that a worker runs is allocated, is not in
-- the list and is no other worker's, so that it is freed once.
pub Reach-IsSafe :
    (h : Heap Job) (garbage : Pointer) (size : ℕ) (m : Machine)
    → Reach (start h garbage size) m
    → IsSafe m
Reach-IsSafe h garbage size m here = start-IsSafe h garbage size
Reach-IsSafe h garbage size m (next {n} r step) =
    Step-IsSafe n m step (Reach-IsSafe h garbage size n r)

-- In every state that is reached from a new pool, a worker that has the lock exits if the pool is
-- shutting down, waits if no job is left that was added and not taken, and otherwise takes the task
-- of the first: it fails no assertion and uses no memory that is not allocated.
pub threadpool_handle-Turns :
    (h : Heap Job) (garbage : Pointer) (size : ℕ) (m : Machine)
    → Reach (start h garbage size) m
    → (l : List (Node Job)) × (m.submitted ≡ m.begun ++ jobs l)
      × Turns m.pool m.pool.isshuttingdown l
threadpool_handle-Turns h garbage size m r =
    let s = Reach-IsSafe h garbage size m r in
    (s.queue, s.order, handle-Turns m.pool m.pool.isshuttingdown s.queue refl s.is_pool)

-- In every state that is reached from a new pool, a worker that runs a task finds it allocated, and
-- leaves the list of tasks as it is when it frees it.
pub run_task-IsPool :
    (h : Heap Job) (garbage : Pointer) (size : ℕ) (m : Machine) (i a : ℕ)
    → Reach (start h garbage size) m
    → m.workers i ≡ runs a
    → (job : Job) × (p : Threadpool) × (l : List (Node Job)) × (run_task m.pool a ≡ some (job, p))
      × IsPool m.pool l
      × IsPool p l
run_task-IsPool h garbage size m i a r run =
    let s = Reach-IsSafe h garbage size m r in
    let (task, there, fresh) = s.running i a run in
    let e = run_task_allocated m.pool a {task = task} there in
    (task.held, _, s.queue, e, s.is_pool, freed-IsPool m.pool s.queue a fresh s.is_pool)
