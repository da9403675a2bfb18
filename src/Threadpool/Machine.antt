-- ===== src/Threadpool/Machine.antt =====
-- The pool with its workers: what the threads of the program do to it, one access under the lock at a
-- time, in any order.
use tiny_proxy.Base.{ℕ, ◌≡◌, none, some, List, [], ◌∷◌, ◌++◌, ◌==◌, if◌then◌else◌}
use tiny_proxy.Base.Linked.{Pointer, Linkable, Heap}
use tiny_proxy.Threadpool.Ops.{
  Job, Threadpool, new_pool, added, threadpool_add, takes, exits, threadpool_handle, run_task,
  shut_down,
}

-- A worker stands before the lock or waits, has taken the task at an address and has no lock, or has
-- called `pthread_exit`.
pub data Worker : Type 0 where
  idle : Worker
  runs : ℕ → Worker
  exited : Worker

-- `submitted`, `begun` and `called` are the jobs that were added, taken and called so far, each in its
-- order.
pub record Machine : Type 0 where
  pub pool : Threadpool
  pub workers : ℕ → Worker
  pub submitted : List Job
  pub begun : List Job
  pub called : List Job

abbrev pub set_worker : (ℕ → Worker) → ℕ → Worker → ℕ → Worker
set_worker ws i w j = if j == i then w else ws j

-- One step. `malloc` gives an address that is not allocated. A worker that waits may look again at
-- any time, which is more than the signals allow: Wake has those.
pub data Step (m : Machine) (n : Machine) : Type 0 where
  adds :
      (a : ℕ) (garbage : Pointer) (job : Job) (p : Threadpool)
      → m.pool.heap a ≡ none
      → threadpool_add m.pool a garbage job ≡ added p
      → n ≡ record m { pool = p; submitted = m.submitted ++ (job ∷ []) }
      → Step m n
  begins :
      (i a : ℕ) (task : Linkable Job) (p : Threadpool)
      → m.workers i ≡ idle
      → threadpool_handle m.pool ≡ takes a p
      → m.pool.heap a ≡ some task
      → n ≡ record m {
        pool = p;
        workers = set_worker m.workers i (runs a);
        begun = m.begun ++ (task.held ∷ []);
      }
      → Step m n
  calls :
      (i a : ℕ) (job : Job) (p : Threadpool)
      → m.workers i ≡ runs a
      → run_task m.pool a ≡ some (job, p)
      → n ≡ record m {
        pool = p;
        workers = set_worker m.workers i idle;
        called = m.called ++ (job ∷ []);
      }
      → Step m n
  leaves :
      (i : ℕ)
      → m.workers i ≡ idle
      → threadpool_handle m.pool ≡ exits
      → n ≡ record m { workers = set_worker m.workers i exited }
      → Step m n
  shuts : n ≡ record m { pool = shut_down m.pool } → Step m n

pub data Reach (m : Machine) : Machine → Type 0 where
  here : Reach m m
  next : {n o : Machine} → Reach m n → Step n o → Reach m o

-- The pool as it was created.
abbrev pub start : Heap Job → Pointer → ℕ → Machine
start h garbage size = record {
  pool = new_pool h garbage size;
  workers = λ i. idle;
  submitted = [];
  begun = [];
  called = [];
}
