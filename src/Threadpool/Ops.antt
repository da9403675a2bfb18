-- ===== src/Threadpool/Ops.antt =====
-- The pool and what a thread does with it while it holds the lock, with the calls of `malloc` and
-- `free` beside it.
use tiny_proxy.Base.{ℕ, Bool, true, false, not, ◌&&◌, ◌||◌, Option, none, some, if◌then◌else◌}
use tiny_proxy.Base.Linked.{Pointer, null, to, Linkable, Heap, write_at, set_next, cut_tail}

pub record Job : Type 0 where
  pub function : Pointer
  pub args : Pointer

-- A task is a job and `next`.
abbrev pub ThreadpoolTask : Type 0
ThreadpoolTask = Linkable Job

-- Of `task_header` only `next` is used: it is that pointer. The threads stand in the machine.
pub record Threadpool : Type 0 where
  pub heap : Heap Job
  pub task_header : Pointer
  pub task_tail_p : Pointer
  pub threadpool_size : ℕ
  pub isshuttingdown : Bool

-- The fields that `threadpool_create` sets. `task_header` is not set: it holds `garbage`.
abbrev pub new_pool : Heap Job → Pointer → ℕ → Threadpool
new_pool h garbage size = record {
  heap = h;
  task_header = garbage;
  task_tail_p = null;
  threadpool_size = size;
  isshuttingdown = false;
}

abbrev pub is_null : Pointer → Bool
is_null null = true
is_null (to _) = false

-- `aborted` is a failed assertion, `fault` an access to memory that is not allocated.
pub data Addition : Type 0 where
  added : Threadpool → Addition
  aborted : Addition
  fault : Addition

abbrev pub link_task : Threadpool → ℕ → Option (Heap Job) → Addition
link_task p a none = fault
link_task p a (some h) = added (record p { heap = h; task_tail_p = to a })

-- `malloc` gives the address `a`. The new task's `next` is not set: it holds `garbage`.
unfoldable pub threadpool_add : Threadpool → ℕ → Pointer → Job → Addition
unfolding set_next
threadpool_add p a garbage job =
    let h = write_at p.heap a (some (record { held = job; next = garbage })) in
    if is_null job.function || is_null job.args then aborted else elim p.task_tail_p [
      | null ↦ added (record p { heap = h; task_tail_p = to a; task_header = to a })
      | to t ↦ link_task p a (set_next h t (to a))
    ]

-- `refused` is the result NULL.
pub data Creation : Type 0 where
  created : Threadpool → Creation
  refused : Creation
  fault : Creation

-- `malloc`, `calloc`, `mutex_init` and `cond_init` say whether these calls succeed. Where one fails
-- `threadpool_destroy` is called: it returns for no pool, and uses a mutex or a condition variable
-- that is not initialised for another.
abbrev pub threadpool_create :
    (malloc calloc mutex_init cond_init : Bool) → Heap Job → Pointer → ℕ → Creation
threadpool_create malloc calloc mutex_init cond_init h garbage size =
    if not malloc
    then refused
    else if calloc && mutex_init && cond_init
    then created (new_pool h garbage size)
    else fault

-- What a worker that has the lock does: it waits on the condition variable, exits, or takes the task
-- at an address.
pub data Turn : Type 0 where
  waits : Turn
  exits : Turn
  takes : ℕ → Threadpool → Turn
  aborted : Turn
  fault : Turn

unfoldable pub take_task : Threadpool → ℕ → Turn
take_task p a = elim (p.heap a) [
  | none ↦ fault
  | some task ↦ takes a (record p {
    task_header = task.next;
    task_tail_p = elim p.task_tail_p [ null ↦ null | to t ↦ cut_tail a t ];
  })
]

-- `threadpool_handle` under the lock.
unfoldable pub threadpool_handle : Threadpool → Turn
unfolding take_task
threadpool_handle p =
    if is_null p.task_tail_p && not p.isshuttingdown
    then waits
    else if p.isshuttingdown
    then exits
    else elim p.task_header [ null ↦ aborted | to a ↦ take_task p a ]

-- What follows: the job of the task is read, to be called, and the task is freed. `none` where the
-- task is not allocated.
unfoldable pub run_task : Threadpool → ℕ → Option (Job × Threadpool)
run_task p a = elim (p.heap a) [
  | none ↦ none
  | some task ↦ some (task.held, record p { heap = write_at p.heap a none })
]

-- What `threadpool_destroy` does under the lock.
abbrev pub shut_down : Threadpool → Threadpool
shut_down p = record p { isshuttingdown = true }
