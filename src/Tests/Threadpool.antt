-- ===== src/Tests/Threadpool.antt =====
-- Examples of the thread pool.
use tiny_proxy.Base.{
  ◌≡◌, true, refl, none, some, List, [], ◌∷◌, false, ◌*◌, ◌<◌, ◌≤◌, ◌⊎◌, arith, Bool, ℕ,
}
use tiny_proxy.Base.Linked.{null, to, Heap, Node, write_at}
use tiny_proxy.Threadpool.Ops.{
  Job, Threadpool, new_pool, threadpool_create, fault, threadpool_add, aborted, threadpool_handle,
  take_task, waits, run_task,
}
use tiny_proxy.Threadpool.Machine.{
  Machine, idle, runs, set_worker, adds, begins, Reach, here, next, start, exited, calls, leaves,
}
use tiny_proxy.Threadpool.Wake.Joins.{threadpool_destroy-joins}
use tiny_proxy.Threadpool.Wake.{
  Destroyer, before_flag, Wakeful, set_asleep, raise_flag, broadcast, WakeStep, acts, sleeps, flags,
  broadcasts, WakeReach, at_start, after, wake_start, waking_worker, WakeJoining, no_wakes,
  worker_step,
}
use tiny_proxy.Threadpool.Safe.{IsPool, IsSafe, jobs, Turns}
use tiny_proxy.Threadpool.Reach.{Reach-IsSafe, threadpool_handle-Turns, run_task-IsPool}

abbrev first : Job
first = record { function = to 1; args = to 2 }

abbrev second : Job
second = record { function = to 1; args = to 3 }

abbrev free : Heap Job
free a = none

abbrev one_task : Heap Job
one_task = write_at free 8 (some (record { held = first; next = to 77 }))

abbrev one_added : Machine
one_added = record (start free (to 66) 4) {
  pool = record (new_pool free (to 66) 4) {
    heap = one_task;
    task_header = to 8;
    task_tail_p = to 8;
  };
  submitted = first ∷ [];
}

abbrev two_tasks : Heap Job
two_tasks =
    write_at (write_at one_task 9 (some (record { held = second; next = to 78 }))) 8
      (some (record { held = first; next = to 9 }))

abbrev two_added : Machine
two_added = record one_added {
  pool = record one_added.pool { heap = two_tasks; task_tail_p = to 9 };
  submitted = first ∷ second ∷ [];
}

-- The worker 3 has taken the first.
abbrev one_begun : Machine
one_begun = record two_added {
  pool = record two_added.pool { task_header = to 9 };
  workers = set_worker (λ i. idle) 3 (runs 8);
  begun = first ∷ [];
}

begun-Reach : Reach (start free (to 66) 4) one_begun
unfolding threadpool_add threadpool_handle take_task
begun-Reach =
    next
      (next (next here (adds 8 (to 77) first one_added.pool refl refl refl))
        (adds 9 (to 78) second two_added.pool refl refl refl))
      (begins 3 8 (record { held = first; next = to 9 }) one_begun.pool refl refl refl refl)

Reach-IsSafe_example : IsSafe one_begun
Reach-IsSafe_example = Reach-IsSafe free (to 66) 4 one_begun begun-Reach

threadpool_handle-Turns_example :
    (l : List (Node Job)) × (first ∷ second ∷ [] ≡ first ∷ jobs l) × Turns one_begun.pool false l
threadpool_handle-Turns_example = threadpool_handle-Turns free (to 66) 4 one_begun begun-Reach

run_task-IsPool_example :
    (job : Job) × (p : Threadpool) × (l : List (Node Job)) × (run_task one_begun.pool 8
      ≡ some (job, p))
    × IsPool one_begun.pool l
    × IsPool p l
run_task-IsPool_example = run_task-IsPool free (to 66) 4 one_begun 3 8 begun-Reach refl

-- The worker 2 falls asleep, the worker 3 takes a task, and the pool is destroyed: both are awake
-- behind the broadcast, and 3 ends its task and exits.
abbrev waking : Machine → (ℕ → Bool) → Destroyer → Wakeful
waking m asleep d = record { machine = m; asleep = asleep; destroyer = d }

abbrev two_sleeps : ℕ → Bool
two_sleeps = set_asleep (λ i. false) 2 true

abbrev destroying : Wakeful
destroying = broadcast (raise_flag (waking one_begun two_sleeps before_flag))

destroying-WakeReach : WakeReach (wake_start free (to 66) 4) destroying
unfolding threadpool_add threadpool_handle take_task
destroying-WakeReach =
    let asleep_one =
      after {o = waking (start free (to 66) 4) two_sleeps before_flag} at_start
        (sleeps 2 refl refl refl refl) in
    let first_one =
      after {o = waking one_added two_sleeps before_flag} asleep_one
        (acts one_added (adds 8 (to 77) first one_added.pool refl refl refl) tt refl) in
    let second_one =
      after {o = waking two_added two_sleeps before_flag} first_one
        (acts two_added (adds 9 (to 78) second two_added.pool refl refl refl) tt refl) in
    let begun = after {o = waking one_begun two_sleeps before_flag} second_one (
      acts one_begun
        (begins 3 8 (record { held = first; next = to 9 }) one_begun.pool refl refl refl refl) refl
        refl) in
    after (after begun (flags refl refl)) (broadcasts refl refl)

abbrev one_called : Machine
one_called = record destroying.machine {
  pool = record destroying.machine.pool { heap = write_at one_begun.pool.heap 8 none };
  workers = set_worker one_begun.workers 3 idle;
  called = first ∷ [];
}

abbrev one_left : Machine
one_left = record one_called { workers = set_worker one_called.workers 3 exited }

abbrev left_one : Wakeful
left_one = record destroying { machine = one_left }

left-WakeJoining : WakeJoining 4 destroying left_one 2
unfolding threadpool_handle run_task
left-WakeJoining =
    worker_step
      (worker_step {o = record destroying { machine = one_called }} no_wakes 3 (omega arith)
        (acts one_called (calls 3 8 first one_called.pool refl refl refl) refl refl) refl)
      3 (omega arith) (acts one_left (leaves 3 refl refl refl) refl refl) refl

threadpool_destroy-joins_example :
    (2 ≤ 2 * 4)
    × ((i : ℕ) → left_one.asleep i ≡ false)
    × (((i : ℕ) → i < 4 → one_left.workers i ≡ exited)
        ⊎ ((i : ℕ) × (i < 4)
            × (o : Wakeful) × (s : WakeStep left_one o) × (waking_worker s ≡ some i)))
threadpool_destroy-joins_example =
    threadpool_destroy-joins free (to 66) 4 destroying left_one 2 destroying-WakeReach refl
      left-WakeJoining

-- A job without arguments fails the assertion.
no_args : threadpool_add one_added.pool 9 null (record { function = to 1; args = null }) ≡ aborted
unfolding threadpool_add
no_args = refl

no_threads : threadpool_create true false true true free (to 66) 4 ≡ fault
no_threads = refl

nothing_to_do : threadpool_handle (new_pool free (to 66) 4) ≡ waits
unfolding threadpool_handle
nothing_to_do = refl
