-- ===== src/Threadpool/Wake.antt =====
-- The condition variable of the pool: the workers that are asleep on it, the signals, and
-- `threadpool_destroy` up to its joins.
pub mod Joins
use tiny_proxy.Base.{ℕ, suc, ◌<◌, ◌≡◌, Bool, true, false, Option, none, some, ◌==◌, if◌then◌else◌}
use tiny_proxy.Base.Linked.{Pointer, Heap}
use tiny_proxy.Threadpool.Ops.{Job, waits, threadpool_handle, shut_down}
use tiny_proxy.Threadpool.Machine.{idle, Machine, Step, adds, begins, calls, leaves, shuts, start}
use tiny_proxy.Threadpool.Join.{step_worker}

-- Where a call of `threadpool_destroy` stands: before its lock, between its unlock and the broadcast,
-- or at its joins.
pub data Destroyer : Type 0 where
  before_flag flagged joins : Destroyer

pub record Wakeful : Type 0 where
  pub machine : Machine
  pub asleep : ℕ → Bool
  pub destroyer : Destroyer

abbrev pub set_asleep : (ℕ → Bool) → ℕ → Bool → ℕ → Bool
set_asleep asleep i b j = if j == i then b else asleep j

-- `threadpool_destroy` under the lock.
abbrev pub raise_flag : Wakeful → Wakeful
raise_flag m = record m {
  machine = record m.machine { pool = shut_down m.machine.pool };
  destroyer = flagged;
}

-- `pthread_cond_broadcast`, which is called without the lock.
abbrev pub broadcast : Wakeful → Wakeful
broadcast m = record m { asleep = λ i. false; destroyer = joins }

-- Steps of the workers that are awake, and of `threadpool_add`.
abbrev pub Allowed : {m n : Machine} → (ℕ → Bool) → Step m n → Type 0
Allowed asleep (adds a garbage job p free e to_n) = Unit
Allowed asleep (begins i a task p is_idle e there to_n) = asleep i ≡ false
Allowed asleep (calls i a job p run e to_n) = asleep i ≡ false
Allowed asleep (leaves i is_idle e to_n) = asleep i ≡ false
Allowed asleep (shuts to_n) = ⊥

-- A worker falls asleep and releases the lock in one step. A worker is woken by a signal of
-- `threadpool_add` or `threadpool_adjust`, or spuriously, at any time; otherwise it sleeps on.
pub data WakeStep (m n : Wakeful) : Type 0 where
  acts :
      (o : Machine) (s : Step m.machine o)
      → Allowed m.asleep s
      → n ≡ record m { machine = o }
      → WakeStep m n
  sleeps :
      (i : ℕ)
      → m.machine.workers i ≡ idle
      → m.asleep i ≡ false
      → threadpool_handle m.machine.pool ≡ waits
      → n ≡ record m { asleep = set_asleep m.asleep i true }
      → WakeStep m n
  wakes : (i : ℕ) → n ≡ record m { asleep = set_asleep m.asleep i false } → WakeStep m n
  flags : m.destroyer ≡ before_flag → n ≡ raise_flag m → WakeStep m n
  broadcasts : m.destroyer ≡ flagged → n ≡ broadcast m → WakeStep m n

pub data WakeReach (m : Wakeful) : Wakeful → Type 0 where
  at_start : WakeReach m m
  after : {n o : Wakeful} → WakeReach m n → WakeStep n o → WakeReach m o

abbrev pub wake_start : Heap Job → Pointer → ℕ → Wakeful
wake_start h garbage size = record {
  machine = start h garbage size;
  asleep = λ i. false;
  destroyer = before_flag;
}

-- The worker that takes the step, if one does.
abbrev pub waking_worker : {m n : Wakeful} → WakeStep m n → Option ℕ
waking_worker (acts o s may to_n) = step_worker s
waking_worker (sleeps i is_idle awake e to_n) = some i
waking_worker (wakes i to_n) = none
waking_worker (flags e to_n) = none
waking_worker (broadcasts e to_n) = none

-- `k` steps of the workers below `size`, and any of other threads between them.
pub data WakeJoining (size : ℕ) (m : Wakeful) : Wakeful → ℕ → Type 0 where
  no_wakes : WakeJoining size m m 0
  worker_step :
      {n o : Wakeful} {k : ℕ}
      → WakeJoining size m n k
      → (i : ℕ) → i < size
      → (s : WakeStep n o) → waking_worker s ≡ some i
      → WakeJoining size m o (suc k)
  other_step :
      {n o : Wakeful} {k : ℕ}
      → WakeJoining size m n k
      → (s : WakeStep n o) → waking_worker s ≡ none
      → WakeJoining size m o k
