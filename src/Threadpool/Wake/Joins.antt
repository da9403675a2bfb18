-- ===== src/Threadpool/Wake/Joins.antt =====
-- `threadpool_destroy` at its joins: no worker has missed the broadcast.
use tiny_proxy.Base.{
  ℕ, suc, ◌*◌, ◌<◌, ◌≤◌, ◌≡◌, ◌≢◌, refl, sym, ap, ◌∙◌, subst, Bool, true, false, Option, none, some,
  ◌==◌, ◌⊎◌, inl, inr, Bool-cases, arith,
}
use tiny_proxy.Base.Linked.{Pointer, Heap}
use tiny_proxy.Threadpool.Ops.{Job, waits, exits, threadpool_handle}
use tiny_proxy.Threadpool.Machine.{
  exited, Machine, Step, adds, begins, calls, leaves, shuts, Reach, here, next, start,
}
use tiny_proxy.Threadpool.Safe.{IsSafe}
use tiny_proxy.Threadpool.Reach.{Reach-IsSafe}
use tiny_proxy.Threadpool.Join.{
  step_worker, Joining, no_steps, works, others, shut_exits, others_lem, works_lem, none_ne_some,
  joins_lem,
}
use tiny_proxy.Threadpool.Wake.{
  Destroyer, before_flag, flagged, joins, Wakeful, set_asleep, Allowed, WakeStep, acts, sleeps,
  wakes, flags, broadcasts, WakeReach, at_start, after, wake_start, waking_worker, WakeJoining,
  no_wakes, worker_step, other_step,
}

-- From the flag on it stays set, and behind the broadcast nobody sleeps.
abbrev Awake : Destroyer → Machine → (ℕ → Bool) → Type 0
Awake before_flag m asleep = Unit
Awake flagged m asleep = m.pool.isshuttingdown ≡ true
Awake joins m asleep = (m.pool.isshuttingdown ≡ true) × ((i : ℕ) → asleep i ≡ false)

waits_ne_exits : waits ≢ exits
waits_ne_exits e = cc

some_ne_none : {i : ℕ} → some i ≢ none
some_ne_none e = cc

step_shut :
    {m o : Machine} (s : Step m o)
    → IsSafe m
    → m.pool.isshuttingdown ≡ true
    → o.pool.isshuttingdown ≡ true
step_shut {o = o} s safe shut = by_worker (step_worker s) refl
  where
    by_worker : (w : Option ℕ) → step_worker s ≡ w → o.pool.isshuttingdown ≡ true
    by_worker none e = (others_lem 0 s e shut).1
    by_worker (some i) e = (works_lem (suc i) i s e (omega arith) safe shut).1

acts-Awake :
    (d : Destroyer) (m o : Machine) (asleep : ℕ → Bool) (s : Step m o)
    → IsSafe m
    → Awake d m asleep
    → Awake d o asleep
acts-Awake before_flag m o asleep s safe h = tt
acts-Awake flagged m o asleep s safe h = step_shut s safe h
acts-Awake joins m o asleep s safe h = (step_shut s safe h.0, h.1)

sleeps-Awake :
    (d : Destroyer) (m : Machine) (asleep : ℕ → Bool) (i : ℕ)
    → threadpool_handle m.pool ≡ waits
    → Awake d m asleep
    → Awake d m (set_asleep asleep i true)
sleeps-Awake before_flag m asleep i e h = tt
sleeps-Awake flagged m asleep i e h = h
sleeps-Awake joins m asleep i e h = absurd (waits_ne_exits (sym e ∙ shut_exits m.pool h.0))

wakes-Awake :
    (d : Destroyer) (m : Machine) (asleep : ℕ → Bool) (i : ℕ)
    → Awake d m asleep
    → Awake d m (set_asleep asleep i false)
wakes-Awake before_flag m asleep i h = tt
wakes-Awake flagged m asleep i h = h
wakes-Awake joins m asleep i h =
    (h.0, λ j. elim (Bool-cases (j == i)) [ inl e ↦ rw e refl | inr e ↦ rw e (h.1 j) ])

flag_set :
    (d : Destroyer) (m : Machine) (asleep : ℕ → Bool)
    → d ≡ flagged
    → Awake d m asleep
    → m.pool.isshuttingdown ≡ true
flag_set d m asleep e h = subst (λ x. Awake x m asleep) e h

abbrev Sound : Heap Job → Pointer → ℕ → Wakeful → Type 0
Sound h garbage size m =
    Reach (start h garbage size) m.machine × Awake m.destroyer m.machine m.asleep

WakeStep-Sound :
    (h : Heap Job) (garbage : Pointer) (size : ℕ) (m n : Wakeful)
    → WakeStep m n
    → Sound h garbage size m
    → Sound h garbage size n
WakeStep-Sound h garbage size m n (acts o s may to_n) (r, a) =
    subst (Sound h garbage size) (sym to_n) (
      next r s,
      acts-Awake m.destroyer m.machine o m.asleep s (Reach-IsSafe h garbage size m.machine r) a,
    )
WakeStep-Sound h garbage size m n (sleeps i is_idle awake e to_n) (r, a) =
    subst (Sound h garbage size) (sym to_n) (r, sleeps-Awake m.destroyer m.machine m.asleep i e a)
WakeStep-Sound h garbage size m n (wakes i to_n) (r, a) =
    subst (Sound h garbage size) (sym to_n) (r, wakes-Awake m.destroyer m.machine m.asleep i a)
WakeStep-Sound h garbage size m n (flags e to_n) (r, a) =
    subst (Sound h garbage size) (sym to_n) (next r (shuts refl), refl)
WakeStep-Sound h garbage size m n (broadcasts e to_n) (r, a) =
    subst (Sound h garbage size) (sym to_n)
      (r, (flag_set m.destroyer m.machine m.asleep e a, λ i. refl))

WakeReach-Sound :
    (h : Heap Job) (garbage : Pointer) (size : ℕ) (m : Wakeful)
    → WakeReach (wake_start h garbage size) m
    → Sound h garbage size m
WakeReach-Sound h garbage size m at_start = (here, tt)
WakeReach-Sound h garbage size m (after {n} r s) =
    WakeStep-Sound h garbage size n m s (WakeReach-Sound h garbage size n r)

joins_ne_before : joins ≢ before_flag
joins_ne_before e = cc

joins_ne_flagged : joins ≢ flagged
joins_ne_flagged e = cc

-- A state at the joins.
abbrev AtJoins : Heap Job → Pointer → ℕ → Wakeful → Type 0
AtJoins h garbage size m = WakeReach (wake_start h garbage size) m × (m.destroyer ≡ joins)

shut_awake :
    (h : Heap Job) (garbage : Pointer) (size : ℕ) (m : Wakeful)
    → AtJoins h garbage size m
    → (m.machine.pool.isshuttingdown ≡ true) × ((i : ℕ) → m.asleep i ≡ false)
shut_awake h garbage size m (r, e) =
    subst (λ d. Awake d m.machine m.asleep) e (WakeReach-Sound h garbage size m r).1

-- At the joins, the steps of the workers are those of the pool without a condition variable.
worker_step-Joining :
    (h : Heap Job) (garbage : Pointer) (size k : ℕ) (m : Machine) (n o : Wakeful) (i : ℕ)
    (s : WakeStep n o)
    → waking_worker s ≡ some i
    → i < size
    → AtJoins h garbage size n
    → Joining size m n.machine k
    → Joining size m o.machine (suc k) × (o.destroyer ≡ joins)
worker_step-Joining h garbage size k m n o i (acts p s may to_n) e below (r, at) j = (
  subst (λ (x : Wakeful). Joining size m x.machine (suc k)) (sym to_n) (works j i below s e),
  ap (λ (x : Wakeful). x.destroyer) to_n ∙ at,
)
worker_step-Joining h garbage size k m n o i (sleeps i' is_idle awake w to_n) e below at j =
    absurd (waits_ne_exits (sym w ∙ shut_exits n.machine.pool (shut_awake h garbage size n at).0))
worker_step-Joining h garbage size k m n o i (wakes i' to_n) e below at j = absurd (none_ne_some e)
worker_step-Joining h garbage size k m n o i (flags w to_n) e below at j = absurd (none_ne_some e)
worker_step-Joining h garbage size k m n o i (broadcasts w to_n) e below at j =
    absurd (none_ne_some e)

other_step-Joining :
    (size k : ℕ) (m : Machine) (n o : Wakeful) (s : WakeStep n o)
    → waking_worker s ≡ none
    → n.destroyer ≡ joins
    → Joining size m n.machine k
    → Joining size m o.machine k × (o.destroyer ≡ joins)
other_step-Joining size k m n o (acts p s may to_n) e at j = (
  subst (λ (x : Wakeful). Joining size m x.machine k) (sym to_n) (others j s e),
  ap (λ (x : Wakeful). x.destroyer) to_n ∙ at,
)
other_step-Joining size k m n o (sleeps i is_idle awake w to_n) e at j = absurd (some_ne_none e)
other_step-Joining size k m n o (wakes i to_n) e at j = (
  subst (λ (x : Wakeful). Joining size m x.machine k) (sym to_n) j,
  ap (λ (x : Wakeful). x.destroyer) to_n ∙ at,
)
other_step-Joining size k m n o (flags w to_n) e at j = absurd (joins_ne_before (sym at ∙ w))
other_step-Joining size k m n o (broadcasts w to_n) e at j = absurd (joins_ne_flagged (sym at ∙ w))

WakeJoining-Joining :
    (h : Heap Job) (garbage : Pointer) (size : ℕ) (m n : Wakeful) (k : ℕ)
    → AtJoins h garbage size m
    → WakeJoining size m n k
    → Joining size m.machine n.machine k × AtJoins h garbage size n
WakeJoining-Joining h garbage size m n k at no_wakes = (no_steps, at)
WakeJoining-Joining h garbage size m n k at (worker_step {n = before} {k = k'} j i below s e) =
    let (j', (r, there)) = WakeJoining-Joining h garbage size m before k' at j in
    let (j'', there') =
      worker_step-Joining h garbage size k' m.machine before n i s e below (r, there) j' in
    (j'', (after r s, there'))
WakeJoining-Joining h garbage size m n k at (other_step {n = before} j s e) =
    let (j', (r, there)) = WakeJoining-Joining h garbage size m before k at j in
    let (j'', there') = other_step-Joining size k m.machine before n s e there j' in
    (j'', (after r s, there'))

awake-Allowed :
    {m o : Machine} (asleep : ℕ → Bool) (i : ℕ) (s : Step m o)
    → ((j : ℕ) → asleep j ≡ false)
    → step_worker s ≡ some i
    → Allowed asleep s
awake-Allowed asleep i (adds a garbage job p free e to_n) awake h = tt
awake-Allowed asleep i (begins j a task p is_idle e there to_n) awake h = awake j
awake-Allowed asleep i (calls j a job p run e to_n) awake h = awake j
awake-Allowed asleep i (leaves j is_idle e to_n) awake h = awake j
awake-Allowed asleep i (shuts to_n) awake h = absurd (none_ne_some h)

-- From a new pool of `size` workers on, where workers that wait on the condition variable sleep until
-- they are woken: once `threadpool_destroy` stands at its joins, whatever other threads do between
-- the steps, the workers take at most `2 * size` steps in all, and behind any number of them either
-- all workers have exited or one of them is awake and can take another. No worker sleeps there,
-- so none has missed the broadcast, and the `pthread_join` of every worker returns, if the jobs do
-- and the workers that can take a step do.
pub threadpool_destroy-joins :
    (h : Heap Job) (garbage : Pointer) (size : ℕ) (m n : Wakeful) (k : ℕ)
    → WakeReach (wake_start h garbage size) m
    → m.destroyer ≡ joins
    → WakeJoining size m n k
    → (k ≤ 2 * size)
      × ((i : ℕ) → n.asleep i ≡ false)
      × (((i : ℕ) → i < size → n.machine.workers i ≡ exited)
          ⊎ ((i : ℕ) × (i < size)
              × (o : Wakeful) × (s : WakeStep n o) × (waking_worker s ≡ some i)))
threadpool_destroy-joins h garbage size m n k r at j =
    let (j', at') = WakeJoining-Joining h garbage size m n k (r, at) j in
    let (shut, awake) = shut_awake h garbage size n at' in
    let (bound, ends) =
      joins_lem h garbage size m.machine n.machine k (WakeReach-Sound h garbage size m r).0
        (shut_awake h garbage size m (r, at)).0 j' in
    (
      bound,
      awake,
      elim ends [
        | inl all ↦ inl all
        | inr (i, below, o, s, e) ↦
            inr (i, below, _, acts o s (awake-Allowed n.asleep i s awake e) refl, e)
      ],
    )
