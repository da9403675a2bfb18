-- ===== src/Bqueue/Ops.antt =====
-- The queue and its operations. Each operation is what a thread does between taking the lock and
-- releasing it, with its calls of `malloc` and `free`. `none` is an access to memory that is not
-- allocated, or through NULL.
use tiny_proxy.Base.{ℕ, zero, suc, Bool, not, ◌&&◌, Option, none, some, if◌then◌else◌, ◌==◌}
use tiny_proxy.Base.Linked.{Pointer, null, to, Linkable, Heap, write_at, set_next, cut_tail}
use tiny_proxy.Base.Int.{incr, decr, ℤ, pos, negsuc}

-- The entry of the queue: an `int` and `next`.
abbrev pub BqueueEntry : Type 0
BqueueEntry = Linkable ℤ

-- Of the entry `head` only `next` is used: `head` is that pointer.
pub record Queue : Type 0 where
  pub head : Pointer
  pub tail : Pointer
  pub size : ℕ

pub record Bqueue : Type 0 where
  pub heap : Heap ℤ
  pub queue : Queue
  pub shuttingdown : Bool

abbrev pub isempty : Queue → Bool
isempty q = q.size == 0

abbrev pub link_tail : Queue → ℕ → Option (Heap ℤ) → Option (Heap ℤ × Queue)
link_tail q entry none = none
link_tail q entry (some h) = some (h, record { head = q.head; tail = to entry; size = incr q.size })

unfoldable pub enqueue : Heap ℤ → Queue → ℕ → Option (Heap ℤ × Queue)
unfolding set_next
enqueue h q entry = elim q.tail [
  | null ↦ some (h, record { head = to entry; tail = to entry; size = incr q.size })
  | to t ↦ link_tail q entry (set_next h t (to entry))
]

unfoldable pub take_entry : Heap ℤ → Queue → ℕ → ℕ → Option (Heap ℤ × Queue × Pointer)
take_entry h q t entry = elim (h entry) [
  | none ↦ none
  | some c ↦ some (
    write_at h entry (some (record c { next = null })),
    record { head = c.next; tail = cut_tail entry t; size = decr q.size },
    to entry,
  )
]

unfoldable pub dequeue : Heap ℤ → Queue → Option (Heap ℤ × Queue × Pointer)
unfolding take_entry
dequeue h q = elim q.tail [
  | null ↦ some (h, q, null)
  | to t ↦ elim q.head [ null ↦ none | to entry ↦ take_entry h q t entry ]
]

abbrev pub inserted : Bqueue → Option (Heap ℤ × Queue) → Option (Bqueue × ℤ)
inserted b none = none
inserted b (some (h, q)) = some (record b { heap = h; queue = q }, pos 1)

-- `malloc` gives the address `a`. The new entry's `next` is not set: it holds `garbage`.
unfoldable pub bqueue_insert : Bqueue → ℕ → Pointer → ℤ → Option (Bqueue × ℤ)
unfolding enqueue
bqueue_insert b a garbage value =
    inserted b
      (enqueue (write_at b.heap a (some (record { held = value; next = garbage }))) b.queue a)

-- What follows `dequeue`: the entry is read and freed.
unfoldable pub free_entry : Bqueue → Option (Heap ℤ × Queue × Pointer) → Option (Bqueue × ℤ)
free_entry b none = none
free_entry b (some (h, q, null)) = some (record b { heap = h; queue = q }, negsuc 0)
free_entry b (some (h, q, to e)) = elim (h e) [
  | none ↦ none
  | some c ↦ some (record b { heap = write_at h e none; queue = q }, c.held)
]

unfoldable pub bqueue_remove_nonblocking : Bqueue → Option (Bqueue × ℤ)
unfolding dequeue free_entry
bqueue_remove_nonblocking b =
    if b.shuttingdown
    then some (b, negsuc 0)
    else if isempty b.queue
    then some (b, negsuc 1)
    else free_entry b (dequeue b.heap b.queue)

-- A thread that has the lock: it waits on the condition variable, or removes.
pub data Attempt : Type 0 where
  waits : Attempt
  removes : Option (Bqueue × ℤ) → Attempt

unfoldable pub bqueue_remove : Bqueue → Attempt
unfolding dequeue free_entry
bqueue_remove b =
    if isempty b.queue && not b.shuttingdown
    then waits
    else if b.shuttingdown
    then removes (some (b, negsuc 0))
    else removes (free_entry b (dequeue b.heap b.queue))

-- The loop of `bqueue_destroy`, on fuel: `some none` if it has not ended.
unfoldable pub free_entries : ℕ → Heap ℤ → Pointer → Option (Option (Heap ℤ))
free_entries zero h p = some none
free_entries (suc fuel) h null = some (some h)
free_entries (suc fuel) h (to a) = elim (h a) [
  | none ↦ none
  | some c ↦ free_entries fuel (write_at h a none) c.next
]

-- `bqueue_destroy` up to `free(bqueue)`: what is left of the heap.
unfoldable pub bqueue_destroy : ℕ → Bqueue → Option (Option (Heap ℤ))
unfolding free_entries
bqueue_destroy fuel b = free_entries fuel b.heap b.queue.head
