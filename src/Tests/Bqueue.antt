-- ===== src/Tests/Bqueue.antt =====
-- Tests and examples of the queue.
use tiny_proxy.Base.{◌≡◌, refl, none, some, [], ◌∷◌, false, arith}
use tiny_proxy.Base.Int.{pos}
use tiny_proxy.Base.Linked.{to, write_at}
use tiny_proxy.Bqueue.Ops.{
  Bqueue, bqueue_insert, bqueue_remove, bqueue_remove_nonblocking, removes, bqueue_destroy,
}
use tiny_proxy.Bqueue.Fifo.{IsBqueue, Holds, bqueue_insert-Holds, bqueue_remove-Removes}

-- Two entries, at 8 and 9. The last one's `next` was never set.
abbrev two : Bqueue
two = record {
  heap =
      write_at (write_at (λ a. none) 8 (some (record { held = pos 80; next = to 9 }))) 9
        (some (record { held = pos 90; next = to 77 }));
  queue = record { head = to 8; tail = to 9; size = 2 };
  shuttingdown = false;
}

two-IsBqueue : IsBqueue two ((8, pos 80) ∷ (9, pos 90) ∷ [])
two-IsBqueue = record {
  linked = (to 9, refl, refl, (to 77, refl, refl, tt));
  distinct = ((refl, tt), (tt, tt));
  tail = refl;
  size = refl;
}

two-Holds : Holds two (pos 80 ∷ pos 90 ∷ [])
two-Holds = ((8, pos 80) ∷ (9, pos 90) ∷ [], two-IsBqueue, refl)

bqueue_insert-Holds_example :
    (b : Bqueue) × (bqueue_insert two 5 (to 8) (pos 50) ≡ some (b, pos 1))
    × Holds b (pos 80 ∷ pos 90 ∷ pos 50 ∷ [])
bqueue_insert-Holds_example =
    bqueue_insert-Holds two (pos 80 ∷ pos 90 ∷ []) 5 (to 8) (pos 50) two-Holds refl

bqueue_remove-Removes_example :
    (b : Bqueue) × (bqueue_remove_nonblocking two ≡ some (b, pos 80))
    × (bqueue_remove two ≡ removes (some (b, pos 80)))
    × Holds b (pos 90 ∷ [])
bqueue_remove-Removes_example =
    bqueue_remove-Removes two (pos 80 ∷ pos 90 ∷ []) two-Holds (omega arith)

-- The loop of `bqueue_destroy` follows the `next` that was never set.
destroy_follows_garbage : bqueue_destroy 5 two ≡ none
unfolding bqueue_destroy
destroy_follows_garbage = refl
