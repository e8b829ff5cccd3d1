-- ===== src/Broker/PriorityQueue/Changing.antt =====
-- broker/heartbeat.go: `Update` of the priority queue.
use longcom.Base.{ℕ, ◌<◌, ◌≡◌, ◌≢◌, true, some, arith, nat_eq, ltb, ◌∙◌}
use longcom.Base.Int.{ℤ}
use longcom.Base.Run.{ok}
use longcom.Broker.PriorityQueue.{
  PriorityQueue, len, slot, key, parent, fix_at, update, set_priority,
}
use longcom.Broker.PriorityQueue.Swap.{IsIndexed, Holds}
use longcom.Broker.PriorityQueue.Up.{IsHeap, Moves}
use longcom.Broker.PriorityQueue.Down.{Hole}
use longcom.Broker.PriorityQueue.Operations.{IsQueue}
use longcom.Broker.PriorityQueue.Removal.{settle-Orders}

-- The item has the priority; all else that the queue shows is as it was.
pub record Updated (a : ℕ) (p : ℤ) (q q' : PriorityQueue) : Type 0 where
  pub queue : IsQueue q'
  pub same_len : len q' ≡ len q
  pub kept : (b : ℕ) → Holds q b → Holds q' b
  pub back : (b : ℕ) → Holds q' b → Holds q b
  pub written : (q'.item_at a).priority ≡ p
  pub priorities : (b : ℕ) → a ≢ b → (q'.item_at b).priority ≡ (q.item_at b).priority
  pub values : (b : ℕ) → (q'.item_at b).value ≡ (q.item_at b).value

module _ (a : ℕ) (p : ℤ) (q : PriorityQueue) (v : IsQueue q) where
  abbrev written_queue : PriorityQueue
  written_queue = record q { item_at = set_priority a p q.item_at }

  written-IsIndexed : IsIndexed written_queue
  written-IsIndexed c h = ground (arith, v.indexed c h)

  module _ (i : ℕ) (below : i < len q) (e : slot q i ≡ a) where
    written-key : (c : ℕ) → c < len q → i ≢ c → key written_queue c ≡ key q c
    written-key c h other = ground (arith, e, v.indexed i below, v.indexed c h)

    written-Hole : Hole i (len q) written_queue
    written-Hole = record {
      edges = λ c pos_c h other above.
          ground (arith, written-key c h, written-key (parent c), v.heap c pos_c);
      bridge = λ c pos_c h e pos_i.
          ground (arith, written-key c h, written-key (parent i), v.heap c pos_c, v.heap i pos_i);
    }

    fix_at-Orders :
        IsHeap (len q) (fix_at i written_queue) × Moves written_queue (fix_at i written_queue)
    unfolding fix_at
    fix_at-Orders = settle-Orders i (len q) written_queue below (omega arith) written-Hole

    fix_at-Updated : Updated a p q (fix_at i written_queue)
    fix_at-Updated =
        let (heap, moves) = fix_at-Orders in
        let s = moves.same_items in
        record {
          queue = record {
            indexed = moves.indexed written-IsIndexed;
            heap = λ c pos_c h. heap c pos_c (omega (arith, s.same_len));
          };
          same_len = s.same_len;
          kept = s.kept;
          back = s.back;
          written = s.priorities a ∙ ground arith;
          priorities = λ b other. s.priorities b ∙ ground arith;
          values = λ b. s.values b ∙ ground arith;
        }

  -- `Update` of an item of a queue in order does not panic: the item has the new priority, the
  -- queue is in order, and has the same items with the other priorities as they were.
  pub update-Updated : Holds q a → (q' : PriorityQueue) × (update a p q ≡ ok q') × Updated a p q q'
  unfolding update
  update-Updated (i, below, e) =
      let at : (q.item_at a).index ≡ some i = ground (arith, v.indexed i below, e) in
      let inside : ltb i (len q) ≡ true = ground arith in
      (fix_at i written_queue, ground (arith, at, inside), fix_at-Updated i below e)
