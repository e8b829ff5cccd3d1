-- ===== src/Broker/Heartbeat/Timer.antt =====
-- broker/heartbeat.go: the invariant of the heartbeat timer, which is how its queue and its map agree.
use longcom.Base.{
  ℕ, ◌<◌, ◌≡◌, ◌≢◌, refl, inl, inr, some, ◌==◌, nat_eq, arith, Bool-cases, subst, sym, ◌∙◌, ◌-◌,
  ◌/◌,
}
use longcom.Base.Dict.{Dict, load, delete, load-delete}
use longcom.Broker.PriorityQueue.{PriorityQueue, len, slot}
use longcom.Broker.PriorityQueue.Swap.{Holds}
use longcom.Broker.PriorityQueue.Operations.{IsQueue, Inserted, Extracted}
use longcom.Broker.Heartbeat.{HeartbeatTimer, new_heartbeat_timer}

-- The map has exactly the items of the queue, each under its connection.
pub record Maps (m : Dict ℕ ℕ) (q : PriorityQueue) : Type 0 where
  pub queued : (c a : ℕ) → load c m ≡ some a → Holds q a × ((q.item_at a).value ≡ c)
  pub mapped : (a : ℕ) → Holds q a → load (q.item_at a).value m ≡ some a

pub record IsTimer (t : HeartbeatTimer) : Type 0 where
  pub queue : IsQueue t.queue
  pub maps : Maps t.conn_to_pq_item t.queue
  pub fresh : (a : ℕ) → Holds t.queue a → a < t.next_item

pub new_heartbeat_timer-IsTimer : (max : ℕ) → IsTimer (new_heartbeat_timer max)
unfolding new_heartbeat_timer load
new_heartbeat_timer-IsTimer max = record {
  queue = record {
    indexed = λ c h. absurd (omega arith);
    heap = λ c pos_c h. absurd (omega arith);
  };
  maps = record {
    queued = λ c a e. absurd (ground arith);
    mapped = λ a (i, h, e). absurd (omega arith);
  };
  fresh = λ a (i, h, e). absurd (omega arith);
}

-- A write to an item that is not in the queue.
module _ (a : ℕ) (q r : PriorityQueue) (same : r.slots ≡ q.slots)
    (others : (b : ℕ) → a ≢ b → r.item_at b ≡ q.item_at b) (out : ¬ Holds q a) where
  same-slot : (c : ℕ) → slot r c ≡ slot q c
  same-slot c = rw same refl

  beside : (c : ℕ) → c < len q → a ≢ slot q c
  beside c h e = out (c, h, sym e)

  kept_item : (c : ℕ) → c < len q → r.item_at (slot r c) ≡ q.item_at (slot q c)
  kept_item c h = rw (same-slot c) (others (slot q c) (beside c h))

  pub same-len : len r ≡ len q
  same-len = rw same refl

  pub written-IsQueue : IsQueue q → IsQueue r
  written-IsQueue v = record {
    indexed = λ c h. ground (arith, same-len, kept_item c, v.indexed c);
    heap =
        λ c pos_c h. ground (arith, same-len, kept_item c, kept_item ((c - 1) / 2), v.heap c pos_c);
  }

  pub written-Holds : (b : ℕ) → Holds r b → Holds q b
  written-Holds b (c, h, e) = (c, omega (arith, same-len), sym (same-slot c) ∙ e)

  pub written-kept : (b : ℕ) → Holds q b → Holds r b
  written-kept b (c, h, e) = (c, omega (arith, same-len), same-slot c ∙ e)

  pub Inserted-Maps :
      (m : Dict ℕ ℕ) (c : ℕ) (q' : PriorityQueue)
      → Maps (delete c m) q
      → load c m ≡ some a
      → (r.item_at a).value ≡ c
      → Inserted a r q'
      → Maps m q'
  Inserted-Maps m c q' v e w x = record {
    queued = λ d b f. elim (Bool-cases (c == d)) [
      | inl s ↦
          let is : a ≡ b = ground (arith, s) in
          (subst (Holds q') is x.has, ground (arith, s, is, x.values a))
      | inr s ↦
          let (h, value) = v.queued d b (ground (arith, s, load-delete c d m)) in
          let other : a ≢ b = λ n. out (subst (Holds q) (sym n) h) in
          (x.kept b (written-kept b h), ground (arith, value, x.values b, others b other))
    ];
    mapped = λ b h. elim (x.back b h) [
      | inl n ↦ ground (arith, n, e, w, x.values a)
      | inr k ↦
          let h' = written-Holds b k in
          let other : a ≢ b = λ n. out (subst (Holds q) (sym n) h') in
          let value : (q'.item_at b).value ≡ (q.item_at b).value =
            ground (arith, x.values b, others b other) in
          ground (arith, value, v.mapped b h', load-delete c (q.item_at b).value m)
    ];
  }

pub Extracted-Maps :
    (m : Dict ℕ ℕ) (a : ℕ) (q q' : PriorityQueue)
    → Maps m q
    → Extracted a q q'
    → Maps (delete (q.item_at a).value m) q'
Extracted-Maps m a q q' v x =
    let c = (q.item_at a).value in
    let own = v.mapped a x.had in
    record {
      queued = λ d b e.
          let (h, value) = v.queued d b (ground (arith, load-delete c d m)) in
          let other : a ≢ b = λ n. ground (arith, n, value, load-delete c d m) in
          (x.kept b h other, ground (arith, value, x.values b));
      mapped = λ b h.
          let (h', other) = x.back b h in
          ground
            (arith, x.values b, v.mapped b h', own, other, load-delete c (q.item_at b).value m);
    }
