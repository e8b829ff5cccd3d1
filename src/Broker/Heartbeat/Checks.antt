-- ===== src/Broker/Heartbeat/Checks.antt =====
-- broker/heartbeat.go: `checkTimeoutConn` and the invariant of the timer.
use longcom.Base.{
  ℕ, zero, suc, ◌+◌, ◌<◌, ◌≡◌, ◌≢◌, refl, ◌⊎◌, inl, inr, Option, none, some, ◌==◌, nat_eq, arith,
  Bool-cases, subst, sym,
}
use longcom.Base.Int.{ℤ, pos, leb_ℤ}
use longcom.Base.Dict.{load, delete}
use longcom.Errors.{Error}
use longcom.Broker.Conn.{Network, get_heartbeat_deadline}
use longcom.Broker.PriorityQueue.{PriorityQueue, len, set_priority, push, pop}
use longcom.Broker.PriorityQueue.Swap.{Holds}
use longcom.Broker.PriorityQueue.Operations.{IsQueue, Inserted, Extracted, push-Inserted}
use longcom.Broker.PriorityQueue.Taking.{pop-Extracted, pop-none}
use longcom.Broker.Server.{Server}
use longcom.Broker.Heartbeat.{
  HeartbeatTimer, push_again, Checked, goes_on, breaks, keep_alive, check_item, check_round,
  check_rounds, check_timeout_conn,
}
use longcom.Broker.Heartbeat.Timer.{
  Maps, IsTimer, Inserted-Maps, Extracted-Maps, written-IsQueue, written-Holds,
}

-- One item is out of the queue while the map still has it.
pub record IsHeld (a : ℕ) (t : HeartbeatTimer) : Type 0 where
  pub queue : IsQueue t.queue
  pub out : ¬ Holds t.queue a
  pub maps : Maps (delete (t.queue.item_at a).value t.conn_to_pq_item) t.queue
  pub own : load (t.queue.item_at a).value t.conn_to_pq_item ≡ some a
  pub fresh : (b : ℕ) → Holds t.queue b → b < t.next_item
  pub old : a < t.next_item

-- It goes back, whatever was written to it but its connection.
module _ (a : ℕ) (t : HeartbeatTimer) (v : IsHeld a t) (r : PriorityQueue)
    (same : r.slots ≡ t.queue.slots) (others : (b : ℕ) → a ≢ b → r.item_at b ≡ t.queue.item_at b)
    (value : (r.item_at a).value ≡ (t.queue.item_at a).value) where
  pub back-Inserted : Inserted a r (push a r)
  back-Inserted =
      push-Inserted a r (written-IsQueue a t.queue r same others v.out v.queue)
        (λ h. v.out (written-Holds a t.queue r same others v.out a h))

  back-IsTimer : IsTimer (record t { queue = push a r })
  back-IsTimer = record {
    queue = back-Inserted.queue;
    maps =
        Inserted-Maps a t.queue r same others v.out t.conn_to_pq_item (t.queue.item_at a).value
          (push a r) v.maps v.own value back-Inserted;
    fresh = λ b h. elim (back-Inserted.back b h) [
      | inl e ↦ subst (λ n. n < t.next_item) e v.old
      | inr k ↦ v.fresh b (written-Holds a t.queue r same others v.out b k)
    ];
  }

pub push_again-IsTimer :
    (a : ℕ) (p : ℤ) (t : HeartbeatTimer) → IsHeld a t → IsTimer (push_again a p t)
unfolding push_again
push_again-IsTimer a p t v =
    back-IsTimer a t v (record t.queue { item_at = set_priority a p t.queue.item_at }) refl
      (λ b other. ground arith) (ground arith)

pub dropped-IsTimer :
    (a : ℕ) (t : HeartbeatTimer)
    → IsHeld a t
    → IsTimer (record t { conn_to_pq_item = delete (t.queue.item_at a).value t.conn_to_pq_item })
dropped-IsTimer a t v = record { queue = v.queue; maps = v.maps; fresh = v.fresh }

pub popped-IsHeld :
    (a : ℕ) (t : HeartbeatTimer) (q : PriorityQueue)
    → IsTimer t
    → Extracted a t.queue q
    → IsHeld a (record t { queue = q })
popped-IsHeld a t q v x =
    let own = v.maps.mapped a x.had in
    let same = x.values a in
    record {
      queue = x.queue;
      out = λ h. (x.back a h).1 refl;
      maps =
          subst (λ c. Maps (delete c t.conn_to_pq_item) q) (sym same)
            (Extracted-Maps t.conn_to_pq_item a t.queue q v.maps x);
      own = rw same own;
      fresh = λ b h. v.fresh b (x.back b h).0;
      old = v.fresh a x.had;
    }

-- The timer that a round leaves.
abbrev pub timer_of : Checked → HeartbeatTimer
timer_of (goes_on t s) = t
timer_of (breaks t s) = t

module _ (net : Network) (now : ℕ) where
  keep_alive-IsTimer :
      (at : ℕ) (e : Option Error) (a : ℕ) (t : HeartbeatTimer) (s : Server)
      → IsHeld a t
      → IsTimer (timer_of (keep_alive net now at e a (t.queue.item_at a).value t s))
  unfolding keep_alive
  keep_alive-IsTimer at none a t s v = push_again-IsTimer a _ t v
  keep_alive-IsTimer at (some e) a t s v = dropped-IsTimer a t v

  check_item-IsTimer :
      (at a : ℕ) (t : HeartbeatTimer) (s : Server)
      → IsHeld a t
      → IsTimer (timer_of (check_item net now at a t s))
  unfolding check_item
  check_item-IsTimer at a t s v = elim (Bool-cases (leb_ℤ (pos now) (t.queue.item_at a).priority)) [
    | inl e ↦ rw e (back-IsTimer a t v t.queue refl (λ b other. refl) refl)
    | inr e ↦
        elim (Bool-cases
          (leb_ℤ (get_heartbeat_deadline (s.conn_at (t.queue.item_at a).value)) (pos now))) [
            | inl f ↦ rw (e, f) (keep_alive-IsTimer at _ a t _ v)
            | inr f ↦ rw (e, f) (push_again-IsTimer a _ t v)
          ]
  ]

  pub empty_or_not : (t : HeartbeatTimer) → (len t.queue ≡ 0) ⊎ (0 < len t.queue)
  empty_or_not t = elim (Bool-cases (len t.queue == 0)) [
    | inl e ↦ inl (ground (arith, e))
    | inr e ↦ inr (ground (arith, e))
  ]

  pub check_round_empty :
      (at : ℕ) (t : HeartbeatTimer) (s : Server)
      → pop t.queue ≡ none
      → check_round net now at t s ≡ breaks t s
  unfolding check_round
  check_round_empty at t s e = ground (arith, e)

  pub check_round_item :
      (at a : ℕ) (q : PriorityQueue) (t : HeartbeatTimer) (s : Server)
      → pop t.queue ≡ some (q, a)
      → check_round net now at t s ≡ check_item net now at a (record t { queue = q }) s
  unfolding check_round
  check_round_item at a q t s e = ground (arith, e)

  pub check_round-IsTimer :
      (at : ℕ) (t : HeartbeatTimer) (s : Server)
      → IsTimer t
      → IsTimer (timer_of (check_round net now at t s))
  check_round-IsTimer at t s v = elim (empty_or_not t) [
    | inl e ↦ rw (check_round_empty at t s (pop-none t.queue v.queue e)) v
    | inr h ↦
        let (q, a, popped, x, _) = pop-Extracted t.queue v.queue h in
        rw (check_round_item at a q t s popped)
          (check_item-IsTimer at a (record t { queue = q }) s (popped-IsHeld a t q v x))
  ]

  next_rounds : ℕ → (ℕ → ℕ) → Checked → HeartbeatTimer × Server
  next_rounds left clock (goes_on t s) = check_rounds net now left clock t s
  next_rounds left clock (breaks t s) = (t, s)

  check_rounds-suc :
      (left : ℕ) (clock : ℕ → ℕ) (t : HeartbeatTimer) (s : Server)
      → check_rounds net now (suc left) clock t s
        ≡ next_rounds left clock (check_round net now (clock left) t s)
  unfolding check_rounds next_rounds
  check_rounds-suc left clock t s = ground arith

  next_rounds-IsTimer :
      (left : ℕ) (clock : ℕ → ℕ) (k : Checked)
      → ((t : HeartbeatTimer) (s : Server)
          → IsTimer t
          → IsTimer (check_rounds net now left clock t s).0)
      → IsTimer (timer_of k)
      → IsTimer (next_rounds left clock k).0
  unfolding next_rounds
  next_rounds-IsTimer left clock (goes_on t s) later v = later t s v
  next_rounds-IsTimer left clock (breaks t s) later v = v

  check_rounds-IsTimer :
      (left : ℕ) (clock : ℕ → ℕ) (t : HeartbeatTimer) (s : Server)
      → IsTimer t
      → IsTimer (check_rounds net now left clock t s).0
  unfolding check_rounds
  check_rounds-IsTimer zero clock t s v = v
  check_rounds-IsTimer (suc left) clock t s v = rw (check_rounds-suc left clock t s) (
      next_rounds-IsTimer left clock (check_round net now (clock left) t s)
        (check_rounds-IsTimer left clock) (check_round-IsTimer (clock left) t s v))

  -- `checkTimeoutConn`, whatever the connections and the network do, keeps the timer's invariant:
  -- the queue is a heap whose items know their slot, the map has exactly the items of the queue,
  -- each under its connection.
  pub check_timeout_conn-IsTimer :
      (clock : ℕ → ℕ) (t : HeartbeatTimer) (s : Server)
      → IsTimer t
      → IsTimer (check_timeout_conn net now clock t s).0
  unfolding check_timeout_conn
  check_timeout_conn-IsTimer clock t s v =
      check_rounds-IsTimer (t.max_check_timeout_conn + 1) clock t s v
