-- ===== src/Broker/Heartbeat/Progress.antt =====
-- broker/heartbeat.go: a round of `checkTimeoutConn` makes what is due fewer, if no connection is dead.
use longcom.Base.{
  ℕ, ◌<◌, ◌≤◌, ◌≡◌, refl, sym, ◌∙◌, true, false, inl, inr, ◌⊎◌, List, [], ◌∷◌, Option, none, some,
  length, contains, remove, contains-remove, nat_eq, text_eq, arith, Bool-cases,
}
use longcom.Base.Int.{ℤ, pos, leb_ℤ, ◌≤ℤ◌, ◌<ℤ◌}
use longcom.Base.Dict.{delete}
use longcom.Errors.{Error}
use longcom.Broker.Conn.{Network, get_heartbeat_deadline, ping}
use longcom.Broker.PriorityQueue.{PriorityQueue, set_priority}
use longcom.Broker.PriorityQueue.Swap.{Holds}
use longcom.Broker.PriorityQueue.Operations.{Extracted}
use longcom.Broker.PriorityQueue.Taking.{pop-Extracted, pop-none}
use longcom.Broker.Server.{Server, emit, write_conn, close_conn}
use longcom.Broker.Handler.{receive_frame_at, write_calls}
use longcom.Broker.Heartbeat.{
  HeartbeatTimer, push_again, Checked, goes_on, breaks, keep_alive, check_item, check_round,
}
use longcom.Broker.Heartbeat.Timer.{IsTimer, written-Holds}
use longcom.Broker.Heartbeat.Checks.{
  popped-IsHeld, check_round_item, check_round_empty, empty_or_not, back-Inserted,
  push_again-IsTimer, dropped-IsTimer,
}
use longcom.Broker.Heartbeat.Health.{
  AllHealthy, close_conn-AllHealthy, write_conn-AllHealthy, receive_frame_at-IsHealthy,
  emit-AllHealthy, received_deadline,
}
use longcom.Broker.Heartbeat.Stops.{check_round-stops, early}

length-remove_le : (a : ℕ) (xs : List ℕ) → length (remove a xs) ≤ length xs
unfolding remove
length-remove_le a [] = omega arith
length-remove_le a (x ∷ xs) = ground (arith, length-remove_le a xs)

length-remove_lt : (a : ℕ) (xs : List ℕ) → contains xs a ≡ true → length (remove a xs) < length xs
unfolding remove contains
length-remove_lt a [] h = absurd (ground arith)
length-remove_lt a (x ∷ xs) h =
    ground (arith, h, nat_eq.beq_iff x a, length-remove_lt a xs, length-remove_le a xs)

module _ (net : Network) (now : ℕ) where
  -- Every item that is due is in the list.
  abbrev pub Covers : List ℕ → HeartbeatTimer → Type 0
  Covers due t =
      (b : ℕ) → Holds t.queue b → (t.queue.item_at b).priority <ℤ pos now → contains due b ≡ true

  abbrev pub NoneDue : HeartbeatTimer → Type 0
  NoneDue t = (b : ℕ) → Holds t.queue b → pos now ≤ℤ (t.queue.item_at b).priority

  -- The round goes on with fewer items that are due.
  pub record Advances (due : List ℕ) (k : Checked) : Type 0 where
    pub timer : HeartbeatTimer
    pub server : Server
    pub still_due : List ℕ
    pub goes : k ≡ goes_on timer server
    pub in_order : IsTimer timer
    pub healthy : AllHealthy server
    pub covered : Covers still_due timer
    pub fewer : length still_due < length due

  module _ (a : ℕ) (due : List ℕ) (t : HeartbeatTimer) (q : PriorityQueue) (v : IsTimer t)
      (x : Extracted a t.queue q) (covers : Covers due t)
      (is_due : (t.queue.item_at a).priority <ℤ pos now) where
    fewer_due : length (remove a due) < length due
    fewer_due = length-remove_lt a due (covers a x.had is_due)

    others-Covers :
        (b : ℕ) → Holds q b → (q.item_at b).priority <ℤ pos now → contains (remove a due) b ≡ true
    others-Covers b h early =
        let (held, other) = x.back b h in
        ground (
          arith,
          other,
          contains-remove a b due,
          covers b held (ground (arith, early, x.priorities b)),
        )

    again-Covers :
        (p : ℤ) → pos now ≤ℤ p → Covers (remove a due) (push_again a p (record t { queue = q }))
    unfolding push_again
    again-Covers p later b h early =
        let held = popped-IsHeld a t q v x in
        let r : PriorityQueue = record q { item_at = set_priority a p q.item_at } in
        let put =
          back-Inserted a (record t { queue = q }) held r refl (λ c other. ground arith)
            (ground arith) in
        elim (put.back b h) [
          | inl n ↦ absurd (ground (arith, n, early, put.priorities b, later))
          | inr k ↦
              let kept = written-Holds a q r refl (λ c other. ground arith) held.out b k in
              let other = (x.back b kept).1 in
              others-Covers b kept (ground (arith, early, other, put.priorities b))
        ]

    module _ (s : Server) (healthy : AllHealthy s) where
      with_fewer :
          (p : ℤ) (s' : Server)
          → pos now ≤ℤ p
          → AllHealthy s'
          → Advances due (goes_on (push_again a p (record t { queue = q })) s')
      with_fewer p s' later h = record {
        timer = push_again a p (record t { queue = q });
        server = s';
        still_due = remove a due;
        goes = refl;
        in_order = push_again-IsTimer a p (record t { queue = q }) (popped-IsHeld a t q v x);
        healthy = h;
        covered = again-Covers p later;
        fewer = fewer_due;
      }

      keep_alive-Advances :
          (at : ℕ) (e : Option Error) (s' : Server)
          → now ≤ at
          → AllHealthy s'
          → Advances due (keep_alive net now at e a (q.item_at a).value (record t { queue = q }) s')
      unfolding keep_alive
      keep_alive-Advances at none s' later h =
          let c = s'.conn_at (q.item_at a).value in
          with_fewer (get_heartbeat_deadline (receive_frame_at at c))
            (write_conn (q.item_at a).value (receive_frame_at at c) s')
            (received_deadline now at c later (h (q.item_at a).value))
            (write_conn-AllHealthy (q.item_at a).value (receive_frame_at at c) s' h
              (receive_frame_at-IsHealthy at c (h (q.item_at a).value)))
      keep_alive-Advances at (some e) s' later h = record {
        timer = record t {
          queue = q;
          conn_to_pq_item = delete (q.item_at a).value t.conn_to_pq_item;
        };
        server = (close_conn (q.item_at a).value at s').0;
        still_due = remove a due;
        goes = refl;
        in_order = dropped-IsTimer a (record t { queue = q }) (popped-IsHeld a t q v x);
        healthy = close_conn-AllHealthy (q.item_at a).value at s' h;
        covered = others-Covers;
        fewer = fewer_due;
      }

      due_round-Advances :
          (at : ℕ) → now ≤ at → Advances due (check_item net now at a (record t { queue = q }) s)
      unfolding check_item
      due_round-Advances at later =
          let conn = (q.item_at a).value in
          let c = s.conn_at conn in
          let due_yet : leb_ℤ (pos now) (q.item_at a).priority ≡ false =
            ground (arith, is_due, x.priorities a) in
          elim (Bool-cases (leb_ℤ (get_heartbeat_deadline c) (pos now))) [
            | inl d ↦
                rw (due_yet, d)
                  (keep_alive-Advances at (ping net conn).1
                    (emit (write_calls conn (ping net conn).0) s) later
                    (emit-AllHealthy (write_calls conn (ping net conn).0) s healthy))
            | inr d ↦
                rw (due_yet, d)
                  (with_fewer (get_heartbeat_deadline c) s (ground (arith, d)) healthy)
          ]

  goes_or_breaks :
      {t t' : HeartbeatTimer} {s s' : Server} → ¬ ◌≡◌ {A = Checked} (goes_on t s) (breaks t' s')
  goes_or_breaks e = ground (arith, e)

  -- A round breaks with nothing due, or goes on with fewer.
  pub round_progress :
      (at : ℕ) (due : List ℕ) (t : HeartbeatTimer) (s : Server)
      → now ≤ at
      → IsTimer t
      → AllHealthy s
      → Covers due t
      → ((t' : HeartbeatTimer) × (check_round net now at t s ≡ breaks t' s) × NoneDue t')
        ⊎ Advances due (check_round net now at t s)
  round_progress at due t s later v healthy covers = elim (check_round-stops net now at t s v) [
    | inr done ↦ inl done
    | inl (t₁, s₁, goes) ↦ elim (empty_or_not net now t) [
      | inl none_there ↦ absurd (
          goes_or_breaks
            (sym goes ∙ check_round_empty net now at t s (pop-none t.queue v.queue none_there)))
      | inr some_there ↦
          let (q, a, popped, x, _) = pop-Extracted t.queue v.queue some_there in
          elim (Bool-cases (leb_ℤ (pos now) (q.item_at a).priority)) [
            | inl d ↦
                absurd (
                  goes_or_breaks (sym goes ∙ early net now at t s v q a popped (ground (arith, d))))
            | inr d ↦ inr (
                rw (check_round_item net now at a q t s popped) (
                  due_round-Advances a due t q v x covers (ground (arith, d, x.priorities a)) s
                    healthy at later))
          ]
    ]
  ]
