-- ===== src/Broker/Heartbeat/Ops.antt =====
-- broker/heartbeat.go: the operations that `Run` takes from its channel, and the invariant of the
-- timer.
use longcom.Base.{
  ℕ, ◌+◌, ◌≡◌, ◌≢◌, refl, inl, inr, none, some, if◌then◌else◌, ◌==◌, nat_eq, arith, Option-cases,
  Bool-cases, subst, sym, ◌∙◌,
}
use longcom.Base.Int.{ℤ, pos}
use longcom.Base.Dict.{Dict, load, store, delete, load-store, load-delete}
use longcom.Base.Run.{ok}
use longcom.Broker.Conn.{Conn, get_heartbeat_deadline}
use longcom.Broker.TimerOps.{TimerOp, add_conn_op, remove_conn_op, update_conn_op}
use longcom.Broker.PriorityQueue.{PqItem, PriorityQueue, push}
use longcom.Broker.PriorityQueue.Swap.{Holds}
use longcom.Broker.PriorityQueue.Operations.{Inserted, push-Inserted}
use longcom.Broker.PriorityQueue.Taking.{remove-Extracted}
use longcom.Broker.PriorityQueue.Changing.{update-Updated}
use longcom.Broker.Heartbeat.{HeartbeatTimer, put_item, add_conn, remove_conn, update_conn, run_op}
use longcom.Broker.Heartbeat.Schedule.{schedule, schedule_op, replaced}
use longcom.Broker.Heartbeat.Timer.{
  Maps, IsTimer, Inserted-Maps, Extracted-Maps, written-IsQueue, written-Holds,
}

Maps-same :
    (m m' : Dict ℕ ℕ) (q : PriorityQueue) → ((d : ℕ) → load d m' ≡ load d m) → Maps m q → Maps m' q
Maps-same m m' q same v = record {
  queued = λ c a e. v.queued c a (sym (same c) ∙ e);
  mapped = λ a h. same _ ∙ v.mapped a h;
}

module _ (conn : ℕ) (c : Conn) (t : HeartbeatTimer) (v : IsTimer t)
    (new : load conn t.conn_to_pq_item ≡ none) where
  abbrev a : ℕ
  a = t.next_item

  abbrev item : PqItem
  item = record { value = conn; priority = get_heartbeat_deadline c; index = some 0 }

  abbrev with_item : PriorityQueue
  with_item = record t.queue { item_at = λ b. if a == b then item else t.queue.item_at b }

  others : (b : ℕ) → a ≢ b → with_item.item_at b ≡ t.queue.item_at b
  others b n = ground arith

  out : ¬ Holds t.queue a
  out h = let k = v.fresh a h in omega arith

  added-Inserted : Inserted a with_item (push a with_item)
  added-Inserted =
      push-Inserted a with_item (written-IsQueue a t.queue with_item refl others out v.queue)
        (λ h. out (written-Holds a t.queue with_item refl others out a h))

  add_conn_lem : add_conn conn c t ≡ record t {
    queue = push a with_item;
    conn_to_pq_item = store conn a t.conn_to_pq_item;
    next_item = a + 1;
  }
  unfolding add_conn put_item
  add_conn_lem = refl

  add_conn-IsTimer : IsTimer (add_conn conn c t)
  add_conn-IsTimer =
      let m = store conn a t.conn_to_pq_item in
      rw add_conn_lem (record {
        queue = added-Inserted.queue;
        maps =
            Inserted-Maps a t.queue with_item refl others out m conn (push a with_item)
              (Maps-same t.conn_to_pq_item (delete conn m) t.queue
                (λ d.
                  ground (arith, load-delete conn d m, load-store conn d a t.conn_to_pq_item, new))
                v.maps)
              (ground (arith, load-store conn conn a t.conn_to_pq_item)) (ground arith)
              added-Inserted;
        fresh = λ b h. elim (added-Inserted.back b h) [
          | inl e ↦ ground (arith, e)
          | inr k ↦
              let f = v.fresh b (written-Holds a t.queue with_item refl others out b k) in
              omega arith
        ];
      })

  pub add_conn-schedule :
      (d : ℕ)
      → schedule (add_conn conn c t) d
        ≡ (if conn == d then some (get_heartbeat_deadline c) else schedule t d)
  unfolding schedule
  add_conn-schedule d = rw add_conn_lem (elim (Option-cases (load d t.conn_to_pq_item)) [
    | inl e ↦ ground (arith, e, load-store conn d a t.conn_to_pq_item, added-Inserted.priorities a)
    | inr (b, e) ↦
        let (held, _) = v.maps.queued d b e in
        let other : a ≢ b = λ n. out (subst (Holds t.queue) (sym n) held) in
        ground (
          arith,
          e,
          new,
          load-store conn d a t.conn_to_pq_item,
          added-Inserted.priorities a,
          added-Inserted.priorities b,
          others b other,
        )
  ])

module _ (conn : ℕ) (t : HeartbeatTimer) (v : IsTimer t) where
  remove_conn-IsTimer :
      (t' : HeartbeatTimer) × (remove_conn conn t ≡ ok t')
      × IsTimer t'
      × ((d : ℕ) → schedule t' d ≡ (if conn == d then none else schedule t d))
  unfolding remove_conn schedule
  remove_conn-IsTimer = elim (Option-cases (load conn t.conn_to_pq_item)) [
    | inl e ↦ (t, ground (arith, e), v, λ d. ground (arith, e))
    | inr (a, e) ↦
        let (held, value) = v.maps.queued conn a e in
        let (q, removed, x) = remove-Extracted t.queue v.queue a held in
        (
          record t { queue = q; conn_to_pq_item = delete conn t.conn_to_pq_item },
          ground (arith, e, removed),
          record {
            queue = x.queue;
            maps =
                subst (λ d. Maps (delete d t.conn_to_pq_item) q) value
                  (Extracted-Maps t.conn_to_pq_item a t.queue q v.maps x);
            fresh = λ b h. v.fresh b (x.back b h).0;
          },
          λ d. elim (Option-cases (load d t.conn_to_pq_item)) [
            | inl f ↦ ground (arith, f, load-delete conn d t.conn_to_pq_item)
            | inr (b, f) ↦ ground (arith, f, load-delete conn d t.conn_to_pq_item, x.priorities b)
          ],
        )
  ]

  update_conn-IsTimer :
      (p : ℤ)
      → (t' : HeartbeatTimer) × (update_conn conn p t ≡ ok t')
        × IsTimer t'
        × ((d : ℕ)
            → schedule t' d ≡ (if conn == d then replaced p (schedule t d) else schedule t d))
  unfolding update_conn schedule
  update_conn-IsTimer p = elim (Option-cases (load conn t.conn_to_pq_item)) [
    | inl e ↦ (t, ground (arith, e), v, λ d. ground (arith, e))
    | inr (a, e) ↦
        let (held, value) = v.maps.queued conn a e in
        let (q, updated, x) = update-Updated a p t.queue v.queue held in
        (
          record t { queue = q },
          ground (arith, e, updated),
          record {
            queue = x.queue;
            maps = record {
              queued = λ d b f. let (h, w) = v.maps.queued d b f in (x.kept b h, x.values b ∙ w);
              mapped = λ b h. ground (arith, x.values b, v.maps.mapped b (x.back b h));
            };
            fresh = λ b h. v.fresh b (x.back b h);
          },
          λ d. elim (Option-cases (load d t.conn_to_pq_item)) [
            | inl f ↦ ground (arith, f, e)
            | inr (b, f) ↦
                let (_, w) = v.maps.queued d b f in
                elim (Bool-cases (a == b)) [
                  | inl n ↦ ground (arith, f, e, n, value, w, x.written)
                  | inr n ↦ ground (arith, f, e, n, x.priorities b)
                ]
          ],
        )
  ]

-- Each operation that `Run` takes from its channel returns without a panic, keeps the timer's
-- invariant and does to the schedule what it is meant to, if a connection that is added is not in the
-- map yet.
pub run_op-schedule :
    (conn_at : ℕ → Conn) (op : TimerOp) (t : HeartbeatTimer)
    → IsTimer t
    → ((c : ℕ) → op ≡ add_conn_op c → load c t.conn_to_pq_item ≡ none)
    → (t' : HeartbeatTimer) × (run_op conn_at op t ≡ ok t')
      × IsTimer t'
      × ((d : ℕ) → schedule t' d ≡ schedule_op conn_at op (schedule t) d)
unfolding run_op schedule_op
run_op-schedule conn_at (add_conn_op c) t v new = (
  add_conn c (conn_at c) t,
  refl,
  add_conn-IsTimer c (conn_at c) t v (new c refl),
  add_conn-schedule c (conn_at c) t v (new c refl),
)
run_op-schedule conn_at (remove_conn_op c) t v new = remove_conn-IsTimer c t v
run_op-schedule conn_at (update_conn_op c p) t v new = update_conn-IsTimer c t v (pos p)

pub run_op-IsTimer :
    (conn_at : ℕ → Conn) (op : TimerOp) (t : HeartbeatTimer)
    → IsTimer t
    → ((c : ℕ) → op ≡ add_conn_op c → load c t.conn_to_pq_item ≡ none)
    → (t' : HeartbeatTimer) × (run_op conn_at op t ≡ ok t') × IsTimer t'
run_op-IsTimer conn_at op t v new =
    let (t', returned, w, _) = run_op-schedule conn_at op t v new in (t', returned, w)
