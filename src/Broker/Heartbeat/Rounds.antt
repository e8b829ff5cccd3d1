-- ===== src/Broker/Heartbeat/Rounds.antt =====
-- broker/heartbeat.go: the rounds of `checkTimeoutConn`, by what they do to the connection that is
-- due first.
use longcom.Base.{
  ℕ, ◌≡◌, ◌≢◌, refl, true, false, inl, inr, none, some, ◌==◌, nat_eq, arith, Bool-cases, subst, sym,
  [], ◌∷◌, ◌++◌, Text, Option-cases, if◌then◌else◌,
}
use longcom.Base.Int.{ℤ, pos, leb_ℤ, ◌≤ℤ◌, ◌<ℤ◌}
use longcom.Base.Dict.{load, delete, load-delete}
use longcom.Errors.{Error}
use longcom.Broker.Conn.{Conn, Network, ping_frame, get_heartbeat_deadline, ping}
use longcom.Broker.PriorityQueue.{PriorityQueue, set_priority, push, pop}
use longcom.Broker.PriorityQueue.Swap.{Holds}
use longcom.Broker.PriorityQueue.Operations.{Extracted}
use longcom.Broker.PriorityQueue.Taking.{pop-Extracted}
use longcom.Broker.Server.{Server, writes, emit, write_conn, close_conn}
use longcom.Broker.Server.Registration.{session_of, IsSound, Keeps-IsSoundFor}
use longcom.Broker.Server.Close.{IsOpen, IsShut, IsAbsent, close_conn-shuts}
use longcom.Broker.Handler.{receive_frame_at, write_calls}
use longcom.Broker.Heartbeat.{
  HeartbeatTimer, push_again, goes_on, keep_alive, check_item, check_round,
}
use longcom.Broker.Heartbeat.Timer.{IsTimer, written-Holds, written-kept}
use longcom.Broker.Heartbeat.Checks.{
  popped-IsHeld, check_round_item, dropped-IsTimer, back-Inserted, push_again-IsTimer,
}

-- The timer is as it was, but for the order of its queue and the priority of one item.
pub record Reprioritized (a : ℕ) (p : ℤ) (t t' : HeartbeatTimer) : Type 0 where
  pub kept : (b : ℕ) → Holds t.queue b → Holds t'.queue b
  pub back : (b : ℕ) → Holds t'.queue b → Holds t.queue b
  pub priorities :
      (b : ℕ) → (t'.queue.item_at b).priority ≡ (if a == b then p else (t.queue.item_at b).priority)
  pub values : (b : ℕ) → (t'.queue.item_at b).value ≡ (t.queue.item_at b).value
  pub same_rest : t' ≡ record t { queue = t'.queue }

module _ (net : Network) where
  -- The frame of a ping that is written.
  ping_written :
      (conn : ℕ)
      → (ping net conn).1 ≡ none
      → (frame : Text) × (net.compile_frame ping_frame [] ≡ some frame)
        × ((ping net conn).0 ≡ frame ∷ [])
  unfolding ping
  ping_written conn e = elim (Option-cases (net.compile_frame ping_frame [])) [
    | inl n ↦ absurd (ground (arith, n, e))
    | inr (frame, m) ↦ (frame, m, rw (m, ping) refl)
  ]

module _ (net : Network) (now at : ℕ) (t : HeartbeatTimer) (s : Server) (v : IsTimer t) where
  -- The item that is due first is at the top of the queue.
  module _ (a : ℕ) (held : Holds t.queue a)
      (first : (b : ℕ)
        → Holds t.queue b
        → a ≢ b
        → (t.queue.item_at a).priority <ℤ (t.queue.item_at b).priority) where
    abbrev conn : ℕ
    conn = (t.queue.item_at a).value

    pops : (q : PriorityQueue) × (pop t.queue ≡ some (q, a)) × Extracted a t.queue q
    pops =
        let (i, below, e) = held in
        let (q, b, popped, x, least) = pop-Extracted t.queue v.queue (omega arith) in
        elim (Bool-cases (a == b)) [
          | inl s ↦
              let same : b ≡ a = ground (arith, s) in
              (q, rw (← same) popped, subst (λ n. Extracted n t.queue q) same x)
          | inr s ↦ absurd (ground (arith, s, least a held, first b x.had))
        ]

    module _ (due : (t.queue.item_at a).priority <ℤ pos now)
        (late : get_heartbeat_deadline (s.conn_at conn) ≤ℤ pos now) where
      abbrev asked : Server
      asked = emit (write_calls conn (ping net conn).0) s

      pings :
          (q : PriorityQueue)
          → pop t.queue ≡ some (q, a)
          → (q.item_at a).value ≡ conn
          → (q.item_at a).priority ≡ (t.queue.item_at a).priority
          → check_round net now at t s
            ≡ keep_alive net now at (ping net conn).1 a conn (record t { queue = q }) asked
      unfolding check_item
      pings q popped value priority =
          let not_yet : leb_ℤ (pos now) (t.queue.item_at a).priority ≡ false =
            ground (arith, due) in
          let is_late : leb_ℤ (get_heartbeat_deadline (s.conn_at conn)) (pos now) ≡ true =
            ground (arith, late) in
          rw (check_round_item net now at a q t s popped, value, priority, not_yet, is_late) refl

      asked-IsSound : IsSound s → IsSound asked
      unfolding emit session_of
      asked-IsSound w = Keeps-IsSoundFor {σ = session_of s} (λ d x h. h) refl refl w

      asked-conn : (d : ℕ) → asked.conn_at d ≡ s.conn_at d
      unfolding emit
      asked-conn d = refl

      -- A round of `checkTimeoutConn` with the connection of an item that is due before all others
      -- and before now: if the deadline of the connection has passed and the ping fails, and the
      -- connection is in the state init or authed in a sound server, then the round closes it: it
      -- is in no hub or table of the server and not in the map of the timer, and server and timer
      -- stay in order.
      pub check_round-closes :
          (e : Error)
          → (ping net conn).1 ≡ some e
          → IsSound s
          → IsOpen (s.conn_at conn)
          → (t' : HeartbeatTimer) × (s' : Server) × (check_round net now at t s ≡ goes_on t' s')
            × IsTimer t'
            × (load conn t'.conn_to_pq_item ≡ none)
            × IsShut (s'.conn_at conn)
            × IsSound s'
            × IsAbsent conn s'
      unfolding keep_alive
      check_round-closes e fails w o =
          let (q, popped, x) = pops in
          let value = x.values a in
          let held' = popped-IsHeld a t q v x in
          let (_, shut, sound, absent) =
            close_conn-shuts conn at asked (asked-IsSound w)
              (subst IsOpen (sym (asked-conn conn)) o) in
          (
            record t { queue = q; conn_to_pq_item = delete conn t.conn_to_pq_item },
            (close_conn conn at asked).0,
            rw (pings q popped value (x.priorities a), fails) refl,
            subst
                (λ c.
                  IsTimer (record t { queue = q; conn_to_pq_item = delete c t.conn_to_pq_item }))
                value (dropped-IsTimer a (record t { queue = q }) held'),
            ground (arith, load-delete conn conn t.conn_to_pq_item),
            shut,
            sound,
            absent,
          )

      -- What is left of the connection after an answered ping.
      abbrev pub kept_conn : Conn
      kept_conn = receive_frame_at at (s.conn_at conn)

      -- The server after the ping: the frame is written, and only the connection differs.
      abbrev pub pinged : Text → Server
      pinged frame = record s {
        conn_at = λ c. if conn == c then kept_conn else s.conn_at c;
        calls = s.calls ++ writes conn frame ∷ [];
      }

      -- A round of `checkTimeoutConn` with the connection of an item that is due before all others
      -- and before now: if the deadline of the connection has passed and the ping is written, then
      -- the round writes the frame of that ping and only sets the time of the connection's last
      -- frame in the server, and the timer stays in order, its map and items as they were but for
      -- the new deadline of that item.
      pub check_round-keeps :
          (ping net conn).1 ≡ none
          → (t' : HeartbeatTimer) × (frame : Text) × (check_round net now at t s
              ≡ goes_on t' (pinged frame))
            × (net.compile_frame ping_frame [] ≡ some frame)
            × IsTimer t'
            × Reprioritized a (get_heartbeat_deadline kept_conn) t t'
      unfolding keep_alive push_again write_conn emit write_calls
      check_round-keeps answered =
          let (q, popped, x) = pops in
          let (frame, compiled, sent) = ping_written net conn answered in
          let p = get_heartbeat_deadline kept_conn in
          let held' = popped-IsHeld a t q v x in
          let r : PriorityQueue = record q { item_at = set_priority a p q.item_at } in
          let others : (b : ℕ) → a ≢ b → r.item_at b ≡ q.item_at b = λ b other. ground arith in
          let put = back-Inserted a (record t { queue = q }) held' r refl others (ground arith) in
          (
            push_again a p (record t { queue = q }),
            frame,
            rw (pings q popped (x.values a) (x.priorities a), answered, sent) refl,
            compiled,
            push_again-IsTimer a p (record t { queue = q }) held',
            record {
              kept = λ b h. elim (Bool-cases (a == b)) [
                | inl n ↦ subst (Holds (push a r)) (ground (arith, n)) put.has
                | inr n ↦
                    put.kept b
                      (written-kept a q r refl others held'.out b (x.kept b h (ground (arith, n))))
              ];
              back = λ b h. elim (put.back b h) [
                | inl n ↦ subst (Holds t.queue) n held
                | inr k ↦ (x.back b (written-Holds a q r refl others held'.out b k)).0
              ];
              priorities = λ b. ground (arith, put.priorities b, x.priorities b);
              values = λ b. ground (arith, put.values b, x.values b);
              same_rest = refl;
            },
          )
