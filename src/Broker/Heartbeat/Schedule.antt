-- ===== src/Broker/Heartbeat/Schedule.antt =====
-- broker/heartbeat.go: what the timer promises to its callers, as a map from connections to the time
-- at which each is to be looked at, and what the three operations do to that map.
use longcom.Base.{ℕ, ◌≡◌, List, [], ◌∷◌, Option, none, some, if◌then◌else◌, ◌==◌, nat_eq}
use longcom.Base.Int.{ℤ, pos}
use longcom.Base.Dict.{load}
use longcom.Base.Run.{Run, ok, ◌>>=◌}
use longcom.Broker.Conn.{Conn, get_heartbeat_deadline}
use longcom.Broker.TimerOps.{TimerOp, add_conn_op, remove_conn_op, update_conn_op}
use longcom.Broker.Heartbeat.{HeartbeatTimer, run_op}

abbrev pub Schedule : Type 0
Schedule = ℕ → Option ℤ

abbrev priority_of : (ℕ → ℤ) → Option ℕ → Option ℤ
priority_of f none = none
priority_of f (some a) = some (f a)

-- The map that a timer stands for.
unfoldable pub schedule : HeartbeatTimer → Schedule
schedule t c = priority_of (λ a. (t.queue.item_at a).priority) (load c t.conn_to_pq_item)

abbrev pub replaced : ℤ → Option ℤ → Option ℤ
replaced p none = none
replaced p (some _) = some p

unfoldable pub schedule_op : (ℕ → Conn) → TimerOp → Schedule → Schedule
schedule_op conn_at (add_conn_op c) m d =
    if c == d then some (get_heartbeat_deadline (conn_at c)) else m d
schedule_op conn_at (remove_conn_op c) m d = if c == d then none else m d
schedule_op conn_at (update_conn_op c p) m d = if c == d then replaced (pos p) (m d) else m d

unfoldable pub schedule_ops : (ℕ → Conn) → List TimerOp → Schedule → Schedule
unfolding schedule_op
schedule_ops conn_at [] m = m
schedule_ops conn_at (op ∷ ops) m = schedule_ops conn_at ops (schedule_op conn_at op m)

-- `Run` on one operation of its channel after another.
unfoldable pub run_ops : (ℕ → Conn) → List TimerOp → HeartbeatTimer → Run HeartbeatTimer
unfolding run_op
run_ops conn_at [] t = ok t
run_ops conn_at (op ∷ ops) t = run_op conn_at op t >>= λ u. run_ops conn_at ops u

-- A connection is added only while the map does not have it.
pub data AddsNew (conn_at : ℕ → Conn) : List TimerOp → Schedule → Type 0 where
  no_more : {m : Schedule} → AddsNew conn_at [] m
  then_op :
      {op : TimerOp} {ops : List TimerOp} {m : Schedule}
      → ((c : ℕ) → op ≡ add_conn_op c → m c ≡ none)
      → AddsNew conn_at ops (schedule_op conn_at op m)
      → AddsNew conn_at (op ∷ ops) m
