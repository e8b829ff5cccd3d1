-- ===== src/Broker/Heartbeat.antt =====
-- broker/heartbeat.go: the heartbeat timer. Its goroutine `Run` alone touches the queue and the map,
-- one operation of its channel or one check at a time. The items of the queue are allocated at
-- `next_item`. The flag of the ticker and the exit channel only decide which of the two comes next.
pub mod Timer
pub mod Rounds
pub mod Stops
pub mod Ops
pub mod Checks
pub mod Schedule
pub mod Refine
pub mod Health
pub mod Progress
pub mod Settling
use longcom.Base.{
  ℕ, suc, ◌+◌, Bool, true, false, List, [], ◌∷◌, Option, none, some, if◌then◌else◌, ◌==◌, nat_eq,
  zero,
}
use longcom.Base.Int.{ℤ, pos, leb_ℤ}
use longcom.Base.Dict.{Dict, load, store, delete}
use longcom.Base.Run.{Run, ok, panic, ◌>>=◌}
use longcom.Errors.{Error}
use longcom.Broker.Conn.{Conn, Network, Sent, get_heartbeat_deadline, ping}
use longcom.Broker.TimerOps.{TimerOp, add_conn_op, remove_conn_op, update_conn_op}
use longcom.Broker.PriorityQueue.{
  PqItem, PriorityQueue, len, set_priority, push, pop, remove, update,
}
use longcom.Broker.Server.{Server, write_conn, emit, close_conn}
use longcom.Broker.Handler.{receive_frame_at, write_calls}

pub record HeartbeatTimer : Type 0 where
  pub queue : PriorityQueue
  pub conn_to_pq_item : Dict ℕ ℕ
  pub next_item : ℕ
  pub max_check_timeout_conn : ℕ

unfoldable pub new_heartbeat_timer : ℕ → HeartbeatTimer
new_heartbeat_timer max = record {
  queue = record {
    slots = [];
    item_at = λ a. record { value = 0; priority = pos 0; index = some 0 };
  };
  conn_to_pq_item = [];
  next_item = 0;
  max_check_timeout_conn = max;
}

unfoldable pub put_item : ℕ → PqItem → PriorityQueue → PriorityQueue
put_item a item q = record q { item_at = λ b. if a == b then item else q.item_at b }

-- The index of a new item is Go's zero.
unfoldable pub add_conn : (conn : ℕ) → Conn → HeartbeatTimer → HeartbeatTimer
unfolding put_item push get_heartbeat_deadline
add_conn conn c t =
    let a = t.next_item in
    let item : PqItem = record {
      value = conn;
      priority = get_heartbeat_deadline c;
      index = some 0;
    } in
    record t {
      queue = push a (put_item a item t.queue);
      conn_to_pq_item = store conn a t.conn_to_pq_item;
      next_item = a + 1;
    }

abbrev with_queue : HeartbeatTimer → Run PriorityQueue → Run HeartbeatTimer
with_queue t (ok q) = ok (record t { queue = q })
with_queue t panic = panic

unfoldable pub remove_conn : (conn : ℕ) → HeartbeatTimer → Run HeartbeatTimer
unfolding remove
remove_conn conn t = elim (load conn t.conn_to_pq_item) [
  | none ↦ ok t
  | some a ↦
      with_queue (record t { conn_to_pq_item = delete conn t.conn_to_pq_item }) (remove a t.queue)
]

unfoldable pub update_conn : (conn : ℕ) → ℤ → HeartbeatTimer → Run HeartbeatTimer
unfolding update
update_conn conn priority t = elim (load conn t.conn_to_pq_item) [
  | none ↦ ok t
  | some a ↦ with_queue t (update a priority t.queue)
]

-- The branch of `Run` for an operation.
unfoldable pub run_op : (ℕ → Conn) → TimerOp → HeartbeatTimer → Run HeartbeatTimer
unfolding add_conn remove_conn update_conn
run_op conn_at (add_conn_op conn) t = ok (add_conn conn (conn_at conn) t)
run_op conn_at (remove_conn_op conn) t = remove_conn conn t
run_op conn_at (update_conn_op conn priority) t = update_conn conn (pos priority) t

-- An item goes back into the queue with a new priority.
unfoldable pub push_again : ℕ → ℤ → HeartbeatTimer → HeartbeatTimer
unfolding push
push_again a priority t = record t {
  queue = push a (record t.queue { item_at = set_priority a priority t.queue.item_at });
}

-- What became of a round of `checkTimeoutConn`: the loop goes on, or breaks.
pub data Checked : Type 0 where
  goes_on breaks : HeartbeatTimer → Server → Checked

module _ (net : Network) (now : ℕ) where
  -- A connection that is due: pinged, and closed if that fails. `at` is the time of the second
  -- reading of the clock.
  unfoldable pub keep_alive :
      (at : ℕ) → Option Error → (a conn : ℕ) → HeartbeatTimer → Server → Checked
  unfolding write_conn receive_frame_at get_heartbeat_deadline push_again close_conn
  keep_alive at none a conn t s =
      let c = receive_frame_at at (s.conn_at conn) in
      goes_on (push_again a (get_heartbeat_deadline c) t) (write_conn conn c s)
  keep_alive at (some e) a conn t s =
      goes_on (record t { conn_to_pq_item = delete conn t.conn_to_pq_item })
        (close_conn conn at s).0

  -- A round with the item that was popped.
  unfoldable pub check_item : (at a : ℕ) → HeartbeatTimer → Server → Checked
  unfolding push keep_alive push_again ping emit write_calls get_heartbeat_deadline
  check_item at a t s =
      let item = t.queue.item_at a in
      let conn = item.value in
      let deadline = get_heartbeat_deadline (s.conn_at conn) in
      let sent = ping net conn in
      if leb_ℤ (pos now) item.priority
      then breaks (record t { queue = push a t.queue }) s
      else if leb_ℤ deadline (pos now)
      then keep_alive at sent.1 a conn t (emit (write_calls conn sent.0) s)
      else goes_on (push_again a deadline t) s

  unfoldable pub check_round : (at : ℕ) → HeartbeatTimer → Server → Checked
  unfolding pop check_item
  check_round at t s = elim (pop t.queue) [
    | none ↦ breaks t s
    | some (q, a) ↦ check_item at a (record t { queue = q }) s
  ]

  check_rounds : ℕ → (ℕ → ℕ) → HeartbeatTimer → Server → HeartbeatTimer × Server
  unfolding check_round
  check_rounds zero clock t s = (t, s)
  check_rounds (suc left) clock t s = elim (check_round (clock left) t s) [
    | goes_on t' s' ↦ check_rounds left clock t' s'
    | breaks t' s' ↦ (t', s')
  ]

  -- `checkTimeoutConn`: the counter is tested before it is raised, so one round more than the bound
  -- is made. `clock` is the time in the round with so many left.
  unfoldable pub check_timeout_conn : (ℕ → ℕ) → HeartbeatTimer → Server → HeartbeatTimer × Server
  unfolding check_rounds
  check_timeout_conn clock t s = check_rounds (t.max_check_timeout_conn + 1) clock t s
