-- ===== src/Broker/Gnet.antt =====
-- broker/gnet.go: what gnet calls on the server when a connection opens, closes or has data, and of
-- broker/conn.go `newConn` and `setDead`. A gnet connection is a number.
use longcom.Base.{ℕ, ◌+◌, ◌-◌, ◌%◌, ◌^◌, [], ◌∷◌, ◌++◌, Option, none, some, Text, nat_eq}
use longcom.Base.Dict.{load, store, delete}
use longcom.Broker.Conn.{Conn, new_conn, set_dead}
use longcom.Broker.Server.{Server, write_conn, close_conn}
use longcom.Broker.TimerOps.{TimerOp, add_conn_op, remove_conn_op, update_conn_op}

-- `gnet.None` and `gnet.Close`
pub data Action : Type 0 where
  no_action close_action : Action

unfoldable pub incr_conn_count : Server → Server
incr_conn_count s = record s { conn_count = s.conn_count + 1 }

-- The count is that of the connections that gnet has open, so it is not 0 here.
unfoldable pub decr_conn_count : Server → Server
decr_conn_count s = record s { conn_count = s.conn_count - 1 }

-- A uint64 counter.
unfoldable pub fetch_next_luid : Server → Server × ℕ
fetch_next_luid s = let luid = (s.next_luid + 1) % 2 ^ 64 in (record s { next_luid = luid }, luid)

unfoldable pub put_timer_op : TimerOp → Server → Server
put_timer_op op s = record s { timer_ops = s.timer_ops ++ op ∷ [] }

allocate : Conn → Server → ℕ × Server
unfolding write_conn
allocate c s = (s.next_conn, write_conn s.next_conn c (record s { next_conn = s.next_conn + 1 }))

-- `OnOpened`. `uid` is the random id, `none` if `uuid.NewRandom` fails.
unfoldable pub on_opened : (gnet_conn : ℕ) (uid : Option Text) (now : ℕ) → Server → Server × Action
unfolding incr_conn_count fetch_next_luid allocate new_conn put_timer_op
on_opened gnet_conn none now s = (incr_conn_count s, close_action)
on_opened gnet_conn (some connection_id) now s =
    let (s₁, luid) = fetch_next_luid (incr_conn_count s) in
    let (conn, s₂) = allocate (new_conn connection_id luid now) s₁ in
    let s₃ = record s₂ { gnet_conn_to_conn = store gnet_conn conn s₂.gnet_conn_to_conn } in
    (put_timer_op (add_conn_op conn) s₃, no_action)

-- `OnClosed`. The error of `Close` is dropped.
unfoldable pub on_closed : (gnet_conn now : ℕ) → Server → Server
unfolding decr_conn_count put_timer_op close_conn
on_closed gnet_conn now s =
    let s₁ = decr_conn_count s in
    elim (load gnet_conn s₁.gnet_conn_to_conn) [
      | none ↦ s₁
      | some conn ↦
          let s₂ = record s₁ { gnet_conn_to_conn = delete gnet_conn s₁.gnet_conn_to_conn } in
          (close_conn conn now (put_timer_op (remove_conn_op conn) s₂)).0
    ]

-- `React`: the connection that gets the data, or the order to close.
unfoldable pub react : (gnet_conn : ℕ) → Server → Option ℕ
react gnet_conn s = load gnet_conn s.gnet_conn_to_conn

-- `setDead`, with its operation for the timer.
unfoldable pub set_dead_conn : (conn now : ℕ) → Server → Server
unfolding set_dead write_conn put_timer_op
set_dead_conn conn now s =
    let (c, check) = set_dead now (s.conn_at conn) in
    elim check [ none ↦ s | some ts ↦ put_timer_op (update_conn_op conn ts) (write_conn conn c s) ]
