-- ===== src/Broker/TimerOps.antt =====
-- broker/heartbeat.go: the operations that `AddConn`, `RemoveConn` and `UpdateConn` put into the
-- channel of the heartbeat timer. A connection is the address of its `Conn`.
use longcom.Base.{ℕ}

pub data TimerOp : Type 0 where
  add_conn_op remove_conn_op : (conn : ℕ) → TimerOp
  update_conn_op : (conn update_priority : ℕ) → TimerOp
