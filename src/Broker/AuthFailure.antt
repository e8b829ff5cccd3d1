-- ===== src/Broker/AuthFailure.antt =====
-- broker/conn.go: `sendAuthFailedAndSetDead`. The frame that it sends is empty, whatever the error.
use longcom.Base.{ℕ, Bool, ◌≡◌, true, [], Option, Text, arith}
use longcom.Errors.{Error}
use longcom.Broker.Conn.{Network, Ready, send_request_bytes, set_dead}
use longcom.Broker.Server.{Server, emit}
use longcom.Broker.Gnet.{set_dead_conn}
use longcom.Broker.Handler.{write_calls}

-- `makeAuthFailedRspFrame`
unfoldable pub make_auth_failed_rsp_frame : Error → Text
make_auth_failed_rsp_frame err_auth_failed = []

unfoldable pub send_auth_failed_and_set_dead :
    Network
    → (context_done : Bool) → Ready
    → (conn now : ℕ) → Error
    → Server
    → Server × Option Error
unfolding set_dead_conn send_request_bytes emit write_calls make_auth_failed_rsp_frame
send_auth_failed_and_set_dead net context_done ready conn now err_auth_failed s =
    let dead = set_dead_conn conn now s in
    let sent =
      send_request_bytes net context_done ready conn (make_auth_failed_rsp_frame err_auth_failed)
        (dead.conn_at conn) in
    (emit (write_calls conn sent.0) dead, sent.1)

-- A connection that is dead already keeps its place in the heartbeat timer.
pub send_auth_failed_again :
    (net : Network) (context_done : Bool) (ready : Ready) (conn now : ℕ) (e : Error) (s : Server)
    → (s.conn_at conn).is_dead_conn ≡ true
    → (send_auth_failed_and_set_dead net context_done ready conn now e s).0.timer_ops ≡ s.timer_ops
unfolding send_auth_failed_and_set_dead set_dead_conn set_dead emit
send_auth_failed_again net context_done ready conn now e s dead = ground (arith, dead)
