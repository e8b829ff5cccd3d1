-- ===== src/Broker/Heartbeat/Refine.antt =====
-- broker/heartbeat.go: the timer and its schedule, over every sequence of operations.
use longcom.Base.{ℕ, ◌≡◌, refl, sym, ap, ◌∙◌, List, [], ◌∷◌, none, subst, arith, nat_eq}
use longcom.Base.Dict.{load}
use longcom.Base.Run.{ok}
use mathlib.Core.Path.{fun_ext}
use longcom.Broker.Conn.{Conn}
use longcom.Broker.TimerOps.{TimerOp}
use longcom.Broker.Heartbeat.{HeartbeatTimer}
use longcom.Broker.Heartbeat.Schedule.{schedule, schedule_ops, run_ops, AddsNew, then_op}
use longcom.Broker.Heartbeat.Timer.{IsTimer}
use longcom.Broker.Heartbeat.Ops.{run_op-schedule}

unscheduled : (t : HeartbeatTimer) (c : ℕ) → schedule t c ≡ none → load c t.conn_to_pq_item ≡ none
unfolding schedule
unscheduled t c e = ground (arith, e)

-- The timer implements a map from connections to times: for every sequence of the operations that
-- `Run` takes from its channel, in which a connection is added only while the map does not have it,
-- a timer in order does not panic and stays in order, and the priorities of its items, by
-- connection, are what the operations make of the map: `AddConn` sets the deadline of the
-- connection, `UpdateConn` a time if the connection is there, and `RemoveConn` takes it out.
pub run_ops-schedule :
    (conn_at : ℕ → Conn) (ops : List TimerOp) (t : HeartbeatTimer)
    → IsTimer t
    → AddsNew conn_at ops (schedule t)
    → (t' : HeartbeatTimer) × (run_ops conn_at ops t ≡ ok t')
      × IsTimer t'
      × (schedule t' ≡ schedule_ops conn_at ops (schedule t))
unfolding run_ops schedule_ops
run_ops-schedule conn_at [] t v new = (t, refl, v, refl)
run_ops-schedule conn_at (op ∷ ops) t v (then_op new rest) =
    let (u, ran, w, same) = run_op-schedule conn_at op t v (λ c e. unscheduled t c (new c e)) in
    let is = fun_ext same in
    let (t', ends, x, shows) =
      run_ops-schedule conn_at ops u w (subst (AddsNew conn_at ops) (sym is) rest) in
    (t', rw ran ends, x, shows ∙ ap (schedule_ops conn_at ops) is)
