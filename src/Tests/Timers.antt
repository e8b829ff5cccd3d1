-- ===== src/Tests/Timers.antt =====
-- The heartbeat timer with the connection 0 of Tests/Servers.
use longcom.Base.{
  Text, ℕ, zero, suc, ◌≡◌, ◌≢◌, ◌≤◌, refl, inl, List, [], ◌∷◌, none, some, nat_eq, arith, bytes,
  subst,
}
use longcom.Base.Int.{pos, ◌≤ℤ◌, ◌<ℤ◌}
use longcom.Base.Dict.{load}
use longcom.Base.Run.{Run, ok, panic}
use longcom.Errors.{Error, other}
use longcom.Broker.Conn.{Network, ping_frame, get_heartbeat_deadline, ping}
use longcom.Broker.TimerOps.{TimerOp, add_conn_op, remove_conn_op, update_conn_op}
use longcom.Broker.PriorityQueue.{PriorityQueue, len, push, pop}
use longcom.Broker.PriorityQueue.Swap.{Holds}
use longcom.Broker.PriorityQueue.Operations.{Extracted}
use longcom.Broker.PriorityQueue.Taking.{pop-Extracted}
use longcom.Broker.Gnet.{on_opened}
use longcom.Broker.Server.{Server}
use longcom.Broker.Server.Lifecycle.{new_server}
use longcom.Broker.Server.Registration.{IsSound}
use longcom.Broker.Server.Close.{IsShut, IsAbsent}
use longcom.Broker.Heartbeat.{
  HeartbeatTimer, new_heartbeat_timer, goes_on, run_op, check_round, check_timeout_conn,
}
use longcom.Broker.Heartbeat.Timer.{IsTimer, new_heartbeat_timer-IsTimer}
use longcom.Broker.Heartbeat.Ops.{run_op-IsTimer}
use longcom.Broker.Heartbeat.Checks.{check_timeout_conn-IsTimer}
use longcom.Broker.Heartbeat.Health.{AllHealthy}
use longcom.Broker.Heartbeat.Progress.{NoneDue}
use longcom.Broker.Heartbeat.Settling.{check_timeout_conn-NoneDue}
use longcom.Broker.Heartbeat.Schedule.{schedule, schedule_ops, run_ops, AddsNew, no_more, then_op}
use longcom.Broker.Heartbeat.Refine.{run_ops-schedule}
use longcom.Broker.Heartbeat.Rounds.{
  Reprioritized, kept_conn, pinged, check_round-closes, check_round-keeps,
}
use longcom.Tests.Servers.{opened, opened-init, opened-IsSound}

empty_timer : HeartbeatTimer
empty_timer = new_heartbeat_timer 10

empty_timer-IsTimer : IsTimer empty_timer
unfolding empty_timer
empty_timer-IsTimer = new_heartbeat_timer-IsTimer 10

empty_timer-new : (c : ℕ) → load c empty_timer.conn_to_pq_item ≡ none
unfolding empty_timer new_heartbeat_timer load
empty_timer-new c = refl

abbrev timer_of : Run HeartbeatTimer → HeartbeatTimer
timer_of (ok t) = t
timer_of panic = empty_timer

one_timer : HeartbeatTimer
unfolding run_op
one_timer = timer_of (run_op opened.conn_at (add_conn_op 0) empty_timer)

one_timer_lem : run_op opened.conn_at (add_conn_op 0) empty_timer ≡ ok one_timer
unfolding one_timer run_op
one_timer_lem = refl

one_timer-IsTimer : IsTimer one_timer
one_timer-IsTimer =
    let (t', returned, v) =
      run_op-IsTimer opened.conn_at (add_conn_op 0) empty_timer empty_timer-IsTimer
        (λ c e. empty_timer-new c) in
    let same : t' ≡ one_timer = cc one_timer_lem in subst IsTimer same v

one_timer-slots : one_timer.queue.slots ≡ 0 ∷ []
unfolding one_timer run_op empty_timer new_heartbeat_timer push
one_timer-slots = refl

one_timer-item :
    one_timer.queue.item_at 0 ≡ record { value = 0; priority = pos 130; index = some 0 }
unfolding one_timer run_op empty_timer new_heartbeat_timer push opened on_opened new_server
one_timer-item = refl

one_timer-Holds : Holds one_timer.queue 0
one_timer-Holds = (0, ground (arith, one_timer-slots), ground (arith, one_timer-slots))

new-item : ¬ Holds one_timer.queue 1
new-item (zero, h, e) = ground (arith, one_timer-slots)
new-item (suc c, h, e) = ground (arith, one_timer-slots)

pop-Extracted_example :
    (q' : PriorityQueue) × (a : ℕ) × (pop one_timer.queue ≡ some (q', a))
    × Extracted a one_timer.queue q'
    × ((b : ℕ)
        → Holds one_timer.queue b
        → (one_timer.queue.item_at a).priority ≤ℤ (one_timer.queue.item_at b).priority)
pop-Extracted_example =
    pop-Extracted one_timer.queue one_timer-IsTimer.queue (ground (arith, one_timer-slots))

abbrev write_error : Error
write_error = other (bytes "broken pipe")

abbrev broken : Network
broken = record { compile_frame = λ kind text. some text; async_write = λ c text. some write_error }

abbrev working : Network
working = record { compile_frame = λ kind text. some text; async_write = λ c text. none }

check_timeout_conn-IsTimer_example :
    IsTimer (check_timeout_conn working 200 (λ left. 201) one_timer opened).0
check_timeout_conn-IsTimer_example =
    check_timeout_conn-IsTimer working 200 (λ left. 201) one_timer opened one_timer-IsTimer

alone :
    (b : ℕ)
    → Holds one_timer.queue b
    → 0 ≢ b
    → (one_timer.queue.item_at 0).priority <ℤ (one_timer.queue.item_at b).priority
alone b (zero, h, e) n = absurd (ground (arith, one_timer-slots))
alone b (suc c, h, e) n = absurd (ground (arith, one_timer-slots))

is_due : (one_timer.queue.item_at 0).priority <ℤ pos 200
is_due = ground (arith, one_timer-item)

opened-deadline : get_heartbeat_deadline (opened.conn_at 0) ≡ pos 130
unfolding opened on_opened new_server get_heartbeat_deadline
opened-deadline = refl

is_late : get_heartbeat_deadline (opened.conn_at (one_timer.queue.item_at 0).value) ≤ℤ pos 200
is_late = ground (arith, one_timer-item, opened-deadline)

one_timer-init : (opened.conn_at (one_timer.queue.item_at 0).value).state ≡ 1
one_timer-init = ground (arith, one_timer-item, opened-init)

ping_fails : (ping broken (one_timer.queue.item_at 0).value).1 ≡ some write_error
unfolding ping
ping_fails = refl

ping_works : (ping working (one_timer.queue.item_at 0).value).1 ≡ none
unfolding ping
ping_works = refl

check_round-closes_example :
    (t' : HeartbeatTimer) × (s' : Server) × (check_round broken 200 201 one_timer opened
      ≡ goes_on t' s')
    × IsTimer t'
    × (load (one_timer.queue.item_at 0).value t'.conn_to_pq_item ≡ none)
    × IsShut (s'.conn_at (one_timer.queue.item_at 0).value)
    × IsSound s'
    × IsAbsent (one_timer.queue.item_at 0).value s'
check_round-closes_example =
    check_round-closes broken 200 201 one_timer opened one_timer-IsTimer 0 one_timer-Holds alone
      is_due is_late write_error ping_fails opened-IsSound (inl one_timer-init)

check_round-keeps_example :
    (t' : HeartbeatTimer) × (frame : Text) × (check_round working 200 201 one_timer opened
      ≡ goes_on t' (
          pinged working 200 201 one_timer opened one_timer-IsTimer 0 one_timer-Holds alone is_due
            is_late frame))
    × (working.compile_frame ping_frame [] ≡ some frame)
    × IsTimer t'
    × Reprioritized 0
        (get_heartbeat_deadline (
          kept_conn working 200 201 one_timer opened one_timer-IsTimer 0 one_timer-Holds alone
            is_due is_late))
        one_timer
        t'
check_round-keeps_example =
    check_round-keeps working 200 201 one_timer opened one_timer-IsTimer 0 one_timer-Holds alone
      is_due is_late ping_works

opened-AllHealthy : AllHealthy opened
unfolding opened on_opened new_server
opened-AllHealthy zero = record { alive = refl; patient = omega arith }
opened-AllHealthy (suc c) = record { alive = ground arith; patient = ground arith }

one_timer-fits : len one_timer.queue ≤ one_timer.max_check_timeout_conn
unfolding one_timer run_op empty_timer new_heartbeat_timer push
one_timer-fits = omega arith

-- The deadline 130 has passed at 200.
check_timeout_conn-NoneDue_example :
    NoneDue working 200 (check_timeout_conn working 200 (λ left. 201) one_timer opened).0
check_timeout_conn-NoneDue_example =
    check_timeout_conn-NoneDue working 200 (λ left. 201) one_timer opened (λ n. omega arith)
      one_timer-IsTimer opened-AllHealthy one_timer-fits

abbrev three_ops : List TimerOp
three_ops = add_conn_op 0 ∷ update_conn_op 0 140 ∷ remove_conn_op 0 ∷ []

nothing_scheduled : (c : ℕ) → schedule empty_timer c ≡ none
unfolding schedule empty_timer new_heartbeat_timer load
nothing_scheduled c = refl

three_ops-AddsNew : AddsNew opened.conn_at three_ops (schedule empty_timer)
three_ops-AddsNew =
    then_op (λ c e. nothing_scheduled c)
      (then_op (λ c e. absurd (ground (arith, e)))
        (then_op (λ c e. absurd (ground (arith, e))) no_more))

run_ops-schedule_example :
    (t' : HeartbeatTimer) × (run_ops opened.conn_at three_ops empty_timer ≡ ok t')
    × IsTimer t'
    × (schedule t' ≡ schedule_ops opened.conn_at three_ops (schedule empty_timer))
run_ops-schedule_example =
    run_ops-schedule opened.conn_at three_ops empty_timer empty_timer-IsTimer three_ops-AddsNew
