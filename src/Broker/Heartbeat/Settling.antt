-- ===== src/Broker/Heartbeat/Settling.antt =====
-- broker/heartbeat.go: `checkTimeoutConn` comes to an end of what is due, if no connection is dead.
use longcom.Base.{
  ℕ, zero, suc, ◌+◌, ◌<◌, ◌≤◌, ◌≡◌, sym, true, inl, inr, List, [], ◌∷◌, length, contains, nat_eq,
  text_eq, arith, subst, get_or,
}
use longcom.Broker.Conn.{Network}
use longcom.Broker.PriorityQueue.{len}
use longcom.Broker.Server.{Server}
use longcom.Broker.Heartbeat.{
  HeartbeatTimer, goes_on, breaks, check_round, check_rounds, check_timeout_conn,
}
use longcom.Broker.Heartbeat.Timer.{IsTimer}
use longcom.Broker.Heartbeat.Health.{AllHealthy}
use longcom.Broker.Heartbeat.Progress.{Covers, NoneDue, round_progress}

module _ (net : Network) (now : ℕ) where
  rounds_next :
      (left : ℕ) (clock : ℕ → ℕ) (t t' : HeartbeatTimer) (s s' : Server)
      → check_round net now (clock left) t s ≡ goes_on t' s'
      → check_rounds net now (suc left) clock t s ≡ check_rounds net now left clock t' s'
  unfolding check_rounds
  rounds_next left clock t t' s s' e = ground (arith, e)

  rounds_end :
      (left : ℕ) (clock : ℕ → ℕ) (t t' : HeartbeatTimer) (s s' : Server)
      → check_round net now (clock left) t s ≡ breaks t' s'
      → check_rounds net now (suc left) clock t s ≡ (t', s')
  unfolding check_rounds
  rounds_end left clock t t' s s' e = ground (arith, e)

  rounds-NoneDue :
      (left : ℕ) (clock : ℕ → ℕ) (due : List ℕ) (t : HeartbeatTimer) (s : Server)
      → ((n : ℕ) → now ≤ clock n)
      → IsTimer t
      → AllHealthy s
      → Covers net now due t
      → length due ≤ left
      → NoneDue net now (check_rounds net now (suc left) clock t s).0
  rounds-NoneDue zero clock due t s later v healthy covers enough =
      elim (round_progress net now (clock zero) due t s (later zero) v healthy covers) [
        | inl (t', e, none_due) ↦
            subst (λ (r : HeartbeatTimer × Server). NoneDue net now r.0)
              (sym (rounds_end zero clock t t' s s e)) none_due
        | inr d ↦ absurd (omega (arith, d.fewer))
      ]
  rounds-NoneDue (suc left) clock due t s later v healthy covers enough =
      elim (round_progress net now (clock (suc left)) due t s (later (suc left)) v healthy covers) [
        | inl (t', e, none_due) ↦
            subst (λ (r : HeartbeatTimer × Server). NoneDue net now r.0)
              (sym (rounds_end (suc left) clock t t' s s e)) none_due
        | inr d ↦
            subst (λ (r : HeartbeatTimer × Server). NoneDue net now r.0)
              (sym (rounds_next (suc left) clock t d.timer s d.server d.goes))
              (rounds-NoneDue left clock d.still_due d.timer d.server later d.in_order d.healthy
                d.covered (omega (arith, d.fewer)))
      ]

one_more_round : (n : ℕ) → suc n ≡ n + 1
one_more_round n = omega arith

contains-get_or : (xs : List ℕ) (i d : ℕ) → i < length xs → contains xs (get_or xs i d) ≡ true
unfolding contains
contains-get_or [] i d h = absurd (omega arith)
contains-get_or (x ∷ xs) zero d h = ground (arith, nat_eq.beq_iff x x)
contains-get_or (x ∷ xs) (suc i) d h = ground (arith, contains-get_or xs i d)

-- If no connection is dead, each has an interval of a second at least, the clock does not go back,
-- and the queue of a timer in order is no longer than `maxCheckTimeoutConn`, then
-- `checkTimeoutConn`, whatever becomes of the pings, ends with no item that has a priority before
-- now: its rounds are enough to come to what is not due.
pub check_timeout_conn-NoneDue :
    (net : Network) (now : ℕ) (clock : ℕ → ℕ) (t : HeartbeatTimer) (s : Server)
    → ((n : ℕ) → now ≤ clock n)
    → IsTimer t
    → AllHealthy s
    → len t.queue ≤ t.max_check_timeout_conn
    → NoneDue net now (check_timeout_conn net now clock t s).0
unfolding check_timeout_conn
check_timeout_conn-NoneDue net now clock t s later v healthy enough =
    subst (λ n. NoneDue net now (check_rounds net now n clock t s).0)
      (one_more_round t.max_check_timeout_conn)
      (rounds-NoneDue net now t.max_check_timeout_conn clock t.queue.slots t s later v healthy
        (λ b (i, below, e) due.
          subst (λ c. contains t.queue.slots c ≡ true) e (contains-get_or t.queue.slots i 0 below))
        enough)
