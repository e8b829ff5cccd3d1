-- ===== src/Broker/Heartbeat/Stops.antt =====
-- broker/heartbeat.go: when a round of `checkTimeoutConn` goes on, and what is due when it breaks.
use longcom.Base.{
  ℕ, ◌≡◌, refl, true, false, ◌⊎◌, inl, inr, Option, none, some, nat_eq, arith, Bool-cases,
}
use longcom.Base.Int.{pos, leb_ℤ, ◌≤ℤ◌, ◌<ℤ◌}
use longcom.Errors.{Error}
use longcom.Broker.Conn.{Network, get_heartbeat_deadline}
use longcom.Broker.PriorityQueue.{PriorityQueue, push, pop}
use longcom.Broker.PriorityQueue.Swap.{Holds}
use longcom.Broker.PriorityQueue.Taking.{pop-Extracted, pop-none}
use longcom.Broker.Server.{Server}
use longcom.Broker.Heartbeat.{
  HeartbeatTimer, Checked, goes_on, breaks, keep_alive, check_item, check_round,
}
use longcom.Broker.Heartbeat.Timer.{IsTimer}
use longcom.Broker.Heartbeat.Checks.{
  popped-IsHeld, check_round_item, check_round_empty, empty_or_not, back-Inserted,
}

module _ (net : Network) (now at : ℕ) (t : HeartbeatTimer) (s : Server) (v : IsTimer t) where
  -- The round puts the item back and breaks.
  module _ (q : PriorityQueue) (a : ℕ) (popped : pop t.queue ≡ some (q, a)) where
    pub early :
        pos now ≤ℤ (q.item_at a).priority
        → check_round net now at t s ≡ breaks (record t { queue = push a q }) s
    unfolding check_item
    early h =
        let is : leb_ℤ (pos now) (q.item_at a).priority ≡ true = ground (arith, h) in
        rw (check_round_item net now at a q t s popped, is) refl

    Goes : Checked → Type 0
    Goes k = (t' : HeartbeatTimer) × (s' : Server) × (k ≡ goes_on t' s')

    keep_alive-Goes :
        (e : Option Error) (c : ℕ) (s' : Server)
        → Goes (keep_alive net now at e a c (record t { queue = q }) s')
    unfolding Goes keep_alive
    keep_alive-Goes none c s' = (_, _, refl)
    keep_alive-Goes (some e) c s' = (_, _, refl)

    check_round-Goes : (q.item_at a).priority <ℤ pos now → Goes (check_round net now at t s)
    unfolding Goes check_item
    check_round-Goes h =
        let is : leb_ℤ (pos now) (q.item_at a).priority ≡ false = ground (arith, h) in
        elim (Bool-cases
          (leb_ℤ (get_heartbeat_deadline (s.conn_at (q.item_at a).value)) (pos now))) [
            | inl d ↦ rw (check_round_item net now at a q t s popped, is, d) (keep_alive-Goes _ _ _)
            | inr d ↦ rw (check_round_item net now at a q t s popped, is, d) (_, _, refl)
          ]

  -- A round of `checkTimeoutConn` on a timer in order goes on, or breaks; if it breaks, then the
  -- server is as it was and no item of the queue has a priority before now, so nothing that is due
  -- is left.
  pub check_round-stops :
      ((t' : HeartbeatTimer) × (s' : Server) × (check_round net now at t s ≡ goes_on t' s'))
      ⊎ ((t' : HeartbeatTimer) × (check_round net now at t s ≡ breaks t' s)
          × ((b : ℕ) → Holds t'.queue b → pos now ≤ℤ (t'.queue.item_at b).priority))
  unfolding Goes
  check_round-stops = elim (empty_or_not net now t) [
    | inl e ↦ inr (
      t,
      check_round_empty net now at t s (pop-none t.queue v.queue e),
      λ b (c, h, _). absurd (omega arith),
    )
    | inr h ↦
        let (q, a, popped, x, least) = pop-Extracted t.queue v.queue h in
        let held' = popped-IsHeld a t q v x in
        let put = back-Inserted a (record t { queue = q }) held' q refl (λ b other. refl) refl in
        elim (Bool-cases (leb_ℤ (pos now) (q.item_at a).priority)) [
          | inl d ↦ inr (
            record t { queue = push a q },
            early q a popped (ground (arith, d)),
            λ b k. elim (put.back b k) [
              | inl n ↦ ground (arith, n, d, put.priorities b)
              | inr k' ↦
                  let m = least b (x.back b k').0 in
                  ground (arith, m, d, put.priorities b, x.priorities a, x.priorities b)
            ],
          )
          | inr d ↦ inl (check_round-Goes q a popped (ground (arith, d)))
        ]
  ]
