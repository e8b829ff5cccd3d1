-- ===== src/Broker/Intervals.antt =====
-- broker/conn_handler.go: `getIntervals`, on integers of 32 bits.
use longcom.Base.{ℕ, ◌*◌, ◌<◌, ◌≡◌, arith, if◌then◌else◌}
use longcom.Base.Int.{ℤ, pos, negsuc, pos_part, leb_ℤ, ltb_ℤ, ◌≤ℤ◌, ◌<ℤ◌, wrap_signed}

-- Seconds of `defaultHeartbeatInterval`.
abbrev pub default_interval : ℕ
default_interval = 30

abbrev pub interval_of : ℤ → ℕ
interval_of heartbeat_interval =
    if leb_ℤ heartbeat_interval (pos 0) then default_interval else pos_part heartbeat_interval

-- The interval, which is positive, and the deadline; twice the interval is an int32.
unfoldable pub get_intervals : (heartbeat_interval heartbeat_deadline_interval : ℤ) → ℤ × ℤ
unfolding wrap_signed
get_intervals heartbeat_interval heartbeat_deadline_interval =
    let i = interval_of heartbeat_interval in
    let twice = wrap_signed 31 (2 * i) in
    (pos i, if ltb_ℤ heartbeat_deadline_interval twice then twice else heartbeat_deadline_interval)

wrap_fits : (n : ℕ) → n < 2147483648 → wrap_signed 31 n ≡ pos n
unfolding wrap_signed
wrap_fits n h = ground (arith, h)

interval_small :
    (hi : ℤ) → hi <ℤ pos 1073741824 → (0 < interval_of hi) × (interval_of hi < 1073741824)
interval_small (pos n) h = ground (arith, h)
interval_small (negsuc n) h = ground (arith, h)

at_least : (i : ℕ) (hd : ℤ) → pos i ≤ℤ (if ltb_ℤ hd (pos i) then pos i else hd)
at_least i hd = ground arith

-- The interval is positive and the deadline at least twice as long, if twice the interval that was
-- asked for fits 32 bits.
pub get_intervals_lem :
    (hi hd : ℤ)
    → hi <ℤ pos 1073741824
    → (pos 0 <ℤ (get_intervals hi hd).0) × (pos (2 * interval_of hi) ≤ℤ (get_intervals hi hd).1)
unfolding get_intervals
get_intervals_lem hi hd h =
    let (there, small) = interval_small hi h in
    let fits = wrap_fits (2 * interval_of hi) (omega (arith, small)) in
    (omega (arith, there), rw fits (at_least (2 * interval_of hi) hd))
