-- ===== src/Broker/Handler/Inflight.antt =====
-- broker/conn_handler.go: the count of the messages of a connection that are being handled. gnet
-- calls `onFrame` of one connection from one loop; the goroutines that it starts end in any order.
use longcom.Base.{
  ℕ, ◌+◌, ◌-◌, ◌<◌, ◌≡◌, Bool, true, false, List, [], ◌∷◌, arith, ltb, if◌then◌else◌, ◌==◌, nat_eq,
}
use longcom.Broker.Conn.{Conn, default_max_inflight_message_count, dec_inflight_message_count}
use longcom.Broker.Handler.{on_frame}

pub data FrameEvent : Type 0 where
  frame : (now : ℕ) → FrameEvent
  handled : FrameEvent

-- The connection and the number of its goroutines.
pub record Handling : Type 0 where
  pub conn : Conn
  pub running : ℕ

abbrev started : Conn × Bool → ℕ → Handling
started (c, true) n = record { conn = c; running = n + 1 }
started (c, false) n = record { conn = c; running = n }

-- A goroutine can only end if there is one.
unfoldable pub handle : FrameEvent → Handling → Handling
unfolding on_frame dec_inflight_message_count
handle (frame now) h = started (on_frame now h.conn) h.running
handle handled h =
    if h.running == 0
    then h
    else record { conn = dec_inflight_message_count h.conn; running = h.running - 1 }

unfoldable pub handle_all : List FrameEvent → Handling → Handling
handle_all [] h = h
handle_all (e ∷ es) h = handle_all es (handle e h)

pub record IsCounted (h : Handling) : Type 0 where
  pub exact : h.conn.inflight_inbound_message_count ≡ h.running
  pub bounded : h.running < default_max_inflight_message_count

handle-IsCounted : (e : FrameEvent) (h : Handling) → IsCounted h → IsCounted (handle e h)
unfolding handle
handle-IsCounted (frame now) h v = ground arith
handle-IsCounted handled h v = ground arith

-- In every history of frames and of goroutines that end, the counter of a connection is the number
-- of its goroutines, which stays below `defaultMaxInflightMessageCount`, if that holds at the
-- start.
pub handle_all-IsCounted :
    (es : List FrameEvent) (h : Handling) → IsCounted h → IsCounted (handle_all es h)
unfolding handle_all
handle_all-IsCounted [] h v = v
handle_all-IsCounted (e ∷ es) h v = handle_all-IsCounted es (handle e h) (handle-IsCounted e h v)

-- With a right counter, a frame is handled exactly if fewer than 1023 are being handled. Either way
-- the time of the frame is kept, and the counter is right again.
pub on_frame_accepts :
    (now : ℕ) (h : Handling)
    → IsCounted h
    → ((on_frame now h.conn).1 ≡ ltb h.running 1023)
      × ((on_frame now h.conn).0.last_receive_frame_time ≡ now)
      × IsCounted (handle (frame now) h)
unfolding handle
on_frame_accepts now h v = (ground arith, ground arith, ground arith)
