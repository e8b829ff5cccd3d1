-- ===== src/Broker/Conn.antt =====
-- broker/conn.go and broker/conn_session.go: a connection, its state machine, and what it does by
-- itself. What a connection does to the server that holds it is in Broker/Server.
-- Times are Unix seconds and intervals are nanoseconds, as in `time.Duration`.
use longcom.Base.{
  ℕ, ◌+◌, ◌-◌, ◌*◌, ◌/◌, Bool, true, false, ◌&&◌, List, [], ◌∷◌, Option, none, some, Text, bytes,
  leb, if◌then◌else◌, ◌==◌, nat_eq,
}
use longcom.Base.Int.{ℤ, pos, negsuc}
use longcom.Errors.{Error, known, other, conn_closed}

abbrev pub second : ℕ
second = 1000000000

-- `connStateInit` to `connStateClosed`
abbrev pub conn_state_init : ℕ
conn_state_init = 1

abbrev pub conn_state_authed : ℕ
conn_state_authed = 2

abbrev pub conn_state_closing : ℕ
conn_state_closing = 3

abbrev pub conn_state_closed : ℕ
conn_state_closed = 4

-- `frameUnAssign`, `frameText`, `frameBinary`
abbrev pub frame_un_assign : ℕ
frame_un_assign = 0

abbrev pub frame_text : ℕ
frame_text = 1

abbrev pub frame_binary : ℕ
frame_binary = 2

abbrev pub default_heartbeat_interval : ℕ
default_heartbeat_interval = 30 * second

abbrev pub default_max_inflight_message_count : ℕ
default_max_inflight_message_count = 1024

abbrev pub default_dead_conn_deadline_interval : ℕ
default_dead_conn_deadline_interval = 5 * second

abbrev pub default_dead_conn_heartbeat_deadline : ℤ
default_dead_conn_heartbeat_deadline = negsuc 0

abbrev pub default_update_status_interval : ℕ
default_update_status_interval = 10 * second

pub record ConnectionSession : Type 0 where
  pub connection_id : Text
  pub business : Text
  pub auth_data : Text
  pub alias : Text
  pub callback : Text
  pub topic : Text
  pub connect_time : ℕ

-- It never fails, though its Go type has an error.
unfoldable pub new_connection_session :
    (connection_id business auth_data alias callback topic : Text) (now : ℕ) → ConnectionSession
new_connection_session connection_id business auth_data alias callback topic now = record {
  connection_id = connection_id;
  business = business;
  auth_data = auth_data;
  alias = alias;
  callback = callback;
  topic = topic;
  connect_time = now;
}

-- `cancelled` is the state of `ctx`, and `network_closed` says that the gnet connection was told to
-- close. `conn_err` is what `setErrOnce` kept. The message futures are in Message/Ids.
pub record Conn : Type 0 where
  pub cancelled : Bool
  pub state : ℕ
  pub exit_closed : Bool
  pub connection_id : Text
  pub luid : ℕ
  pub session : Option ConnectionSession
  pub heartbeat_deadline_interval : ℕ
  pub inflight_inbound_message_count : ℕ
  pub conn_err : Option Error
  pub network_closed : Bool
  pub last_receive_frame_time : ℕ
  pub connect_time : ℕ
  pub is_dead_conn : Bool
  pub dead_conn_deadline_interval : ℕ
  pub update_status_interval : ℕ
  pub update_status_last_time : ℕ
  pub frame_type : ℕ

-- `newConn` with the random id, the local id and the time that it reads.
unfoldable pub new_conn : Text → ℕ → ℕ → Conn
new_conn connection_id luid now = record {
  cancelled = false;
  state = conn_state_init;
  exit_closed = false;
  connection_id = connection_id;
  luid = luid;
  session = none;
  heartbeat_deadline_interval = default_heartbeat_interval;
  inflight_inbound_message_count = 0;
  conn_err = none;
  network_closed = false;
  last_receive_frame_time = now;
  connect_time = now;
  is_dead_conn = false;
  dead_conn_deadline_interval = default_dead_conn_deadline_interval;
  update_status_interval = default_update_status_interval;
  update_status_last_time = now;
  frame_type = frame_text;
}

-- `connStateManager.updateState`
unfoldable pub update_state : ℕ → Conn → Conn
update_state state c =
    if c.state == conn_state_closed
    then c
    else if c.state == state
    then c
    else record c { state = state }

unfoldable pub is_authed : Conn → Bool
is_authed c = c.state == conn_state_authed

-- `Exit`: the sync.Once lets a second call do nothing.
unfoldable pub exit : Conn → Conn
exit c = record c { exit_closed = true }

unfoldable pub close_network : Conn → Conn
close_network c = record c { network_closed = true }

unfoldable pub cancel : Conn → Conn
cancel c = record c { cancelled = true }

-- `setConnError`: the first error stays.
unfoldable pub set_conn_error : Error → Conn → Conn
set_conn_error e c = elim c.conn_err [ none ↦ record c { conn_err = some e } | some _ ↦ c ]

unfoldable pub get_heartbeat_deadline : Conn → ℤ
get_heartbeat_deadline c =
    if c.is_dead_conn
    then default_dead_conn_heartbeat_deadline
    else pos (c.last_receive_frame_time + c.heartbeat_deadline_interval / second)

unfoldable pub get_dead_conn_check_ts : ℕ → Conn → ℕ
get_dead_conn_check_ts now c = now + c.dead_conn_deadline_interval / second

-- `setDead`, with the check time that it hands to the heartbeat timer.
unfoldable pub set_dead : ℕ → Conn → Conn × Option ℕ
unfolding get_dead_conn_check_ts
set_dead now c =
    if c.is_dead_conn
    then (c, none)
    else (record c { is_dead_conn = true }, some (get_dead_conn_check_ts now c))

unfoldable pub inc_inflight_message_count : Conn → Conn
inc_inflight_message_count c = record c {
  inflight_inbound_message_count = c.inflight_inbound_message_count + 1;
}

unfoldable pub dec_inflight_message_count : Conn → Conn
dec_inflight_message_count c = record c {
  inflight_inbound_message_count = c.inflight_inbound_message_count - 1;
}

unfoldable pub need_update_status : ℕ → Conn → Bool
need_update_status now c = leb (c.update_status_last_time + c.update_status_interval / second) now

-- The frames of the package ws that the broker sends.
pub data FrameKind : Type 0 where
  ping_frame text_frame binary_frame : FrameKind

-- The network below the broker: `ws.CompileFrame`, which may refuse a frame, and gnet's
-- `AsyncWrite` on a connection, with the error that it returns.
pub record Network : Type 0 where
  pub compile_frame : FrameKind → Text → Option Text
  pub async_write : ℕ → Text → Option Error

-- `Send`: a branch of its `select` that is ready goes before the default; of two, either is taken.
pub data Ready : Type 0 where
  context_first exit_first : Ready

-- The frames handed to the network, and the error.
abbrev pub Sent : Type 0
Sent = List Text × Option Error

abbrev pub context_error : Error
context_error = other (bytes "context canceled")

module _ (net : Network) where
  write : ℕ → Text → Sent
  write at frame = (frame ∷ [], net.async_write at frame)

  unfoldable pub send : Bool → Ready → ℕ → Text → Conn → Sent
  unfolding write
  send context_done ready at frame c =
      if context_done && c.exit_closed
      then (
        [],
        elim ready [ context_first ↦ some context_error | exit_first ↦ some (known conn_closed) ],
      )
      else if context_done
      then ([], some context_error)
      else if c.exit_closed
      then ([], some (known conn_closed))
      else write at frame

  abbrev compile_error : Error
  compile_error = other (bytes "compile frame")

  unfoldable pub send_request_bytes : Bool → Ready → ℕ → Text → Conn → Sent
  unfolding send
  send_request_bytes context_done ready at request c =
      let kind = if c.frame_type == frame_binary then binary_frame else text_frame in
      elim (net.compile_frame kind request) [
        | none ↦ ([], some compile_error)
        | some frame ↦ send context_done ready at frame c
      ]

  -- Neither of the next two looks at the exit channel.
  unfoldable pub ping : ℕ → Sent
  unfolding write
  ping at = elim (net.compile_frame ping_frame []) [
    | none ↦ ([], some compile_error)
    | some frame ↦ write at frame
  ]

  -- `Pong` makes its frame with `ws.NewPingFrame` too.
  unfoldable pub pong : ℕ → Text → Sent
  unfolding write
  pong at payload = elim (net.compile_frame ping_frame payload) [
    | none ↦ ([], some compile_error)
    | some frame ↦ write at frame
  ]
