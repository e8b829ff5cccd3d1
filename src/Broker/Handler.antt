-- ===== src/Broker/Handler.antt =====
-- broker/conn_handler.go: what a connection does with the frames of its client. The URL of the
-- upgrade request is parsed by `query_token`, which stands for `url.QueryUnescape`, `url.Parse` and
-- `Query().Get("token")`.
pub mod Inflight
pub mod Requests
use longcom.Base.{
  ℕ, ◌+◌, ◌-◌, ◌*◌, ◌%◌, ◌^◌, Bool, true, false, not, List, [], ◌∷◌, ◌++◌, map, Option, none, some,
  Text, bytes, leb, ltb, if◌then◌else◌, ◌==◌, nat_eq, text_eq,
}
use longcom.Base.Run.{Run, ok, panic, ◌>>=◌}
use longcom.Errors.{Error, known, other, not_connectd}
use longcom.Logic.Token.{LoginClaims, Jwt, verify_token}
use longcom.Broker.Callback.{message_callback_handler}
use longcom.Broker.Conn.{
  Conn, ConnectionSession, Network, Ready, frame_un_assign, default_max_inflight_message_count,
  inc_inflight_message_count, dec_inflight_message_count, is_authed, new_connection_session,
  send_request_bytes, pong,
}
use longcom.Broker.Server.{
  Server, Call, writes, callback_call, write_conn, emit, set_authed, protocol_error,
}

-- `c.lastReceiveFrameTime.Store(time.Now().Unix())`
unfoldable pub receive_frame_at : ℕ → Conn → Conn
receive_frame_at now c = record c { last_receive_frame_time = now }

-- `onFrame` up to its goroutine: the flag tells whether one is started, for `on_request` and then
-- `dec_inflight_message_count`.
unfoldable pub on_frame : ℕ → Conn → Conn × Bool
unfolding receive_frame_at inc_inflight_message_count dec_inflight_message_count
on_frame now c =
    let c₁ = inc_inflight_message_count (receive_frame_at now c) in
    if leb default_max_inflight_message_count c₁.inflight_inbound_message_count
    then (dec_inflight_message_count c₁, false)
    else (c₁, true)

abbrev pub heartbeat_packet : Text
heartbeat_packet = bytes "heartbeat"

abbrev pub heartbeat_success : Text
heartbeat_success = bytes "heartbeat success"

unfoldable pub write_calls : ℕ → List Text → List Call
write_calls conn [] = []
write_calls conn (f ∷ fs) = writes conn f ∷ write_calls conn fs

module _ (net : Network) where
  answer : Ready → ℕ → ConnectionSession → Text → Server → Server
  unfolding send_request_bytes emit write_calls message_callback_handler
  answer ready conn session packet s =
      let c = s.conn_at conn in
      if packet == heartbeat_packet
      then emit
          (write_calls conn (send_request_bytes net c.cancelled ready conn heartbeat_success c).0) s
      else emit (callback_call (message_callback_handler session packet)) s

  -- `onRequest`. An authenticated connection has a session: a nil one would panic on a callback.
  unfoldable pub on_request : Ready → (conn now : ℕ) → Text → Server → Run Server
  unfolding is_authed protocol_error answer
  on_request ready conn now packet s =
      let c = s.conn_at conn in
      if is_authed c
      then elim c.session [
        | some session ↦ ok (answer ready conn session packet s)
        | none ↦
            if packet == heartbeat_packet
            then ok (
                emit
                  (write_calls conn
                    (send_request_bytes net c.cancelled ready conn heartbeat_success c).0)
                  s)
            else panic
      ]
      else ok (protocol_error (known not_connectd) conn now s).0

  -- `onPing`: the time is stored and the payload goes back.
  unfoldable pub on_ping : (conn now : ℕ) → Text → Server → Server
  unfolding receive_frame_at write_conn emit write_calls pong
  on_ping conn now frame s =
      emit (write_calls conn (pong net conn frame).0)
        (write_conn conn (receive_frame_at now (s.conn_at conn)) s)

abbrev pub token_error : Error
token_error = other (bytes "unauthorized")

unfoldable pub set_frame_type : ℕ → Conn → Conn
set_frame_type message_type c =
    if message_type == frame_un_assign then c else record c { frame_type = message_type }

module _ (query_token : Text → Option Text) (jwt : Jwt) where
  pub authenticate : Option LoginClaims → (conn now : ℕ) → Server → Run Server
  unfolding protocol_error set_authed new_connection_session write_conn set_frame_type
  authenticate none conn now s = ok (protocol_error token_error conn now s).0
  authenticate (some claims) conn now s = do
    let id = (s.conn_at conn).connection_id
    let session =
        new_connection_session id claims.app_name [] claims.user_id claims.callback_url claims.topic
          now
    s₁ ← set_authed session claims.topic conn now s
    ok (write_conn conn (set_frame_type claims.message_type (s₁.conn_at conn)) s₁)

  -- `onAuthRequest`
  unfoldable pub on_auth_request : (conn now : ℕ) → Text → Server → Run Server
  unfolding protocol_error verify_token authenticate
  on_auth_request conn now frame s = elim (query_token frame) [
    | none ↦ ok (protocol_error token_error conn now s).0
    | some token ↦ authenticate (verify_token jwt now token) conn now s
  ]
