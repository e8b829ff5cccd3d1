-- ===== src/Broker/Websocket.antt =====
-- broker/websocket.go: the codec that cuts the bytes of a gnet connection into frames, and what a
-- connection does with a frame. `inbound` is the buffer that gnet holds for the connection, which
-- `shift_n` shortens, `upgraded` the context that `SetContext` leaves, and `told_to_close` the
-- call of `Close`. The functions that repo/ws has from its origin are the fields of `Library`.
pub mod Stream
pub mod Handshake
pub mod React
use longcom.Base.{
  ℕ, ◌/◌, ◌%◌, Bool, true, false, not, ◌||◌, List, [], ◌∷◌, ◌++◌, Option, none, some, Text,
  if◌then◌else◌, ◌==◌, nat_eq, text_eq,
}
use longcom.Base.Run.{Run, ok, panic, ◌>>=◌}
use longcom.Errors.{Error, known, other, gnet_websocket_codec_need_more_data}
use longcom.Logic.Token.{Jwt}
use longcom.Ws.Frame.{Taken, taken, refused, need_more_data, read_frame_from_bytes}
use longcom.Ws.Http.{HttpRequestLine, take_upgrade_http_header, http_parse_request_line, first_line}
use longcom.Broker.Conn.{Network}
use longcom.Broker.Server.{Server, write_conn}
use longcom.Broker.Gnet.{Action, no_action, close_action}
use longcom.Broker.Handler.{on_frame, on_ping, on_auth_request}

pub record Link : Type 0 where
  pub upgraded : Bool
  pub inbound : Text
  pub told_to_close : Bool

-- What `Decode` returns.
pub data Decoded : Type 0 where
  decoded : Text → Decoded
  undecoded : Error → Decoded

unfoldable pub needs_more : Error → Bool
needs_more (known gnet_websocket_codec_need_more_data) = true
needs_more e = false

unfoldable pub encode : Text → Text
encode buf = buf

module _ (shift_n : ℕ → Text → Text) where
  unfoldable pub shift : Link → Taken → Link × Decoded
  unfolding needs_more
  shift l (taken readoffset frame) =
      (record l { inbound = shift_n readoffset l.inbound }, decoded frame)
  shift l (refused e) = (if needs_more e then l else record l { told_to_close = true }, undecoded e)

  -- `Decode`
  unfoldable pub decode : Link → Link × Decoded
  unfolding shift take_upgrade_http_header read_frame_from_bytes
  decode l =
      if not l.upgraded
      then shift l (take_upgrade_http_header l.inbound)
      else if l.inbound == []
      then (l, undecoded need_more_data)
      else shift l (read_frame_from_bytes l.inbound)

-- `wsutil.Message`
pub record Message : Type 0 where
  pub op_code : ℕ
  pub payload : Text

abbrev pub op_text : ℕ
op_text = 1

abbrev pub op_binary : ℕ
op_binary = 2

abbrev pub op_close : ℕ
op_close = 8

abbrev pub op_ping : ℕ
op_ping = 9

-- `c & 0x8 != 0`
unfoldable pub is_control : ℕ → Bool
is_control c = not (c / 8 % 2 == 0)

-- `Upgrade` returns what is to be sent also with an error. An error of the others is `none`.
pub record Library : Type 0 where
  pub http_parse_version : Text → Option (ℕ × ℕ)
  pub upgrade : Text → Text × Option Error
  pub read_client_message : Text → Option (List Message)
  pub handle_client_control_message : Message → Option Text

-- A connection with its server. `started` has the frames for which `onFrame` has started a
-- goroutine, oldest first.
pub record Peer : Type 0 where
  pub server : Server
  pub link : Link
  pub started : List Text

abbrev pub Reaction : Type 0
Reaction = Peer × Text × Action

abbrev set_context : Peer → Peer
set_context p = record p { link = record p.link { upgraded = true } }

unfoldable pub upgrade_reply : Peer → Text × Option Error → Reaction
upgrade_reply p (out, none) = (set_context p, out, no_action)
upgrade_reply p (out, some e) = (p, out, close_action)

-- `onBinaryData`, with `onFrame` up to its goroutine.
unfoldable pub on_binary_data : (conn now : ℕ) → Text → Peer → Peer
unfolding on_frame write_conn
on_binary_data conn now frame p =
    let (c, starts) = on_frame now (p.server.conn_at conn) in
    record p {
      server = write_conn conn c p.server;
      started = if starts then p.started ++ frame ∷ [] else p.started;
    }

module _ (lib : Library) (net : Network) where
  unfoldable pub on_control : (conn now : ℕ) → Message → Peer → Reaction
  unfolding on_ping
  on_control conn now msg p = elim (lib.handle_client_control_message msg) [
    | none ↦ (p, [], close_action)
    | some out ↦ (
      if msg.op_code == op_ping
          then record p { server = on_ping net conn now msg.payload p.server }
          else p,
      out,
      if msg.op_code == op_close then close_action else no_action,
    )
  ]

  unfoldable pub on_message : (conn now : ℕ) → Message → Peer → Reaction
  unfolding on_control on_binary_data is_control
  on_message conn now msg p =
      if is_control msg.op_code
      then on_control conn now msg p
      else if (msg.op_code == op_binary) || (msg.op_code == op_text)
      then (on_binary_data conn now msg.payload p, [], no_action)
      else (p, [], no_action)

  unfoldable pub on_messages : (conn now : ℕ) → Option (List Message) → Peer → Reaction
  unfolding on_message
  on_messages conn now (some (msg ∷ [])) p = on_message conn now msg p
  on_messages conn now msgs p = (p, [], close_action)

  -- `onReactAfterUpgrade`
  unfoldable pub on_react_after_upgrade : (conn now : ℕ) → Text → Peer → Reaction
  unfolding on_messages
  on_react_after_upgrade conn now frame p = on_messages conn now (lib.read_client_message frame) p

  module _ (query_token : Text → Option Text) (jwt : Jwt) where
    -- The token is looked at before the upgrade, and whatever becomes of it the upgrade goes on.
    unfoldable pub upgrade_request :
        (conn now : ℕ) → Text → Option HttpRequestLine → Peer → Run Reaction
    unfolding on_auth_request upgrade_reply
    upgrade_request conn now inbound none p = ok (p, [], close_action)
    upgrade_request conn now inbound (some req) p = do
      s ← on_auth_request query_token jwt conn now req.uri p.server
      ok (upgrade_reply (record p { server = s }) (lib.upgrade inbound))

    -- `onReactBeforeUpgrade`
    unfoldable pub on_react_before_upgrade : (conn now : ℕ) → Text → Peer → Run Reaction
    unfolding upgrade_request http_parse_request_line first_line
    on_react_before_upgrade conn now inbound p =
        upgrade_request conn now inbound
          (http_parse_request_line lib.http_parse_version (first_line inbound)) p

    -- `OnReact`, which `OnReceiveData` calls.
    unfoldable pub on_react : (conn now : ℕ) → Text → Peer → Run Reaction
    unfolding on_react_before_upgrade on_react_after_upgrade
    on_react conn now inbound p =
        if not p.link.upgraded
        then on_react_before_upgrade conn now inbound p
        else ok (on_react_after_upgrade conn now inbound p)
