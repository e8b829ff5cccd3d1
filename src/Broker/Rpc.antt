-- ===== src/Broker/Rpc.antt =====
-- broker/trpc_handler.go: the calls that ask for a token or a state, and those that answer with
-- nothing. Responses are their fields; those of `Connect` and `GetOnlineUsers` have none set.
use longcom.Base.{
  ℕ, ◌+◌, ◌<◌, ◌≡◌, ◌⊎◌, true, false, [], ◌∷◌, ◌++◌, Bool, List, Option, none, some, Text,
}
use longcom.Base.Dict.{Dict}
use longcom.Base.Run.{ok}
use longcom.Errors.{Error, known, user_connection_get_fail}
use longcom.Logic.Token.{LoginClaims, Jwt, IsCarried, ReadsBack, get_token, verify_token-get_token}
use longcom.Logic.UserState.{UserState, is_closed}
use longcom.Logic.Redis.{Redis, read_user_state}
use longcom.Ws.Http.{header_end}
use longcom.Broker.Conn.{Network, frame_un_assign, conn_state_init}
use longcom.Broker.Gnet.{no_action}
use longcom.Broker.Server.{Server}
use longcom.Broker.Server.Registration.{IsSound}
use longcom.Broker.Server.Authentication.{IsRegistered}
use longcom.Broker.Handler.Requests.{session_for}
use longcom.Broker.Websocket.{Library, Peer}
use longcom.Broker.Websocket.Stream.{Shifts}
use longcom.Broker.Websocket.Handshake.{IsRequest, serve, serve_accepted}

pub record UserRequest : Type 0 where
  pub app_name : Text
  pub topic : Text
  pub user_id : Text

pub record GetUserStateResponse : Type 0 where
  pub node : Text
  pub closed : Bool
  pub connect_time : ℕ
  pub disconnect_time : ℕ

-- A response with no field set.
pub data EmptyResponse : Type 0 where
  empty_response : EmptyResponse

-- `Server.GetToken`, `none` for its error.
unfoldable pub rpc_get_token : Jwt → (callback_url : Text) → UserRequest → (now : ℕ) → Option Text
unfolding get_token
rpc_get_token jwt callback_url r now =
    get_token jwt r.app_name r.topic r.user_id callback_url frame_un_assign now

unfoldable pub connect : UserRequest → EmptyResponse
connect r = empty_response

unfoldable pub rpc_get_user_state :
    {R : Type 0}
    → Redis R
    → (Dict Text UserState → List UserState)
    → UserRequest
    → (now : ℕ) → R
    → GetUserStateResponse
unfolding read_user_state is_closed
rpc_get_user_state c range r now redis =
    let state = read_user_state c range now r.app_name r.topic r.user_id redis in
    record {
      node = state.node;
      closed = is_closed state;
      connect_time = state.connect_time;
      disconnect_time = state.disconnect_time;
    }

unfoldable pub get_online_users : UserRequest → EmptyResponse
get_online_users r = empty_response

unfoldable pub get_topics : UserRequest → Error
get_topics r = known user_connection_get_fail

-- The claims of a token that `GetToken` hands out.
abbrev pub claims_for : (callback_url : Text) → UserRequest → ℕ → LoginClaims
claims_for callback_url r now = record {
  app_name = r.app_name;
  topic = r.topic;
  user_id = r.user_id;
  message_type = frame_un_assign;
  callback_url = callback_url;
  expires_at = now + 30;
}

module _ (shift_n : ℕ → Text → Text) (lib : Library) (net : Network)
    (query_token : Text → Option Text) (jwt : Jwt) (method uri proto others header more : Text)
    (p : Peer) (conn now : ℕ) (shifts : Shifts shift_n)
    (v : IsRequest method uri proto others header) (fresh : p.link.upgraded ≡ false)
    (came : p.link.inbound ≡ (header ++ header_end) ++ more) (version : ℕ × ℕ)
    (read : lib.http_parse_version proto ≡ some version) where
  -- A token of `GetToken`, in the thirty seconds that begin with its second, gets a new connection
  -- registered: if the buffer starts with an upgrade request with the token in its URI, the
  -- websocket library reads the version of its first line and answers the request with no error,
  -- gnet's `ShiftN` drops as many bytes as it is asked to, and the jwt library reads back what it
  -- signed before it expires, then that answer is returned, the connection is upgraded, and it is
  -- registered for the user, business and topic that the token was asked for, unless the pools of a
  -- new group cannot be made. The texts of the request are valid UTF-8 and its time fits a float64;
  -- the server, which was sound, is sound again, and the connection was in its first state.
  pub serve-rpc_get_token :
      (r : UserRequest) (callback_url token out : Text) (asked_at : ℕ)
      → ReadsBack jwt
      → IsCarried (claims_for callback_url r asked_at)
      → rpc_get_token jwt callback_url r asked_at ≡ some token
      → now < asked_at + 30
      → (sound : IsSound p.server) → (p.server.conn_at conn).state ≡ conn_state_init
      → query_token uri ≡ some token
      → lib.upgrade header ≡ (out, none)
      → (s : Server) × (serve shift_n lib net query_token jwt conn now p
          ≡ ok (
            record {
              server = s;
              link = record p.link { inbound = more; upgraded = true };
              started = p.started;
            },
            out,
            no_action,
          ))
        × IsSound s
        × (p.server.pools_fail ≡ true
            ⊎ IsRegistered
                (session_for query_token jwt conn now uri p.server sound
                  (claims_for callback_url r asked_at))
                conn
                (r.topic ∷ [])
                s)
  unfolding rpc_get_token
  serve-rpc_get_token r callback_url token out asked_at reads carried made early sound init asked
        done =
      serve_accepted shift_n lib net query_token jwt method uri proto others header more p conn now
        shifts v fresh came version read token out (claims_for callback_url r asked_at) sound init
        asked
        (verify_token-get_token jwt r.app_name r.topic r.user_id callback_url token frame_un_assign
          asked_at now reads carried made early)
        done
