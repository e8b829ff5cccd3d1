-- ===== src/Tests/Calls.antt =====
-- The calls of the broker's services, the callbacks and the access log at concrete inputs.
use longcom.Base.{
  ◌≡◌, refl, true, false, ◌⊎◌, [], ◌∷◌, ◌++◌, none, some, Text, bytes, text_eq, text_beq, ◌==◌,
  if◌then◌else◌, map, arith, List,
}
use longcom.Base.Bytes.{drop}
use longcom.Base.Dict.{Dict}
use longcom.Base.Run.{ok}
use longcom.AccessLog.{
  Context, Message, Answer, server_filter, calling, get_trace_id, tid_of, server_filter-trace,
}
use longcom.Base.Utf8.{is_utf8, valid_after}
use longcom.Logic.Token.{IsCarried, get_token}
use longcom.Request.Http.{HttpLibrary, is_http, no_response}
use longcom.Broker.Callback.{CallbackRequest, callback_handler, receive}
use longcom.Broker.Callback.Outward.{run_callback, posted, run_callback-sent}
use longcom.Broker.Conn.{ConnectionSession, new_connection_session}
use longcom.Broker.Gnet.{no_action}
use longcom.Broker.Handler.Requests.{session_for}
use longcom.Broker.Rpc.{UserRequest, rpc_get_token, claims_for, serve-rpc_get_token}
use longcom.Broker.Server.{Server}
use longcom.Broker.Server.Authentication.{IsRegistered}
use longcom.Broker.Server.Registration.{IsSound}
use longcom.Broker.Websocket.Handshake.{serve}
use longcom.Tests.{app, ann, news, hello, id1}
use longcom.Tests.Frames.{drop-Shifts}
use longcom.Tests.Requests.{query, one_user, one_user-ReadsBack, network}
use longcom.Tests.Servers.{opened, opened-init, opened-IsSound}
use longcom.Tests.Upgrades.{library, switching, get, http, host, header_for, asking, ann-IsRequest}

abbrev for_ann : UserRequest
for_ann = record { app_name = app; topic = news; user_id = ann }

for_ann_made : rpc_get_token one_user [] for_ann 100 ≡ some ann
unfolding rpc_get_token get_token one_user text_beq
for_ann_made = refl

for_ann-IsCarried : IsCarried (claims_for [] for_ann 100)
unfolding is_utf8 valid_after
for_ann-IsCarried = record {
  app_name_utf8 = refl;
  topic_utf8 = refl;
  user_id_utf8 = refl;
  callback_url_utf8 = refl;
  type_fits = omega arith;
  time_fits = omega arith;
}

serve-rpc_get_token_example :
    (s : Server) × (serve drop library network query one_user 0 110 (asking ann)
      ≡ ok (
        record {
          server = s;
          link = record { upgraded = true; inbound = hello; told_to_close = false };
          started = [];
        },
        switching,
        no_action,
      ))
    × IsSound s
    × (opened.pools_fail ≡ true
        ⊎ IsRegistered
            (session_for query one_user 0 110 ann opened opened-IsSound (claims_for [] for_ann 100))
            0
            (news ∷ [])
            s)
unfolding text_beq
serve-rpc_get_token_example =
    serve-rpc_get_token drop library network query one_user get ann http host (header_for ann) hello
      (asking ann) 0 110 drop-Shifts ann-IsRequest refl refl (1, 1) refl for_ann [] ann switching
      100 one_user-ReadsBack for_ann-IsCarried for_ann_made (omega arith) opened-IsSound opened-init
      refl refl

abbrev hook : Text
hook = bytes "http://hook"

abbrev hooked : ConnectionSession
unfolding new_connection_session
hooked = new_connection_session id1 app [] ann hook news 100

-- A library whose requests are their URL and headers.
abbrev echo : HttpLibrary (Text × Dict Text Text)
echo = record {
  new_request = λ method url body. some (url, []);
  new_request_error = λ method url. [];
  set_header = λ key value q. (q.0, (key, value) ∷ q.1);
  do_request = λ limit q. no_response;
}

abbrev as_stored : Dict Text Text → List (Text × Text)
as_stored headers = headers

abbrev to_json : CallbackRequest → Text
to_json req = req.user_id

run_callback-sent_example :
    (run_callback echo as_stored to_json (callback_handler hooked (receive hello))).sent
    ≡ (if is_http hook then posted echo as_stored to_json (some (hook, [])) else none)
unfolding new_connection_session
run_callback-sent_example = run_callback-sent echo as_stored to_json hooked (receive hello) refl

abbrev rpc : Text → Message
rpc name = record { rpc_name = name; meta_data = []; remote_addr = none; local_addr = none }

abbrev answers : Context → Text → Answer
answers ctx req = record { rsp = req; err = none; logged = [] }

abbrev untraced : Context
untraced = record { trace_id = none; message = rpc (bytes "/send") }

server_filter-trace_example :
    let a =
      server_filter id1 2 untraced hello
        (calling id1 news 2 1 untraced (rpc (bytes "/push")) hello ann answers) in
    let tid = (get_trace_id id1 untraced).1 in
    let answer = answers (record { trace_id = some tid; message = rpc (bytes "/push") }) ann in
    (a.rsp ≡ answer.rsp)
    × (a.err ≡ answer.err)
    × (map tid_of a.logged
        ≡ map tid_of answer.logged
          ++ tid ∷ (if untraced.message.rpc_name == bytes "/" then [] else tid ∷ []))
server_filter-trace_example =
    server_filter-trace id1 news 2 1 untraced (rpc (bytes "/push")) hello ann answers
