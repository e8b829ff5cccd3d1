-- ===== src/Tests/Upgrades.antt =====
-- The connection of Tests/Servers sends an upgrade request with a token, or with none, and frames.
use longcom.Base.{
  ◌≡◌, refl, true, false, ◌⊎◌, inl, [], ◌∷◌, ◌++◌, none, some, Text, bytes, text_eq, text_beq,
  arith,
}
use longcom.Base.Bytes.{drop}
use longcom.Base.Run.{ok}
use longcom.Ws.Http.{index_of, starts_with, header_end}
use longcom.Ws.Frames.{frame_bytes, frame_header, length_code, length_bytes}
use longcom.Broker.Gnet.{no_action, on_opened}
use longcom.Broker.Server.Lifecycle.{new_server}
use longcom.Broker.Server.{Server}
use longcom.Broker.Server.Registration.{IsSound}
use longcom.Broker.Server.Authentication.{IsRegistered}
use longcom.Broker.Handler.Requests.{IsRefused, session_for}
use longcom.Broker.Websocket.{Library, Peer, upgrade_reply}
use longcom.Broker.Websocket.Stream.{stream}
use longcom.Broker.Websocket.Handshake.{IsRequest, serve, serve_accepted, serve-IsRefused}
use longcom.Broker.Websocket.React.{
  Carries, no_frames, then_frame, Started, serve_times, serve_times-Started,
}
use longcom.Tests.{ann, news, hello}
use longcom.Tests.Servers.{opened, opened-init, opened-IsSound}
use longcom.Tests.Requests.{query, one_user, claims, ann_accepted, network}
use longcom.Tests.Frames.{hello_frame, news_frame, hello-IsFrame, news-IsFrame, drop-Shifts}

abbrev pub switching : Text
switching = bytes "101"

-- A library that takes every request, and reads the payload of a short masked frame as it stands.
abbrev pub library : Library
library = record {
  http_parse_version = λ proto. some (1, 1);
  upgrade = λ inbound. (switching, none);
  read_client_message = λ frame. some (record { op_code = 1; payload = drop 6 frame } ∷ []);
  handle_client_control_message = λ m. some [];
}

abbrev pub get : Text
get = bytes "GET"

abbrev pub http : Text
http = bytes "HTTP/1.1"

abbrev pub host : Text
host = bytes "Host: a"

abbrev line_for : Text → Text
line_for uri = get ++ 32 ∷ (uri ++ 32 ∷ http)

abbrev pub header_for : Text → Text
header_for uri = line_for uri ++ 13 ∷ 10 ∷ host

pub ann-IsRequest : IsRequest get ann http host (header_for ann)
unfolding index_of starts_with
ann-IsRequest = record {
  line = line_for ann;
  parts = refl;
  lines = refl;
  method_ends = refl;
  uri_ends = refl;
  line_ends = refl;
  complete = refl;
}

empty-IsRequest : IsRequest get [] http host (header_for [])
unfolding index_of starts_with
empty-IsRequest = record {
  line = line_for [];
  parts = refl;
  lines = refl;
  method_ends = refl;
  uri_ends = refl;
  line_ends = refl;
  complete = refl;
}

abbrev pub asking : Text → Peer
asking uri = record {
  server = opened;
  link = record {
    upgraded = false;
    inbound = (header_for uri ++ header_end) ++ hello;
    told_to_close = false;
  };
  started = [];
}

serve_accepted_example :
    (s : Server) × (serve drop library network query one_user 0 110 (asking ann)
      ≡ ok (
        record {
          server = s;
          link = record { upgraded = true; inbound = hello; told_to_close = false };
          started = [];
        },
        switching,
        no_action,
      ))
    × IsSound s
    × (opened.pools_fail ≡ true
        ⊎ IsRegistered
            (session_for query one_user 0 110 ann opened opened-IsSound claims)
            0
            (news ∷ [])
            s)
unfolding text_beq
serve_accepted_example =
    serve_accepted drop library network query one_user get ann http host (header_for ann) hello
      (asking ann) 0 110 drop-Shifts ann-IsRequest refl refl (1, 1) refl ann switching claims
      opened-IsSound opened-init refl ann_accepted refl

serve-IsRefused_example :
    (s : Server) × (serve drop library network query one_user 0 110 (asking [])
      ≡ ok (
          upgrade_reply
            (record {
              server = s;
              link = record { upgraded = false; inbound = hello; told_to_close = false };
              started = [];
            })
            (switching, none)))
    × IsRefused 0 s
unfolding text_beq
serve-IsRefused_example =
    serve-IsRefused drop library network query one_user get [] http host (header_for []) hello
      (asking []) 0 110 drop-Shifts empty-IsRequest refl refl (1, 1) refl [] opened-IsSound
      (inl opened-init) (inl refl)

abbrev sending : Peer
unfolding stream frame_bytes frame_header length_code length_bytes
sending = record {
  server = opened;
  link = record {
    upgraded = true;
    inbound = stream (hello_frame ∷ news_frame ∷ []) ++ ann;
    told_to_close = false;
  };
  started = [];
}

both-Carries : Carries library (hello_frame ∷ news_frame ∷ []) (hello ∷ news ∷ [])
unfolding frame_bytes frame_header length_code length_bytes
both-Carries =
    then_frame hello-IsFrame refl (inl refl) (then_frame news-IsFrame refl (inl refl) no_frames)

opened-idle : (opened.conn_at 0).inflight_inbound_message_count ≡ 0
unfolding opened on_opened new_server
opened-idle = refl

serve_times-Started_example :
    (q : Peer) × (serve_times drop library network query one_user 0 (λ n. 120) 2 sending ≡ ok q)
    × Started drop library network query one_user 0 drop-Shifts (hello ∷ news ∷ []) ann sending q
unfolding sending
serve_times-Started_example =
    serve_times-Started drop library network query one_user 0 drop-Shifts (λ n. 120) ann sending
      both-Carries (record { upgraded = refl; kept_open = refl }) refl (omega (arith, opened-idle))
