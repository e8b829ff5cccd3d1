-- ===== src/Tests/Requests.antt =====
-- The requests of the connection of Tests/Servers, and tokens.
use longcom.Base.{
  ◌≡◌, refl, Bool, true, inl, inr, [], ◌∷◌, Option, none, some, arith, Text, if◌then◌else◌, ◌==◌,
  nat_eq, text_eq, text_beq, leb, ◌&&◌, Bool-cases,
}
use longcom.Base.Run.{ok}
use longcom.Errors.{known, not_connectd}
use longcom.Logic.Token.{LoginClaims, Jwt, ReadsBack, verify_token}
use longcom.Broker.Conn.{Network, exit_first, new_conn}
use longcom.Broker.Server.{Server, protocol_error}
use longcom.Broker.Handler.{on_request}
use longcom.Broker.Handler.Inflight.{
  Handling, IsCounted, frame, handled, handle_all, handle_all-IsCounted,
}
use longcom.Broker.Handler.Requests.{IsRefused, protocol_error-IsRefused, on_request_before_auth}
use longcom.Tests.{app, ann, news, hello}
use longcom.Tests.Servers.{opened, opened-init, opened-IsSound}

abbrev fresh : Handling
unfolding new_conn
fresh = record { conn = new_conn [] 1 100; running = 0 }

fresh-IsCounted : IsCounted fresh
unfolding new_conn fresh
fresh-IsCounted = record { exact = refl; bounded = omega arith }

handle_all-IsCounted_example : IsCounted (handle_all (frame 101 ∷ frame 102 ∷ handled ∷ []) fresh)
handle_all-IsCounted_example =
    handle_all-IsCounted (frame 101 ∷ frame 102 ∷ handled ∷ []) fresh fresh-IsCounted

abbrev pub network : Network
network = record { compile_frame = λ kind text. some text; async_write = λ conn text. none }

protocol_error-IsRefused_example : IsRefused 0 (protocol_error (known not_connectd) 0 110 opened).0
protocol_error-IsRefused_example =
    protocol_error-IsRefused (known not_connectd) 0 110 opened opened-IsSound (inl opened-init)

on_request_before_auth_example :
    (s' : Server) × (on_request network exit_first 0 110 hello opened ≡ ok s') × IsRefused 0 s'
on_request_before_auth_example =
    on_request_before_auth network exit_first 0 110 hello opened opened-IsSound opened-init

-- A token is the name of its user; there is one user.
abbrev pub claims : LoginClaims
claims = record {
  app_name = app;
  topic = news;
  user_id = ann;
  message_type = 0;
  callback_url = [];
  expires_at = 130;
}

same_claims : LoginClaims → Bool
same_claims c =
    c.app_name == app
    && (c.topic == news
        && (c.user_id == ann
            && (c.message_type == 0 && (c.callback_url == [] && c.expires_at == 130))))

same_claims-≡ : (c : LoginClaims) → same_claims c ≡ true → c ≡ claims
unfolding same_claims
same_claims-≡ c e = ground (
  arith,
  text_eq.beq_iff c.app_name app,
  text_eq.beq_iff c.topic news,
  text_eq.beq_iff c.user_id ann,
  text_eq.beq_iff c.callback_url [],
)

abbrev pub query : Text → Option Text
query url = if url == [] then none else some url

unfoldable pub one_user : Jwt
unfolding same_claims
one_user = record {
  sign = λ c. if same_claims c then some ann else none;
  parse = λ now token.
      if token == ann && leb now 130
      then some (record { valid = true; claims = some claims })
      else none;
}

pub one_user-ReadsBack : ReadsBack one_user
unfolding one_user
one_user-ReadsBack c token now carried e l = elim (Bool-cases (same_claims c)) [
  | inl h ↦
      let same : c ≡ claims = same_claims-≡ c h in
      ground (arith, e, h, same, text_eq.beq_iff token ann)
  | inr h ↦ absurd (ground (arith, e, h))
]

pub ann_accepted : verify_token one_user 110 ann ≡ some claims
unfolding verify_token text_beq one_user
ann_accepted = refl
