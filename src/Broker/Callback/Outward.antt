-- ===== src/Broker/Callback/Outward.antt =====
-- broker/callback.go: how a callback is sent, and how its URL is taken apart. The JSON library, the
-- parser of URLs and the one of IP addresses are parameters.
use longcom.Base.{
  ◌≡◌, refl, Bool, ◌||◌, List, [], ◌∷◌, ◌++◌, Option, none, some, Text, bytes, Bool-cases, inl, inr,
  if◌then◌else◌, ◌==◌, text_eq, text_beq,
}
use longcom.Base.Int.{ℤ, pos, wrap_signed}
use longcom.Base.Dict.{Dict}
use longcom.Request.Http.{
  HttpLibrary, Answer, Exchange, method_post, new_http, is_http, set_headers, exchange, request,
  send, occurs, timeout,
}
use longcom.Ws.Http.{index_of, starts_with}
use longcom.Broker.Conn.{ConnectionSession}
use longcom.Broker.Callback.{CallbackData, CallbackRequest, callback_handler}

-- What `url.Parse` has of a URL.
pub record Url : Type 0 where
  pub scheme : Text
  pub hostname : Text
  pub host : Text
  pub request_uri : Text

abbrev scheme_for : (is_ip : Text → Bool) → Url → Text
scheme_for is_ip u =
    if (u.scheme == bytes "http") || (u.scheme == bytes "https")
    then (if is_ip u.hostname then bytes "ip" else bytes "dns")
    else u.scheme

abbrev parsed : (is_ip : Text → Bool) → Option Url → Option (Text × Text)
parsed is_ip none = none
parsed is_ip (some u) = some (scheme_for is_ip u ++ (bytes "://" ++ u.host), u.request_uri)

-- `callbackParseURL`: the target and the URI, or `none` for its error.
unfoldable pub callback_parse_url :
    (parse : Text → Option Url) (is_ip : Text → Bool) → Text → Option (Text × Text)
callback_parse_url parse is_ip full_url = parsed is_ip (parse full_url)

abbrev pub json_headers : Dict Text Text
json_headers = (bytes "Content-Type", bytes "application/json") ∷ []

abbrev pub request_for : ConnectionSession → CallbackData → CallbackRequest
request_for c content = record {
  app_name = c.business;
  topic = c.topic;
  user_id = c.alias;
  content = content;
}

module _ {Q : Type 0} (http : HttpLibrary Q) (range : Dict Text Text → List (Text × Text))
    (marshal : CallbackRequest → Text) where
  -- `callbackDo`, with what `proxy.Request` reads of an answer, which is dropped.
  unfoldable pub callback_do : (callback_url : Text) → CallbackRequest → Exchange Q
  unfolding request new_http
  callback_do callback_url req =
      request http range (new_http callback_url method_post (marshal req) json_headers (pos 3))

  -- What becomes of the request of a `callbackHandler`.
  unfoldable pub run_callback : Option (Text × CallbackRequest) → Exchange Q
  unfolding callback_do
  run_callback none = record { sent = none; rsp = []; err = none }
  run_callback (some (url, req)) = callback_do url req

  -- A request with the JSON header, and three seconds for it.
  abbrev pub posted : Option Q → Option (ℤ × Q)
  posted none = none
  posted (some q) =
      some (pos 3000000000, http.set_header (bytes "Content-Type") (bytes "application/json") q)

  exchange-sent :
      (limit : ℤ) (q : Q) (a : Answer) → (exchange http limit q a).sent ≡ some (limit, q)
  unfolding exchange
  exchange-sent limit q (Answer.failed e) = refl
  exchange-sent limit q Answer.no_response = refl
  exchange-sent limit q (Answer.answered body e) = refl

  sent_made :
      (url body : Text) (o : Option Q)
      → range json_headers ≡ json_headers
      → (send http (new_http url method_post body json_headers (pos 3)) (range json_headers) o).sent
        ≡ posted o
  unfolding new_http timeout wrap_signed set_headers
  sent_made url body none one = refl
  sent_made url body (some q) one = rw one (exchange-sent (pos 3000000000) _ _)

  callback_do-sent :
      (url : Text) (req : CallbackRequest)
      → range json_headers ≡ json_headers
      → (callback_do url req).sent
        ≡ (if is_http url then posted (http.new_request method_post url (marshal req)) else none)
  unfolding callback_do request new_http
  callback_do-sent url req one = elim (Bool-cases (is_http url)) [
    | inl e ↦
        rw e (sent_made url (marshal req) (http.new_request method_post url (marshal req)) one)
    | inr e ↦ rw e refl
  ]

  sent_for :
      (url : Text) (req : CallbackRequest)
      → range json_headers ≡ json_headers
      → (run_callback (if url == [] then none else some (url, req))).sent
        ≡ (if is_http url then posted (http.new_request method_post url (marshal req)) else none)
  unfolding run_callback is_http text_beq occurs index_of starts_with
  sent_for [] req one = refl
  sent_for (a ∷ url) req one = callback_do-sent (a ∷ url) req one

  -- A callback of a session leaves the process only if `http://` or `https://` occurs in the URL of
  -- the session, which then is not empty, and if the library can make the request: then it is sent
  -- once, to that URL, by POST with the JSON of the request, its content type, and three seconds.
  pub run_callback-sent :
      (c : ConnectionSession) (content : CallbackData)
      → range json_headers ≡ json_headers
      → (run_callback (callback_handler c content)).sent ≡ (
          if is_http c.callback
          then posted (http.new_request method_post c.callback (marshal (request_for c content)))
          else none)
  unfolding callback_handler
  run_callback-sent c content one = sent_for c.callback (request_for c content) one
