-- ===== src/Request/Retry.antt =====
-- repo/request/retry_http.go: requests that are tried again. The library go-retryablehttp is a
-- parameter, and the logging is left out. Durations are nanoseconds.
use longcom.Base.{ℕ, List, [], ◌∷◌, Option, none, some, Text, bytes}
use longcom.Base.Int.{ℤ, pos}
use longcom.Base.Dict.{Dict}
use longcom.Base.Run.{Run, ok, panic, ◌>>=◌}
use longcom.Request.Http.{method_get, method_post}

-- The fields of the library's client that are set here.
pub record Client : Type 0 where
  pub retry_wait_min : ℤ
  pub retry_wait_max : ℤ
  pub retry_max : ℤ
  pub timeout : ℤ

abbrev pub millisecond : ℕ
millisecond = 1000000

-- `Option` of the source.
abbrev pub ClientOption : Type 0
ClientOption = Client → Client

unfoldable pub with_retry_wait_duration : ℤ → ℤ → ClientOption
with_retry_wait_duration min max c = record c { retry_wait_min = min; retry_wait_max = max }

unfoldable pub with_retry_max_count : ℤ → ClientOption
with_retry_max_count max c = record c { retry_max = max }

unfoldable pub with_timeout : ℤ → ClientOption
with_timeout timeout c = record c { timeout = timeout }

unfoldable pub apply_options : List ClientOption → Client → Client
apply_options [] c = c
apply_options (o ∷ opts) c = apply_options opts (o c)

-- The client that `CreateHttpClient` stores, from the library's new one.
unfoldable pub create_http_client : List ClientOption → Client → Client
unfolding apply_options
create_http_client opts c = apply_options opts (record c {
  retry_wait_min = pos 150000000;
  retry_wait_max = pos 600000000;
  retry_max = pos 0;
  timeout = pos 2000000000;
})

-- `headers interface{}`: nil, a map from strings to strings, or anything else.
pub data Headers : Type 0 where
  nil_value : Headers
  header_map : Dict Text Text → Headers
  other_value : Headers

-- What `ReadAll` has of a body, or its error.
pub data Body : Type 0 where
  body_read : Text → Body
  body_failed : (err : Text) → Body

pub record Library (Q : Type 0) : Type 0 where
  pub new_request : (method url : Text) (body : Option Text) → Option Q
  pub new_request_error : (method url : Text) → Text
  pub set_header : (key value : Text) → Q → Q
  pub do_request : Client → Q → Option Body × Option Text

-- A body, or an error.
pub data Reply : Type 0 where
  replied : Text → Reply
  reply_failed : (err : Text) → Reply

abbrev read_all : Body → Reply
read_all (body_read b) = replied b
read_all (body_failed e) = reply_failed e

-- With neither a response nor an error, `resp.Body` is a field of nil.
unfoldable pub finish : Option Body × Option Text → Run Reply
finish (none, some e) = ok (reply_failed e)
finish (none, none) = panic
finish (some body, e) = ok (read_all body)

module _ {Q : Type 0} (lib : Library Q) (range : Dict Text Text → List (Text × Text)) where
  abbrev set_all : List (Text × Text) → Q → Q
  set_all [] q = q
  set_all ((key, value) ∷ headers) q = set_all headers (lib.set_header key value q)

  -- A value that is not such a map makes the type assertion panic.
  unfoldable pub with_headers : Headers → Q → Run Q
  with_headers nil_value q = ok q
  with_headers (header_map headers) q = ok (set_all (range headers) q)
  with_headers other_value q = panic

  abbrev get_made : Client → Text → Headers → Option Q → Run Reply
  get_made c url headers none = ok (reply_failed (lib.new_request_error method_get url))
  get_made c url headers (some q) = with_headers headers q >>= λ q'. finish (lib.do_request c q')

  unfoldable pub http_get : Client → (url : Text) → Headers → Run Reply
  unfolding with_headers finish
  http_get c url headers = get_made c url headers (lib.new_request method_get url none)

  abbrev post_made : Client → Text → Headers → Option Q → Run Reply
  post_made c url headers none = ok (reply_failed (lib.new_request_error method_post url))
  post_made c url headers (some q) =
      with_headers headers (lib.set_header (bytes "Content-Type") (bytes "application/json") q)
      >>= λ q'. finish (lib.do_request c q')

  unfoldable pub http_post : Client → (url post_params : Text) → Headers → Run Reply
  unfolding with_headers finish
  http_post c url post_params headers =
      post_made c url headers (lib.new_request method_post url (some post_params))
