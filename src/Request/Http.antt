-- ===== src/Request/Http.antt =====
-- repo/request/http.go: one HTTP request. `net/http` is a parameter, and the logging is left out.
use longcom.Base.{
  ℕ, ◌*◌, Bool, not, ◌||◌, List, [], ◌∷◌, ◌++◌, Option, none, some, Text, bytes, if◌then◌else◌,
}
use longcom.Base.Int.{ℤ, pos, pos_part, leb_ℤ, wrap_signed}
use longcom.Base.Dict.{Dict, is_some}
use longcom.Errors.{Error, other}
use longcom.Ws.Http.{index_of}

abbrev pub method_post : Text
method_post = bytes "POST"

abbrev pub method_get : Text
method_get = bytes "GET"

abbrev pub default_conn_timeout : ℕ
default_conn_timeout = 3

-- `time.Second`, in nanoseconds.
abbrev pub second : ℕ
second = 1000000000

-- The product is one of int64.
unfoldable pub timeout : ℤ → ℤ
unfolding wrap_signed
timeout sec =
    wrap_signed 63 ((if leb_ℤ sec (pos 0) then default_conn_timeout else pos_part sec) * second)

pub record HttpProxy : Type 0 where
  pub url : Text
  pub method : Text
  pub req_body : Text
  pub headers : Dict Text Text
  pub timeout : ℤ

unfoldable pub new_http : (url method req_body : Text) → Dict Text Text → ℤ → HttpProxy
unfolding timeout
new_http url method req_body headers timeout_sec = record {
  url = url;
  method = method;
  req_body = req_body;
  headers = headers;
  timeout = longcom.Request.Http.timeout timeout_sec;
}

-- What comes of `client.Do`, with what is read of the body and how reading ends.
pub data Answer : Type 0 where
  failed : (err : Text) → Answer
  no_response : Answer
  answered : (body : Text) (read_error : Option Text) → Answer

-- `net/http`: its requests, how one is made and gets a header, and what is answered.
pub record HttpLibrary (Q : Type 0) : Type 0 where
  pub new_request : (method url body : Text) → Option Q
  pub new_request_error : (method url : Text) → Text
  pub set_header : (key value : Text) → Q → Q
  pub do_request : (timeout : ℤ) → Q → Answer

unfoldable pub occurs : Text → Text → Bool
unfolding index_of
occurs sep t = is_some (index_of sep t)

-- The guard of `Request`.
unfoldable pub is_http : Text → Bool
unfolding occurs
is_http url = occurs (bytes "http://") url || occurs (bytes "https://") url

abbrev pub not_http_error : Error
not_http_error = other (bytes "not http(s) request")

-- What `Request` sends, and what it returns.
pub record Exchange (Q : Type 0) : Type 0 where
  pub sent : Option (ℤ × Q)
  pub rsp : Text
  pub err : Option Error

abbrev read_error : Option Text → Option Error
read_error none = none
read_error (some e) = some (other e)

module _ {Q : Type 0} (http : HttpLibrary Q) where
  unfoldable pub set_headers : List (Text × Text) → Q → Q
  set_headers [] q = q
  set_headers ((key, value) ∷ headers) q = set_headers headers (http.set_header key value q)

  unfoldable pub exchange : ℤ → Q → Answer → Exchange Q
  exchange limit q (failed e) = record {
    sent = some (limit, q);
    rsp = [];
    err = some (other (bytes "http request failed. err: " ++ e));
  }
  exchange limit q no_response = record { sent = some (limit, q); rsp = []; err = none }
  exchange limit q (answered body e) = record {
    sent = some (limit, q);
    rsp = body;
    err = read_error e;
  }

  abbrev pub send : HttpProxy → List (Text × Text) → Option Q → Exchange Q
  send p headers none = record {
    sent = none;
    rsp = [];
    err = some (other (http.new_request_error p.method p.url));
  }
  send p headers (some q) =
      let q' = set_headers headers q in exchange p.timeout q' (http.do_request p.timeout q')

  -- `Request`, with the order in which Go ranges over the headers.
  unfoldable pub request : (Dict Text Text → List (Text × Text)) → HttpProxy → Exchange Q
  unfolding set_headers exchange is_http
  request range p =
      if not (is_http p.url)
      then record { sent = none; rsp = []; err = some not_http_error }
      else send p (range p.headers) (http.new_request p.method p.url p.req_body)
