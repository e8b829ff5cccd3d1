-- ===== src/Logic/Token.antt =====
-- logic/token_logic.go: the tokens of the websocket connections. The library jwt signs and parses;
-- it is the parameter `jwt`.
use longcom.Base.Utf8.{is_utf8}
use longcom.Base.{ℕ, ◌+◌, ◌≡◌, ◌<◌, refl, Bool, true, Option, none, some, Text, if◌then◌else◌}

pub record LoginClaims : Type 0 where
  pub app_name : Text
  pub topic : Text
  pub user_id : Text
  pub message_type : ℕ
  pub callback_url : Text
  pub expires_at : ℕ

-- What `jwt.ParseWithClaims` returns without an error: its flag, and the claims if they have the
-- type that was asked for.
pub record Token : Type 0 where
  pub valid : Bool
  pub claims : Option LoginClaims

-- `sign` is `SignedString` with the secret of the configuration, `none` where it fails; `parse` is
-- `ParseWithClaims` at a time, `none` where it has an error.
pub record Jwt : Type 0 where
  pub sign : LoginClaims → Option Text
  pub parse : ℕ → Text → Option Token

module _ (jwt : Jwt) where
  unfoldable pub get_token :
      (app_name topic user_id callback_url : Text) (message_type now : ℕ) → Option Text
  get_token app_name topic user_id callback_url message_type now = jwt.sign (record {
    app_name = app_name;
    topic = topic;
    user_id = user_id;
    message_type = message_type;
    callback_url = callback_url;
    expires_at = now + 30;
  })

  claims_of : Token → Option LoginClaims
  claims_of t = if t.valid then t.claims else none

  -- `none` for each of its three errors.
  unfoldable pub verify_token : ℕ → Text → Option LoginClaims
  unfolding claims_of
  verify_token now token = elim (jwt.parse now token) [ none ↦ none | some t ↦ claims_of t ]

-- What the JSON of a token carries as it is: texts of valid UTF-8, an int32, and a time that is exact
-- as a float64.
pub record IsCarried (claims : LoginClaims) : Type 0 where
  pub app_name_utf8 : is_utf8 claims.app_name ≡ true
  pub topic_utf8 : is_utf8 claims.topic ≡ true
  pub user_id_utf8 : is_utf8 claims.user_id ≡ true
  pub callback_url_utf8 : is_utf8 claims.callback_url ≡ true
  pub type_fits : claims.message_type < 2147483648
  pub time_fits : claims.expires_at < 9007199254740992

-- The library reads back a token that it signed, before the second in which the token expires.
abbrev pub ReadsBack : Jwt → Type 0
ReadsBack jwt =
    (claims : LoginClaims) (token : Text) (now : ℕ)
    → IsCarried claims
    → jwt.sign claims ≡ some token
    → now < claims.expires_at
    → jwt.parse now token ≡ some (record { valid = true; claims = some claims })

-- If the library reads back what it signed before it expires, and the four texts are valid UTF-8,
-- then a token of `GetToken` is accepted by `VerifyToken` in the thirty seconds that begin with its
-- second, with the claims that it was made for.
pub verify_token-get_token :
    (jwt : Jwt) (app_name topic user_id callback_url token : Text) (message_type now later : ℕ)
    → let claims : LoginClaims = record {
      app_name = app_name;
      topic = topic;
      user_id = user_id;
      message_type = message_type;
      callback_url = callback_url;
      expires_at = now + 30;
    } in
      ReadsBack jwt
      → IsCarried claims
      → get_token jwt app_name topic user_id callback_url message_type now ≡ some token
      → later < now + 30
      → verify_token jwt later token ≡ some claims
unfolding verify_token get_token
verify_token-get_token jwt app_name topic user_id callback_url token message_type now later h c e
      l =
    rw (h _ token later c e l, verify_token) refl
