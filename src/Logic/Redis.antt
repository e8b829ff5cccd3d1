-- ===== src/Logic/Redis.antt =====
-- logic/state_logic.go: `SetUserState`, `ExpireUserState` with its script, and `GetUserState`, over the
-- commands of redis, which can be reached. The interface has the commands that the file uses, each
-- with the time at which it runs, and what a key shows; its laws are those of redis' documentation.
use longcom.Base.{
  ℕ, ◌+◌, ◌≡◌, Bool, true, List, [], ◌∷◌, ◌++◌, Option, none, some, Text, bytes, ltb, length,
  if◌then◌else◌, text_eq,
}
use longcom.Base.Dict.{Dict, store, delete}
use longcom.Base.Decimal.{format_int}
use longcom.Logic.Calls.{StateCall, set_user_state, expire_user_state, user_state_field}
use longcom.Logic.UserState.{UserState, get_user_state}

-- What a key shows: the fields of its hash, and when it expires.
pub record Hash : Type 0 where
  pub fields : Dict Text Text
  pub expires : Option ℕ

abbrev pub empty_hash : Hash
empty_hash = record { fields = []; expires = none }

abbrev pub live_until : Option ℕ → ℕ → Bool
live_until none now = true
live_until (some at) now = ltb now at

-- A key that has expired is gone.
unfoldable pub live : ℕ → Hash → Hash
live now h = if live_until h.expires now then h else empty_hash

-- A hash without fields is no key, and does not expire.
unfoldable pub expiry : Dict Text Text → Option ℕ → Option ℕ
expiry [] at = none
expiry (field ∷ fields) at = at

unfoldable pub reply_of : Dict Text Text → List (Option Text)
reply_of [] = []
reply_of ((field, value) ∷ fields) = some field ∷ some value ∷ reply_of fields

pub record Redis (R : Type 0) : Type 0 where
  pub hset : (now : ℕ) (key field value : Text) → R → R
  pub hlen : (now : ℕ) (key : Text) → R → ℕ
  pub hdel : (now : ℕ) (key field : Text) → R → R
  pub expire : (now : ℕ) (key : Text) (seconds : ℕ) → R → R
  pub hgetall : (now : ℕ) (key : Text) → R → List (Option Text)
  pub shows : Text → R → Hash

-- What the commands do to the key that they name. `hSet` keeps the time at which a key expires.
pub record IsRedis {R : Type 0} (c : Redis R) : Type 0 where
  pub shows-hset :
      (now : ℕ) (key field value : Text) (r : R)
      → c.shows key (c.hset now key field value r) ≡ record {
        fields = store field value (live now (c.shows key r)).fields;
        expires = (live now (c.shows key r)).expires;
      }
  pub hlen_lem :
      (now : ℕ) (key : Text) (r : R) → c.hlen now key r ≡ length (live now (c.shows key r)).fields
  pub shows-hdel :
      (now : ℕ) (key field : Text) (r : R)
      → let left = delete field (live now (c.shows key r)).fields in
        c.shows key (c.hdel now key field r)
        ≡ record { fields = left; expires = expiry left (live now (c.shows key r)).expires }
  pub shows-expire :
      (now : ℕ) (key : Text) (seconds : ℕ) (r : R)
      → let now_there = (live now (c.shows key r)).fields in
        c.shows key (c.expire now key seconds r)
        ≡ record { fields = now_there; expires = expiry now_there (some (now + seconds)) }
  pub hgetall_lem :
      (now : ℕ) (key : Text) (r : R)
      → c.hgetall now key r ≡ reply_of (live now (c.shows key r)).fields

-- `fmt.Sprintf(cacheKeyState, appName, topic, userID)`
unfoldable pub state_key : (app_name topic user_id : Text) → Text
state_key app_name topic user_id =
    bytes "{longcom}:ws:state:" ++ (app_name ++ (bytes ":" ++ (topic ++ (bytes ":" ++ user_id))))

abbrev pub cache_expire_state : ℕ
cache_expire_state = 3600

module _ {R : Type 0} (c : Redis R) where
  -- `expireStateScript`, which redis runs with no other command in between. What it returns is
  -- dropped.
  unfoldable pub expire_state_script : (now : ℕ) (key field1 field2 : Text) → R → R
  unfolding format_int
  expire_state_script now key field1 field2 r =
      let set = c.hset now key field2 (format_int now) r in
      if ltb 2 (c.hlen now key set)
      then c.hdel now key field2 (c.hdel now key field1 set)
      else c.expire now key cache_expire_state set

  -- What the calls of the broker do.
  unfoldable pub perform : (now : ℕ) → StateCall → R → R
  unfolding expire_state_script state_key user_state_field
  perform now (set_user_state app_name topic user_id field value) r =
      c.hset now (state_key app_name topic user_id) field value r
  perform now (expire_user_state app_name topic user_id node) r =
      expire_state_script now (state_key app_name topic user_id)
        (user_state_field node (bytes "connect")) (user_state_field node (bytes "disconnect")) r

  -- `GetUserState`, with the order of its range.
  unfoldable pub read_user_state :
      (Dict Text UserState → List UserState)
      → (now : ℕ) (app_name topic user_id : Text) → R
      → UserState
  unfolding get_user_state state_key
  read_user_state range now app_name topic user_id r =
      get_user_state range (c.hgetall now (state_key app_name topic user_id) r)
