-- ===== src/Logic/Stays.antt =====
-- logic/state_logic.go: what is read of a user after the broker's calls on connecting and leaving.
use mathlib.Core.Path.{ap}
use longcom.Base.{
  ℕ, ◌+◌, ◌<◌, ◌≤◌, ◌≡◌, refl, ◌∙◌, true, false, ◌||◌, List, [], map, none, some, Text, bytes,
  arith, contains, ltb, length, if◌then◌else◌, ◌==◌, text_eq, nat_eq,
}
use longcom.Base.Dict.{Dict, load, store, delete}
use longcom.Base.Decimal.{format_int, max_int}
use longcom.Logic.Calls.{set_user_state, expire_user_state, user_state_field}
use longcom.Logic.UserState.{UserState, value_map, pick, pick_all, get_user_state, is_closed}
use longcom.Logic.Redis.{
  Hash, empty_hash, expiry, live, live_until, reply_of, Redis, IsRedis, state_key,
  cache_expire_state, perform, read_user_state,
}
use longcom.Logic.Sessions.{
  connect_field, disconnect_field, fields_differ, connect_hash, left_fields, left_hash, past_state,
  value_map-left,
}
use longcom.Logic.Script.{store_here, gone_or_kept, live_open, scripted, shows-script}

module _ {R : Type 0} (c : Redis R) (laws : IsRedis c) (app_name user_id node : Text)
    (plain : contains node b'_' ≡ false) where
  abbrev key : Text
  key = state_key app_name [] user_id

  -- The calls that `addAliasConn` and `removeAliasConn` make.
  abbrev pub connects : ℕ → R → R
  connects now = perform c now (
      set_user_state app_name [] user_id (user_state_field node (bytes "connect")) (format_int now))

  abbrev pub leaves : ℕ → R → R
  leaves now = perform c now (expire_user_state app_name [] user_id node)

  shows-connects :
      (t₀ : ℕ) (r : R)
      → (live t₀ (c.shows key r)) ≡ empty_hash
      → c.shows key (connects t₀ r) ≡ connect_hash node plain t₀
  unfolding perform store
  shows-connects t₀ r e = laws.shows-hset t₀ key _ _ r ∙ (rw e refl)

  shows-leaves :
      (t₁ : ℕ) (h : Hash) (r : R)
      → live t₁ (c.shows key r) ≡ h
      → live_until h.expires t₁ ≡ true
      → c.shows key (leaves t₁ r)
        ≡ scripted c laws t₁ key (connect_field node plain) (disconnect_field node plain) h
  unfolding perform
  shows-leaves t₁ h r e open_yet =
      shows-script c laws t₁ key (connect_field node plain) (disconnect_field node plain) h r e
        open_yet

  shows_stay :
      (t₀ t₁ : ℕ) (r : R)
      → live t₀ (c.shows key r) ≡ empty_hash
      → c.shows key (leaves t₁ (connects t₀ r)) ≡ left_hash node plain t₀ t₁
  unfolding store delete
  shows_stay t₀ t₁ r e =
      let is = shows-connects t₀ r e in
      shows-leaves t₁ (connect_hash node plain t₀) (connects t₀ r)
        (ap (live t₁) is ∙ live_open t₁ (connect_hash node plain t₀) refl) refl
      ∙ (rw (fields_differ node plain) refl)

  abbrev pub in_order : Dict Text UserState → List UserState
  in_order = map (λ (e : Text × UserState). e.1)

  read_fields :
      (t : ℕ) (h : Hash) (r : R)
      → c.shows key r ≡ h
      → live_until h.expires t ≡ true
      → read_user_state c in_order t app_name [] user_id r
        ≡ get_user_state in_order (reply_of h.fields)
  unfolding read_user_state
  read_fields t h r e open_yet =
      ap (get_user_state in_order) {y = reply_of h.fields}
        (laws.hgetall_lem t key r ∙ (rw (e, live_open t h open_yet) refl))

  read_left :
      (t₀ t₁ : ℕ)
      → 0 < t₀
      → 0 < t₁
      → t₀ ≤ max_int
      → t₁ ≤ max_int
      → get_user_state in_order (reply_of (left_fields node plain t₀ t₁))
        ≡ past_state node plain t₀ t₁
  unfolding get_user_state pick_all pick
  read_left t₀ t₁ a b c d = rw (value_map-left node plain t₀ t₁ a b c d) refl

  -- If redis has nothing of a user, and the broker of a node with no `_` in its name sets the time
  -- at which the user connects and then expires the state when the user leaves, at two positive
  -- times that fit an int, then `GetUserState` with an empty topic reads both times until an hour
  -- after the user left, with `{longcom}` before the name of the node, and the user is closed
  -- exactly if the time of leaving is later.
  pub read_user_state-stay :
      (t₀ t₁ t : ℕ) (r : R)
      → live t₀ (c.shows key r) ≡ empty_hash
      → 0 < t₀
      → 0 < t₁
      → t₀ ≤ max_int
      → t₁ ≤ max_int
      → t < t₁ + 3600
      → let state = read_user_state c in_order t app_name [] user_id (leaves t₁ (connects t₀ r)) in
        (state ≡ past_state node plain t₀ t₁) × (is_closed state ≡ ltb t₀ t₁)
  unfolding is_closed
  read_user_state-stay t₀ t₁ t r e p q fits fits' early =
      let is =
        read_fields t (left_hash node plain t₀ t₁) (leaves t₁ (connects t₀ r))
          (shows_stay t₀ t₁ r e) (ground (arith, early))
        ∙ read_left t₀ t₁ p q fits fits' in
      (is, rw is (ground (arith, p)))

  live_late :
      (t t₁ : ℕ) (fields : Dict Text Text)
      → t₁ + 3600 ≤ t
      → live t (record { fields = fields; expires = some (t₁ + cache_expire_state) }) ≡ empty_hash
  unfolding live
  live_late t t₁ fields late = ground (arith, late)

  shows_again :
      (t₀ t₁ t₂ : ℕ) (r : R)
      → live t₀ (c.shows key r) ≡ empty_hash
      → t₂ < t₁ + 3600
      → c.shows key (connects t₂ (leaves t₁ (connects t₀ r)))
        ≡ record { fields = left_fields node plain t₂ t₁; expires = some (t₁ + cache_expire_state) }
  unfolding perform
  shows_again t₀ t₁ t₂ r e early =
      laws.shows-hset t₂ key _ _ (leaves t₁ (connects t₀ r))
      ∙ (rw
          (shows_stay t₀ t₁ r e, live_open t₂ (left_hash node plain t₀ t₁) (ground (arith, early)))
          (ap (λ fields. record { fields = fields; expires = some (t₁ + cache_expire_state) })
            {y = left_fields node plain t₂ t₁} (store_here _ _ _ _)))

  -- If a user connects to a node with no `_` in its name, on a redis that has nothing of the user,
  -- leaves it and connects to it again within an hour, `GetUserState` says that the user is closed
  -- from an hour after the first stay on, if it has not left again, since `hSet` keeps the time at
  -- which the key expires.
  pub read_user_state-again :
      (t₀ t₁ t₂ t : ℕ) (r : R)
      → live t₀ (c.shows key r) ≡ empty_hash
      → t₂ < t₁ + 3600
      → t₁ + 3600 ≤ t
      → is_closed (
          read_user_state c in_order t app_name [] user_id
            (connects t₂ (leaves t₁ (connects t₀ r))))
        ≡ true
  unfolding is_closed read_user_state get_user_state value_map reply_of pick_all
  read_user_state-again t₀ t₁ t₂ t r e early late =
      rw
        (
          laws.hgetall_lem t key (connects t₂ (leaves t₁ (connects t₀ r))),
          shows_again t₀ t₁ t₂ r e early,
          live_late t t₁ (left_fields node plain t₂ t₁) late,
        )
        refl

  -- If the node has no `_` in its name, redis does what its documentation says, and more than two
  -- fields of a user, whose key has not expired, are there once the time of leaving is set, then
  -- expiring the state takes the two fields of the node and no others, and the key keeps the time
  -- at which it expires, if any of it is left.
  pub leaves_beside :
      (t₁ : ℕ) (h : Hash) (r : R) (f : Text)
      → live t₁ (c.shows key r) ≡ h
      → live_until h.expires t₁ ≡ true
      → 2 < length (store (disconnect_field node plain) (format_int t₁) h.fields)
      → let after = c.shows key (leaves t₁ r) in
        (load f after.fields ≡ (
          if (connect_field node plain == f) || (disconnect_field node plain == f)
          then none
          else load f h.fields))
        × (after.expires ≡ expiry after.fields h.expires)
  leaves_beside t₁ h r f e open_yet more =
      let set = store (disconnect_field node plain) (format_int t₁) h.fields in
      let more_yet : ltb 2 (length set) ≡ true = ground (arith, more) in
      rw (shows-leaves t₁ h r e open_yet, more_yet)
        (
          gone_or_kept (connect_field node plain) (disconnect_field node plain) f (format_int t₁)
              h.fields,
          refl,
        )
