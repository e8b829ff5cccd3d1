-- ===== src/Tests/States.antt =====
-- The user state at concrete inputs.
use longcom.Base.{
  List, ℕ, ◌+◌, ◌<◌, ◌≡◌, refl, ◌==◌, ==-refl, text_eq, text_beq, true, false, if◌then◌else◌, ◌||◌,
  [], ◌∷◌, none, some, ltb, length, arith, Text, bytes, contains, nat_eq,
}
use longcom.Base.Dict.{load, store, delete}
use longcom.Base.Decimal.{format_int}
use longcom.Logic.Redis.{
  Hash, empty_hash, live, expiry, reply_of, Redis, IsRedis, state_key, read_user_state,
}
use longcom.Logic.Sessions.{connect_field, disconnect_field, past_state}
use longcom.Logic.Stays.{connects, leaves, in_order, read_user_state-again, leaves_beside}
use longcom.Logic.Calls.{user_state_field}
use longcom.Logic.UserState.{UserState, no_state, pick_all, is_closed}
use longcom.Logic.States.{all_online, min_connect_time, pick_all-earliest, pick_all_misses_online}
use longcom.Base.Run.{ok}
use longcom.Logic.Calls.{StateCall}
use longcom.Broker.Group.{Group, new_group_manager, add_alias_conn, remove_alias_conn}
use longcom.Broker.Group.View.{members, hub_of}
use longcom.Broker.Group.Coherence.{new_group_manager-IsCoherent}
use longcom.Broker.Group.Presence.{perform_all, read_user_state-remove_alias_conn}
use longcom.Tests.{app, ann, news, node}

abbrev off : UserState
off = record { node = bytes "a"; connect_time = 100; disconnect_time = 150 }

abbrev on : UserState
on = record { node = bytes "b"; connect_time = 200; disconnect_time = 0 }

abbrev later : UserState
later = record { node = bytes "c"; connect_time = 300; disconnect_time = 0 }

pick_all-earliest_example :
    ((pick_all later (on ∷ [])).connect_time ≡ min_connect_time 300 (on ∷ []))
    × ((pick_all later (on ∷ [])).disconnect_time ≡ 0)
unfolding all_online
pick_all-earliest_example = pick_all-earliest later (on ∷ []) refl

pick_all_misses_online_example :
    (is_closed (pick_all no_state (off ∷ on ∷ [])) ≡ true)
    × (is_closed (pick_all no_state (on ∷ off ∷ [])) ≡ false)
pick_all_misses_online_example =
    pick_all_misses_online off on (omega arith) (omega arith) (omega arith) refl

-- A redis that is the function of what its keys show.
abbrev Store : Type 0
Store = Text → Hash

abbrev put : Text → Hash → Store → Store
put key h r k = if key == k then h else r k

put-same : (key : Text) (h : Hash) (r : Store) → put key h r key ≡ h
put-same key h r = rw (==-refl key) refl

abbrev store_redis : Redis Store
store_redis = record {
  hset = λ now key field value r.
      (let h = live now (r key) in
        put key (record { fields = store field value h.fields; expires = h.expires }) r);
  hlen = λ now key r. length (live now (r key)).fields;
  hdel = λ now key field r.
      (let h = live now (r key) in
        let left = delete field h.fields in
        put key (record { fields = left; expires = expiry left h.expires }) r);
  expire = λ now key seconds r.
      (let h = live now (r key) in
        put key (record { fields = h.fields; expires = expiry h.fields (some (now + seconds)) }) r);
  hgetall = λ now key r. reply_of (live now (r key)).fields;
  shows = λ key r. r key;
}

store_redis-IsRedis : IsRedis store_redis
store_redis-IsRedis = record {
  shows-hset = λ now key field value r. put-same key _ r;
  hlen_lem = λ now key r. refl;
  shows-hdel = λ now key field r. put-same key _ r;
  shows-expire = λ now key seconds r. put-same key _ r;
  hgetall_lem = λ now key r. refl;
}

abbrev nothing : Store
nothing key = empty_hash

abbrev two_fields : Hash
two_fields = record {
  fields = (bytes "b_connect", bytes "90") ∷ (bytes "c_connect", bytes "95") ∷ [];
  expires = none;
}

plain : contains node b'_' ≡ false
unfolding contains
plain = refl

nothing_live : (t : ℕ) → live t empty_hash ≡ empty_hash
unfolding live
nothing_live t = refl

abbrev manager : Group
manager = new_group_manager app

manager_empty : members manager ann ≡ []
unfolding members hub_of load new_group_manager
manager_empty = refl

read_user_state-remove_alias_conn_example :
    (g' : Group) × (calls : List StateCall) × (add_alias_conn app node ann 7 (news ∷ []) 100 manager
      ≡ ok (g', calls))
    × (let left = remove_alias_conn app node ann 7 g' in
        let after =
          perform_all app node ann 7
            (news ∷ [])
            100
            manager
            (new_group_manager-IsCoherent app)
            manager_empty
            store_redis
            store_redis-IsRedis
            plain in
        let state =
          read_user_state store_redis
            (in_order store_redis store_redis-IsRedis app ann node plain)
            3000
            app
            []
            ann
            (after 150 left.1 (after 100 calls nothing)) in
        (members left.0 ann ≡ [])
        × (state ≡ past_state node plain 100 150)
        × (is_closed state ≡ ltb 100 150))
read_user_state-remove_alias_conn_example =
    read_user_state-remove_alias_conn app node ann 7 (news ∷ []) 100 manager
      (new_group_manager-IsCoherent app) manager_empty store_redis store_redis-IsRedis plain 150
      3000 nothing (nothing_live 100) (omega arith) (omega arith) (omega arith) (omega arith)
      (omega arith)

read_user_state-again_example :
    is_closed (
      read_user_state store_redis
        (in_order store_redis store_redis-IsRedis app ann node plain)
        3800
        app
        []
        ann
        (connects store_redis store_redis-IsRedis app ann node plain 200 (
          leaves store_redis store_redis-IsRedis app ann node plain 150
            (connects store_redis store_redis-IsRedis app ann node plain 100 nothing))))
    ≡ true
read_user_state-again_example =
    read_user_state-again store_redis store_redis-IsRedis app ann node plain 100 150 200 3800
      nothing (nothing_live 100) (omega arith) (omega arith)

abbrev others : Store
others key = two_fields

others_live : live 150 two_fields ≡ two_fields
unfolding live
others_live = refl

others_stay : 2 < length (store (disconnect_field node plain) (format_int 150) two_fields.fields)
unfolding store text_beq user_state_field
others_stay = omega arith

leaves_beside_example :
    let after =
      leaves store_redis store_redis-IsRedis app ann node plain 150 others (state_key app [] ann) in
    (load (bytes "b_connect") after.fields ≡ (
      if (connect_field node plain == bytes "b_connect")
        || (disconnect_field node plain == bytes "b_connect")
      then none
      else load (bytes "b_connect") two_fields.fields))
    × (after.expires ≡ expiry after.fields none)
leaves_beside_example =
    leaves_beside store_redis store_redis-IsRedis app ann node plain 150 two_fields others
      (bytes "b_connect") others_live refl others_stay
