-- ===== src/Logic/States.antt =====
-- logic/state_logic.go: what `GetUserState` returns for the hash that the broker wrote, and for
-- users with several nodes.
use mathlib.Core.Path.{ap}
use longcom.Base.{
  ℕ, zero, suc, ◌<◌, ◌≤◌, ◌≡◌, refl, Bool, true, false, ◌&&◌, List, [], ◌∷◌, ◌++◌, map, Option,
  some, arith, Text, bytes, contains, ltb, if◌then◌else◌, ◌==◌, nat_eq, text_eq, text_beq, ◌∙◌,
}
use longcom.Base.Int.{pos}
use longcom.Base.Dict.{Dict, load, store}
use longcom.Base.Decimal.{format_int, parse_int, parse_int-format_int, max_int}
use longcom.Logic.Calls.{user_state_field}
use longcom.Logic.UserState.{
  UserState, no_state, cut_at, set_time, add_time, add_field, value_map, pick, pick_all,
  get_user_state, is_closed, cut_at-append,
}

abbrev pub node_key : Text → Text
node_key node = bytes "{longcom}" ++ node

-- The reply of redis once the broker on the node has set the time of a connection.
abbrev pub connect_reply : Text → ℕ → List (Option Text)
connect_reply node now = some (user_state_field node (bytes "connect")) ∷ some (format_int now) ∷ []

abbrev pub connected_state : Text → ℕ → UserState
connected_state node now = record { node = node_key node; connect_time = now; disconnect_time = 0 }

pub node_key-plain :
    (node : Text) → contains node b'_' ≡ false → contains (node_key node) b'_' ≡ false
unfolding contains
node_key-plain node h = ground (arith, h)

cut_at-user_state_field :
    (node : Text)
    → contains node b'_' ≡ false
    → cut_at b'_' (user_state_field node (bytes "connect")) ≡ some (node_key node, bytes "connect")
unfolding user_state_field
cut_at-user_state_field node h =
    cut_at-append b'_' (node_key node) (bytes "connect") (node_key-plain node h)

pub add_field-cut :
    (key value : Text) (parts : Text × Text) (h : Dict Text UserState)
    → cut_at b'_' key ≡ some parts
    → add_field (some key) (some value) h ≡ add_time (parse_int value) parts h
unfolding add_field
add_field-cut key value parts h e = ground (arith, e)

value_map-pair : (key value : Option Text) → value_map (key ∷ value ∷ []) ≡ add_field key value []
unfolding value_map
value_map-pair key value = refl

add_time-connect :
    (node : Text) (now : ℕ)
    → add_time (pos (suc now)) (node_key node, bytes "connect") []
      ≡ (node_key node, connected_state node (suc now)) ∷ []
unfolding add_time load store set_time text_beq
add_time-connect node now = refl

value_map-connect_reply :
    (node : Text) (now : ℕ)
    → contains node b'_' ≡ false
    → now < max_int
    → value_map (connect_reply node (suc now))
      ≡ (node_key node, connected_state node (suc now)) ∷ []
value_map-connect_reply node now h below =
    let key = user_state_field node (bytes "connect") in
    let value = format_int (suc now) in
    value_map-pair (some key) (some value)
    ∙ (add_field-cut key value (node_key node, bytes "connect") [] (cut_at-user_state_field node h)
        ∙ (ap (λ n. add_time n (node_key node, bytes "connect") [])
              (parse_int-format_int (suc now) (omega arith))
            ∙ add_time-connect node now))

-- After the broker of a node with no `_` in its name has set the time of a connection, which is
-- positive and fits an int, in an empty hash, `GetUserState` reads that time, with a node that has
-- `{longcom}` before its name, and the answer says that the user is not closed.
pub get_user_state-connect_reply :
    (node : Text) (now : ℕ)
    → contains node b'_' ≡ false
    → 0 < now
    → now ≤ max_int
    → (get_user_state (map (λ (e : Text × UserState). e.1)) (connect_reply node now)
        ≡ connected_state node now)
      × (is_closed (connected_state node now) ≡ false)
unfolding get_user_state pick_all pick is_closed
get_user_state-connect_reply node zero h pos_now below = absurd (omega arith)
get_user_state-connect_reply node (suc now) h pos_now below =
    (rw (value_map-connect_reply node now h (omega arith)) refl, ground arith)

unfoldable pub all_online : List UserState → Bool
all_online [] = true
all_online (s ∷ states) = ltb 0 s.connect_time && s.disconnect_time == 0 && all_online states

unfoldable pub min_connect_time : ℕ → List UserState → ℕ
min_connect_time n [] = n
min_connect_time n (s ∷ states) =
    min_connect_time (if ltb s.connect_time n then s.connect_time else n) states

pub pick_all-earliest :
    (ret : UserState) (states : List UserState)
    → all_online (ret ∷ states) ≡ true
    → ((pick_all ret states).connect_time ≡ min_connect_time ret.connect_time states)
      × ((pick_all ret states).disconnect_time ≡ 0)
unfolding pick_all pick all_online min_connect_time
pick_all-earliest ret [] h = ground arith
pick_all-earliest ret (s ∷ states) h = ground (arith, pick_all-earliest (pick ret s) states)

-- For a user with two nodes, one that went offline and one that is online since no earlier than the
-- first connected, the answer of `GetUserState` depends on the order in which Go ranges over them:
-- the user is closed if the one offline comes first, and not closed otherwise.
pub pick_all_misses_online :
    (off on : UserState)
    → 0 < off.connect_time
    → off.connect_time < off.disconnect_time
    → off.connect_time ≤ on.connect_time
    → on.disconnect_time ≡ 0
    → (is_closed (pick_all no_state (off ∷ on ∷ [])) ≡ true)
      × (is_closed (pick_all no_state (on ∷ off ∷ [])) ≡ false)
unfolding pick_all pick is_closed
pick_all_misses_online off on p q r e = ground arith
