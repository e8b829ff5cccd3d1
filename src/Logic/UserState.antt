-- ===== src/Logic/UserState.antt =====
-- logic/state_logic.go: how `GetUserState` reads the hash of a user in redis, and, of
-- broker/trpc_handler.go, what the broker answers from it. `reply` is what the command hGetAll
-- returns, fields and values in turn; a value that is not a byte slice is `none`. The order in which
-- Go ranges over a map is not fixed: the states come as a list in that order.
use longcom.Base.{
  ℕ, suc, ◌≡◌, Bool, false, ◌&&◌, ◌||◌, List, [], ◌∷◌, ◌++◌, Option, none, some, arith, Text, bytes,
  contains, ltb, if◌then◌else◌, ◌==◌, nat_eq, text_eq,
}
use longcom.Base.Int.{ℤ, pos}
use longcom.Base.Dict.{Dict, load, store}
use longcom.Base.Decimal.{parse_int}

pub record UserState : Type 0 where
  pub node : Text
  pub connect_time : ℕ
  pub disconnect_time : ℕ

abbrev pub no_state : UserState
no_state = record { node = []; connect_time = 0; disconnect_time = 0 }

-- `bytes.IndexByte` with what stands before and after the byte; `none` for -1.
unfoldable pub cut_at : ℕ → Text → Option (Text × Text)
cut_at c [] = none
cut_at c (b ∷ s) = elim (cut_at c s) [
  | none ↦ if b == c then some ([], s) else none
  | some (u, v) ↦ if b == c then some ([], s) else some (b ∷ u, v)
]

unfoldable pub set_time : Text → ℕ → UserState → UserState
set_time field val s =
    if field == bytes "connect"
    then record s { connect_time = val }
    else if field == bytes "disconnect"
    then record s { disconnect_time = val }
    else s

abbrev state_or_new : Text → Option UserState → UserState
state_or_new node none = record no_state { node = node }
state_or_new node (some s) = s

-- The rest of a round of the loop, with the field cut at the first `_` and the value that was read.
unfoldable pub add_time : ℤ → Text × Text → Dict Text UserState → Dict Text UserState
unfolding set_time
add_time (pos (suc n)) (b ∷ u, field) h =
    let node = b ∷ u in store node (set_time field (suc n) (state_or_new node (load node h))) h
add_time _ _ h = h

unfoldable pub add_field : Option Text → Option Text → Dict Text UserState → Dict Text UserState
unfolding cut_at parse_int add_time
add_field (some key) (some value) h = elim (cut_at b'_' key) [
  | none ↦ h
  | some parts ↦ add_time (parse_int value) parts h
]
add_field _ _ h = h

-- `none` for an odd number of values.
unfoldable pub add_fields : List (Option Text) → Dict Text UserState → Option (Dict Text UserState)
unfolding add_field
add_fields [] h = some h
add_fields (key ∷ []) h = none
add_fields (key ∷ value ∷ rest) h = add_fields rest (add_field key value h)

abbrev map_or_empty : Option (Dict Text UserState) → Dict Text UserState
map_or_empty none = []
map_or_empty (some h) = h

unfoldable pub value_map : List (Option Text) → Dict Text UserState
unfolding add_fields
value_map values = map_or_empty (add_fields values [])

unfoldable pub pick : UserState → UserState → UserState
pick ret s =
    if ret.connect_time == 0
    then s
    else if s.disconnect_time == 0
    then if ltb s.connect_time ret.connect_time then s else ret
    else if ltb 0 s.disconnect_time && ltb 0 ret.disconnect_time
    then if ltb ret.disconnect_time s.disconnect_time then s else ret
    else ret

unfoldable pub pick_all : UserState → List UserState → UserState
unfolding pick
pick_all ret [] = ret
pick_all ret (s ∷ states) = pick_all (pick ret s) states

-- `GetUserState` where redis answers, with the order of the range as an argument.
unfoldable pub get_user_state :
    (Dict Text UserState → List UserState) → List (Option Text) → UserState
unfolding value_map pick_all
get_user_state range reply = pick_all no_state (range (value_map reply))

-- The field `Closed` of the answer to GetUserState.
unfoldable pub is_closed : UserState → Bool
is_closed s = s.connect_time == 0 || ltb s.connect_time s.disconnect_time

pub cut_at-append :
    (c : ℕ) (u v : Text) → contains u c ≡ false → cut_at c (u ++ (c ∷ v)) ≡ some (u, v)
unfolding cut_at contains
cut_at-append c [] v h = ground arith
cut_at-append c (b ∷ u) v h = ground (arith, cut_at-append c u v)
