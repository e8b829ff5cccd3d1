-- ===== src/Base/Utf8.antt =====
-- `utf8.Valid` of Go's library: the texts that its JSON writes and reads back as they are.
use longcom.Base.Tests.{Text, ltb, leb, if◌then◌else◌}
use Prim.Native.Nat.{ℕ}
use mathlib.Core.Bool.{Bool, true, false, ◌&&◌}
use mathlib.Core.List.{List, [], ◌∷◌}
use mathlib.Core.Option.{Option, none, some}

-- The least and the greatest byte that may stand at a place.
abbrev Range : Type 0
Range = ℕ × ℕ

abbrev any_next : Range
any_next = (128, 191)

-- What has to follow a first byte, or `none` if no sequence starts with it.
unfoldable following : ℕ → Option (List Range)
following b =
    if ltb b 128
    then some []
    else if ltb b 194
    then none
    else if ltb b 224
    then some (any_next ∷ [])
    else if ltb b 225
    then some ((160, 191) ∷ any_next ∷ [])
    else if ltb b 237
    then some (any_next ∷ any_next ∷ [])
    else if ltb b 238
    then some ((128, 159) ∷ any_next ∷ [])
    else if ltb b 240
    then some (any_next ∷ any_next ∷ [])
    else if ltb b 241
    then some ((144, 191) ∷ any_next ∷ any_next ∷ [])
    else if ltb b 244
    then some (any_next ∷ any_next ∷ any_next ∷ [])
    else if ltb b 245
    then some ((128, 143) ∷ any_next ∷ any_next ∷ [])
    else none

-- The text, behind a sequence that is not complete.
unfoldable pub valid_after : List Range → Text → Bool
unfolding following
valid_after [] [] = true
valid_after (r ∷ rs) [] = false
valid_after ((least, greatest) ∷ rs) (b ∷ t) = (leb least b && leb b greatest) && valid_after rs t
valid_after [] (b ∷ t) = elim (following b) [ none ↦ false | some rs ↦ valid_after rs t ]

unfoldable pub is_utf8 : Text → Bool
unfolding valid_after
is_utf8 t = valid_after [] t
