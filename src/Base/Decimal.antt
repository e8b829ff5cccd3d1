-- ===== src/Base/Decimal.antt =====
-- `strconv.FormatInt(n, 10)` for a number that is not negative, and `strconv.ParseInt(s, 10, 0)` of
-- Go's standard library, whose `int` has 64 bits. The parser's error is dropped by its caller.
use mathlib.Core.Logic.{inl, inr}
use Prim.Native.Nat.{ℕ, zero, suc, ◌+◌, ◌-◌, ◌*◌, ◌/◌, ◌%◌, ◌≤◌, ◌<◌}
use mathlib.Core.Bool.{Bool, ◌&&◌}
use mathlib.Core.List.{[], ◌∷◌}
use mathlib.Core.Path.{◌≡◌}
use native.Mathlib.Omega.{arith}
use longcom.Base.Int.{ℤ, pos, negsuc}
use longcom.Base.Tests.{Text, ltb, leb, if◌then◌else◌, nat_beq, Bool-cases}

format_digits : ℕ → ℕ → Text → Text
format_digits zero n rest = rest
format_digits (suc fuel) n rest =
    let more = format_digits fuel (n / 10) ((b'0' + n % 10) ∷ rest) in
    if ltb n 10 then (b'0' + n) ∷ rest else more

-- A number has fewer digits than its successor counts.
unfoldable pub format_int : ℕ → Text
unfolding format_digits
format_int n = format_digits (n + 1) n []

-- `ParseUint`: a syntax error, a value that does not fit 64 bits, or the value.
pub data Parsed : Type 0 where
  bad_syntax out_of_range : Parsed
  value : ℕ → Parsed

abbrev is_digit : ℕ → Bool
is_digit c = leb b'0' c && leb c b'9'

parse_digits : ℕ → Text → Parsed
parse_digits n [] = value n
parse_digits n (c ∷ cs) =
    let next = n * 10 + (c - b'0') in
    let rest = parse_digits next cs in
    if is_digit c then if ltb next 18446744073709551616 then rest else out_of_range else bad_syntax

unfoldable pub parse_uint : Text → Parsed
unfolding parse_digits
parse_uint [] = bad_syntax
parse_uint (c ∷ cs) = parse_digits 0 (c ∷ cs)

abbrev pub max_int : ℕ
max_int = 9223372036854775807

abbrev positive_of : Parsed → ℤ
positive_of bad_syntax = pos 0
positive_of out_of_range = pos max_int
positive_of (value n) = pos (if ltb max_int n then max_int else n)

abbrev negative_of : Parsed → ℤ
negative_of bad_syntax = pos 0
negative_of out_of_range = negsuc max_int
negative_of (value zero) = pos 0
negative_of (value (suc n)) = negsuc (if ltb max_int n then max_int else n)

unfoldable pub parse_int : Text → ℤ
unfolding parse_uint
parse_int [] = pos 0
parse_int (c ∷ cs) =
    if nat_beq c b'-'
    then negative_of (parse_uint cs)
    else if nat_beq c b'+'
    then positive_of (parse_uint cs)
    else positive_of (parse_uint (c ∷ cs))

parse-format_digits :
    (fuel n : ℕ) (rest : Text)
    → n < fuel
    → n ≤ max_int
    → parse_digits 0 (format_digits fuel n rest) ≡ parse_digits n rest
unfolding parse_digits format_digits
parse-format_digits zero n rest f h = absurd (omega arith)
parse-format_digits (suc fuel) n rest f h =
    ground (arith, parse-format_digits fuel (n / 10) ((b'0' + n % 10) ∷ rest))

format_digits-head :
    (fuel n : ℕ) (rest : Text)
    → n < fuel
    → (c : ℕ) × (cs : Text) × (format_digits fuel n rest ≡ c ∷ cs) × (b'0' ≤ c)
unfolding format_digits
format_digits-head zero n rest f = absurd (omega arith)
format_digits-head (suc fuel) n rest f = elim (Bool-cases (ltb n 10)) [
  | inl e ↦ (b'0' + n, rest, rw e, omega arith)
  | inr e ↦ rw e (format_digits-head fuel (n / 10) ((b'0' + n % 10) ∷ rest) (ground arith))
]

-- What `FormatInt` prints `ParseInt` reads back.
pub parse_int-format_int : (n : ℕ) → n ≤ max_int → parse_int (format_int n) ≡ pos n
unfolding parse_int format_int parse_digits
parse_int-format_int n h =
    let (c, cs, e, low) = format_digits-head (n + 1) n [] (omega arith) in
    let parsed = parse-format_digits (n + 1) n [] (omega arith) h in ground (arith, e, low, parsed)
