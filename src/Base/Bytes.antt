-- ===== src/Base/Bytes.antt =====
-- Bytes on the wire: the rest of a list, prefixes, and numbers with the big end first.
use mathlib.Core.List.{List, [], ◌∷◌, ◌++◌}
use mathlib.Core.Path.{◌≡◌, refl, ap}
use Prim.Native.Nat.{ℕ, zero, suc, ◌+◌, ◌*◌, ◌/◌, ◌%◌, ◌<◌, ◌≤◌}
use native.Mathlib.Omega.{arith}
use longcom.Base.Lists.{length, take, length-append}
use longcom.Base.Tests.{Text}

module _ {ℓ} {A : Type ℓ} where
  abbrev pub drop : ℕ → List A → List A
  drop zero xs = xs
  drop (suc n) [] = []
  drop (suc n) (x ∷ xs) = drop n xs

  -- Of two lists that agree as far as both go, the longer one starts with the shorter one.
  pub take-prefix :
      (ys xs x y : List A)
      → xs ++ x ≡ ys ++ y
      → length ys ≤ length xs
      → (take (length ys) xs ≡ ys) × (drop (length ys) xs ++ x ≡ y)
  take-prefix [] xs x y e h = (refl, e)
  take-prefix (b ∷ ys) [] x y e h = absurd (omega arith)
  take-prefix (b ∷ ys) (a ∷ xs) x y e h =
      let (p, q) = take-prefix ys xs x y (ground (arith, e)) (omega arith) in
      (ground (arith, p, e), q)

  pub take-drop : (n : ℕ) (xs : List A) → take n xs ++ drop n xs ≡ xs
  take-drop zero xs = refl
  take-drop (suc n) [] = refl
  take-drop (suc n) (x ∷ xs) = ap (◌∷◌ x) (take-drop n xs)

  pub length-drop : (n : ℕ) (xs : List A) → n ≤ length xs → n + length (drop n xs) ≡ length xs
  length-drop zero xs h = omega arith
  length-drop (suc n) [] h = absurd (omega arith)
  length-drop (suc n) (x ∷ xs) h = omega (arith, length-drop n xs (omega arith))

  pub take-append : (n : ℕ) (xs ys : List A) → n ≡ length xs → take n (xs ++ ys) ≡ xs
  take-append zero [] ys h = refl
  take-append (suc n) [] ys h = absurd (omega arith)
  take-append zero (x ∷ xs) ys h = absurd (omega arith)
  take-append (suc n) (x ∷ xs) ys h = ap (◌∷◌ x) (take-append n xs ys (omega arith))

  pub drop-append : (n : ℕ) (xs ys : List A) → n ≡ length xs → drop n (xs ++ ys) ≡ ys
  drop-append zero [] ys h = refl
  drop-append (suc n) [] ys h = absurd (omega arith)
  drop-append zero (x ∷ xs) ys h = absurd (omega arith)
  drop-append (suc n) (x ∷ xs) ys h = drop-append n xs ys (omega arith)

-- `binary.BigEndian.Uint16` and `Uint64`, on as many bytes as there are.
unfoldable pub big_endian : ℕ → Text → ℕ
big_endian acc [] = acc
big_endian acc (b ∷ bs) = big_endian (acc * 256 + b) bs

-- The last `k` digits of a number to the base 256.
unfoldable pub digits : ℕ → ℕ → Text
digits zero n = []
digits (suc k) n = digits k (n / 256) ++ n % 256 ∷ []

abbrev pub power : ℕ → ℕ
power zero = 1
power (suc k) = 256 * power k

pub length-digits : (k n : ℕ) → length (digits k n) ≡ k
unfolding digits
length-digits zero n = refl
length-digits (suc k) n =
    omega (arith, length-append (digits k (n / 256)) (n % 256 ∷ []), length-digits k (n / 256))

big_endian-append :
    (acc b : ℕ) (bs : Text) → big_endian acc (bs ++ b ∷ []) ≡ big_endian acc bs * 256 + b
unfolding big_endian
big_endian-append acc b [] = refl
big_endian-append acc b (c ∷ bs) = big_endian-append (acc * 256 + c) b bs

pub big_endian-digits : (k n : ℕ) → n < power k → big_endian 0 (digits k n) ≡ n
unfolding digits big_endian
big_endian-digits zero n h = omega arith
big_endian-digits (suc k) n h = omega (
  arith,
  big_endian-append 0 (n % 256) (digits k (n / 256)),
  big_endian-digits k (n / 256) (omega arith),
)
