-- ===== src/Broker/Buffer.antt =====
-- broker/conn.go: `separateReadWriteBuffer`, a `bytes.Reader` and a `bytes.Buffer` side by side.
use longcom.Base.{
  ℕ, zero, suc, ◌<◌, ◌≤◌, ◌≡◌, refl, ap, ◌∙◌, arith, [], ◌∷◌, ◌++◌, Option, none, some, Text,
  length, take,
}
use longcom.Base.Bytes.{drop, take-drop}

pub record SeparateReadWriteBuffer : Type 0 where
  pub unread : Text
  pub written : Text

unfoldable pub new_separate_read_write_buffer : Text → SeparateReadWriteBuffer
new_separate_read_write_buffer inbound = record { unread = inbound; written = [] }

-- `Read` into `n` bytes: what was read, or `none` for `io.EOF`, which comes with no bytes.
unfoldable pub read : (n : ℕ) → SeparateReadWriteBuffer → SeparateReadWriteBuffer × Option Text
read n b = elim b.unread [
  | [] ↦ (b, none)
  | (x ∷ xs) ↦ (record b { unread = drop n b.unread }, some (take n b.unread))
]

unfoldable pub unread_len : SeparateReadWriteBuffer → ℕ
unread_len b = length b.unread

unfoldable pub write : Text → SeparateReadWriteBuffer → SeparateReadWriteBuffer × ℕ
write p b = (record b { written = b.written ++ p }, length p)

unfoldable pub all_bytes : SeparateReadWriteBuffer → Text
all_bytes b = b.written

drop_le : (n : ℕ) (xs : Text) → length (drop n xs) ≤ length xs
drop_le zero xs = omega arith
drop_le (suc n) [] = omega arith
drop_le (suc n) (x ∷ xs) = omega (arith, drop_le n xs)

-- What is read, `n` bytes at a time, in so many calls.
abbrev pub read_times : ℕ → (n : ℕ) → SeparateReadWriteBuffer → Text
read_times zero n b = []
read_times (suc k) n b = elim (read n b).1 [
  | none ↦ []
  | some got ↦ got ++ read_times k n (read n b).0
]

-- Reads of any size that is not 0 return all the bytes that the buffer was made from, in order.
pub read_times-all :
    (k n : ℕ) (inbound : Text)
    → length inbound ≤ k
    → 0 < n
    → read_times k n (new_separate_read_write_buffer inbound) ≡ inbound
unfolding read new_separate_read_write_buffer
read_times-all zero n [] h p = refl
read_times-all zero n (x ∷ xs) h p = absurd (ground (arith, h))
read_times-all (suc k) n [] h p = refl
read_times-all (suc k) zero (x ∷ xs) h p = absurd (omega (arith, p))
read_times-all (suc k) (suc n) (x ∷ xs) h p =
    ap (λ rest. x ∷ (take n xs ++ rest))
      (read_times-all k (suc n) (drop n xs) (omega (arith, h, drop_le n xs)) p)
    ∙ ap (λ l. x ∷ l) (take-drop n xs)
