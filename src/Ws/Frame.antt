-- ===== src/Ws/Frame.antt =====
-- repo/ws/read.go: the header of a frame and a whole frame, read from the bytes that gnet holds.
-- A byte is a number below 256, so `b & 0x80 != 0` is `128 ≤ b` and `b & 0x7f` is `b % 128`.
use longcom.Base.{
  ℕ, ◌+◌, ◌/◌, ◌%◌, Bool, [], ◌∷◌, Text, bytes, ltb, leb, length, take, get_or, if◌then◌else◌, ◌==◌,
  nat_eq,
}
use longcom.Base.Bytes.{drop, big_endian}
use longcom.Errors.{Error, known, other, gnet_websocket_codec_need_more_data}

-- `ws.Header`
pub record Header : Type 0 where
  pub fin : Bool
  pub rsv : ℕ
  pub op_code : ℕ
  pub masked : Bool
  pub mask : Text
  pub payload_length : ℕ

-- The offset behind the header, and the header.
pub data HeaderRead : Type 0 where
  header_read : (readoffset : ℕ) → Header → HeaderRead
  header_error : Error → HeaderRead

-- The offset behind what was taken from the bytes, and what was taken; a nil slice is the empty one.
pub data Taken : Type 0 where
  taken : (readoffset : ℕ) → Text → Taken
  refused : Error → Taken

abbrev pub need_more_data : Error
need_more_data = known gnet_websocket_codec_need_more_data

abbrev pub header_length_msb : Error
header_length_msb = other (bytes "header error: the most significant bit must be 0")

abbrev no_mask : Text
no_mask = 0 ∷ 0 ∷ 0 ∷ 0 ∷ []

-- What the first two bytes say, with the length that is not extended.
unfoldable pub first_header : (b₀ b₁ : ℕ) → Header
first_header b₀ b₁ = record {
  fin = leb 128 b₀;
  rsv = b₀ / 16 % 8;
  op_code = b₀ % 16;
  masked = leb 128 b₁;
  mask = no_mask;
  payload_length = if ltb (b₁ % 128) 126 then b₁ % 128 else 0;
}

-- `extra`: the bytes of the header behind the first two.
unfoldable pub extra_bytes : ℕ → ℕ
extra_bytes b₁ =
    (if leb 128 b₁ then 4 else 0)
    + (if ltb (b₁ % 128) 126 then 0 else if b₁ % 128 == 126 then 2 else 8)

unfoldable pub with_mask : Text → Header → Header
with_mask bts h = if h.masked then record h { mask = take 4 bts } else h

-- The rest of the header, once its `extra` bytes are there.
unfoldable pub extended_header : (b₁ : ℕ) → Text → Header → HeaderRead
unfolding extra_bytes with_mask big_endian
extended_header b₁ bts h =
    let readoffset = extra_bytes b₁ + 2 in
    if ltb (b₁ % 128) 126
    then header_read readoffset (with_mask bts h)
    else if b₁ % 128 == 126
    then header_read readoffset
        (with_mask (drop 2 bts) (record h { payload_length = big_endian 0 (take 2 bts) }))
    else if leb 128 (get_or bts 0 0)
    then header_error header_length_msb
    else header_read readoffset
        (with_mask (drop 8 bts) (record h { payload_length = big_endian 0 (take 8 bts) }))

-- `ReadHeaderFromBytes`. Its test for an unexpected length cannot be met by seven bits.
unfoldable pub read_header_from_bytes : Text → HeaderRead
unfolding first_header extra_bytes extended_header
read_header_from_bytes [] = header_error need_more_data
read_header_from_bytes (b₀ ∷ []) = header_error need_more_data
read_header_from_bytes (b₀ ∷ b₁ ∷ rest) =
    if extra_bytes b₁ == 0
    then header_read 0 (first_header b₀ b₁)
    else if ltb (length rest) (extra_bytes b₁)
    then header_error need_more_data
    else extended_header b₁ (take (extra_bytes b₁) rest) (first_header b₀ b₁)

unfoldable pub read_payload : Text → HeaderRead → Taken
read_payload inbound (header_error e) = refused e
read_payload inbound (header_read offset h) =
    if ltb 0 h.payload_length
    then if ltb (length (drop offset inbound)) h.payload_length
      then refused need_more_data
      else taken (offset + h.payload_length) (take (offset + h.payload_length) inbound)
    else taken 0 []

-- `ReadFrameFromBytes`
unfoldable pub read_frame_from_bytes : Text → Taken
unfolding read_payload read_header_from_bytes
read_frame_from_bytes inbound = read_payload inbound (read_header_from_bytes inbound)
