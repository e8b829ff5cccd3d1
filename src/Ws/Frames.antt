-- ===== src/Ws/Frames.antt =====
-- repo/ws/read.go: `ReadFrameFromBytes` on the frames of RFC 6455 that carry a payload, which are
-- described here apart from the code, and on bytes that end inside such a frame.
use mathlib.Core.List.{append_assoc}
use longcom.Base.{
  ℕ, suc, ◌+◌, ◌<◌, ◌≤◌, ◌≡◌, refl, sym, ap, ◌∙◌, inl, inr, false, [], ◌∷◌, ◌++◌, Text, ltb, leb,
  length, take, get_or, length-append, if◌then◌else◌, nat_eq, arith, Bool-cases, subst,
}
use longcom.Base.Bytes.{
  drop, big_endian, digits, power, take-prefix, take-append, length-drop, length-digits,
  big_endian-digits,
}
use longcom.Ws.Frame.{
  Header, HeaderRead, header_read, Taken, taken, refused, need_more_data, first_header, with_mask,
  extra_bytes, extended_header, read_header_from_bytes, read_payload, read_frame_from_bytes,
}

-- A masked frame: its first byte, with the final bit and the operation, its mask and its payload.
pub record Frame : Type 0 where
  pub first : ℕ
  pub mask : Text
  pub payload : Text

-- The second byte, and the bytes of an extended length.
unfoldable pub length_code : ℕ → ℕ
length_code n = if ltb n 126 then 128 + n else if ltb n 65536 then 254 else 255

unfoldable pub length_bytes : ℕ → Text
unfolding digits
length_bytes n = if ltb n 126 then [] else if ltb n 65536 then digits 2 n else digits 8 n

unfoldable pub frame_header : Frame → Text
unfolding length_bytes
frame_header f = length_bytes (length f.payload) ++ f.mask

unfoldable pub frame_bytes : Frame → Text
frame_bytes f = f.first ∷ length_code (length f.payload) ∷ frame_header f ++ f.payload

-- Of the lengths that 64 bits hold RFC 6455 has those whose first bit is 0.
abbrev pub max_payload : ℕ
max_payload = 9223372036854775808

pub record IsFrame (f : Frame) : Type 0 where
  pub masked : length f.mask ≡ 4
  pub carries : 0 < length f.payload
  pub bounded : length f.payload < max_payload

length-length_bytes : (n : ℕ) → extra_bytes (length_code n) ≡ length (length_bytes n) + 4
unfolding extra_bytes length_code length_bytes
length-length_bytes n = ground (arith, length-digits 2 n, length-digits 8 n)

first_digit : (n : ℕ) → n < max_payload → leb 128 (get_or (digits 8 n) 0 0) ≡ false
unfolding digits
first_digit n h = ground arith

payload_length-with_mask :
    (bts : Text) (h : Header) → (with_mask bts h).payload_length ≡ h.payload_length
unfolding with_mask
payload_length-with_mask bts h = ground arith

-- The header that the code reads from the bytes of the frame's header has the frame's length.
Announces : ℕ → ℕ → HeaderRead → Type 0
Announces readoffset n r = (h : Header) × (r ≡ header_read readoffset h) × (h.payload_length ≡ n)

module _ (f : Frame) (v : IsFrame f) where
  abbrev size : ℕ
  size = length f.payload

  abbrev second_byte : ℕ
  second_byte = length_code size

  abbrev header_size : ℕ
  header_size = extra_bytes second_byte

  length-frame_header : length (frame_header f) ≡ header_size
  unfolding frame_header
  length-frame_header =
      omega (arith, length-append (length_bytes size) f.mask, v.masked, length-length_bytes size)

  header_size_pos : 0 < header_size
  header_size_pos = omega (arith, length-length_bytes size)

  length-frame_bytes : length (frame_bytes f) ≡ header_size + 2 + size
  unfolding frame_bytes
  length-frame_bytes = omega (arith, length-append (frame_header f) f.payload, length-frame_header)

  abbrev start : Header
  start = first_header f.first second_byte

  -- The header with an extended length of `k` bytes.
  abbrev extended : ℕ → Header
  extended k =
      with_mask (drop k (frame_header f))
        (record start { payload_length = big_endian 0 (take k (frame_header f)) })

  extended_length :
      (k : ℕ)
      → length_bytes size ≡ digits k size
      → size < power k
      → (extended k).payload_length ≡ size
  unfolding frame_header
  extended_length k e h =
      payload_length-with_mask (drop k (frame_header f)) _
      ∙ (rw (e, take-append k (digits k size) f.mask (sym (length-digits k size)))
          (big_endian-digits k size h))

  extended_header-Announces :
      Announces (header_size + 2) size (extended_header second_byte (frame_header f) start)
  unfolding Announces extended_header frame_header length_code length_bytes first_header
  extended_header-Announces = elim (Bool-cases (ltb size 126)) [
    | inl e ↦ (
      with_mask (frame_header f) start,
      ground (arith, e),
      payload_length-with_mask (frame_header f) start ∙ (ground (arith, e)),
    )
    | inr e ↦ elim (Bool-cases (ltb size 65536)) [
      | inl d ↦ (
        extended 2,
        ground (arith, e, d),
        extended_length 2 (ground (arith, e, d)) (ground (arith, d)),
      )
      | inr d ↦ (
        extended 8,
        ground (arith, e, d, first_digit size v.bounded),
        extended_length 8 (ground (arith, e, d)) (omega (arith, v.bounded)),
      )
    ]
  ]

  -- A buffer that holds as much of the frame, and of what follows it, as has come.
  module _ (rest x y : Text) (cut : rest ++ x ≡ (frame_header f ++ f.payload) ++ y) where
    abbrev inbound : Text
    inbound = f.first ∷ second_byte ∷ rest

    read_header-short :
        length rest < header_size → read_frame_from_bytes inbound ≡ refused need_more_data
    unfolding read_frame_from_bytes read_header_from_bytes read_payload
    read_header-short short = ground (arith, header_size_pos)

    module _ (long : header_size ≤ length rest) where
      header_came :
          (take header_size rest ≡ frame_header f) × (drop header_size rest ++ x ≡ f.payload ++ y)
      header_came =
          subst (λ k. (take k rest ≡ frame_header f) × (drop k rest ++ x ≡ f.payload ++ y))
            length-frame_header
            (take-prefix (frame_header f) rest x (f.payload ++ y)
              (cut ∙ append_assoc (frame_header f) f.payload y)
              (omega (arith, length-frame_header)))

      read_header-Announces : Announces (header_size + 2) size (read_header_from_bytes inbound)
      unfolding read_header_from_bytes Announces
      read_header-Announces =
          let (h, e, n) = extended_header-Announces in
          (h, ground (arith, header_size_pos, header_came.0, e), n)

      -- The payload is there, or it is not.
      read_payload-lem :
          (h : Header)
          → h.payload_length ≡ size
          → read_payload inbound (header_read (header_size + 2) h) ≡ (
              if ltb (length (drop header_size rest)) size
              then refused need_more_data
              else taken (header_size + 2 + size) (take (header_size + 2 + size) inbound))
      unfolding read_payload
      read_payload-lem h n = ground (arith, n, v.carries, drop_header)
        where
          two_more : suc (suc header_size) ≡ header_size + 2
          two_more = omega arith

          drop_header : drop (header_size + 2) inbound ≡ drop header_size rest
          drop_header = subst (λ k. drop k inbound ≡ drop header_size rest) two_more refl

      read_frame_long : read_frame_from_bytes inbound ≡ (
          if ltb (length rest) (header_size + size)
          then refused need_more_data
          else taken (header_size + 2 + size) (take (header_size + 2 + size) inbound))
      unfolding read_frame_from_bytes Announces
      read_frame_long =
          let (h, e, n) = read_header-Announces in
          rw (e, read_payload-lem h n) (ground (arith, length-drop header_size rest long))

-- A frame is taken whole.
unfoldable pub frame_taken : Frame → Taken
frame_taken f = taken (length (frame_bytes f)) (frame_bytes f)

module _ (f : Frame) (v : IsFrame f) where
  module _ (rest x y : Text) (cut : rest ++ x ≡ (frame_header f ++ f.payload) ++ y) where
    whole :
        header_size f v + size f v ≤ length rest
        → take (header_size f v + 2 + size f v) (inbound f v rest x y cut) ≡ frame_bytes f
    unfolding frame_bytes
    whole h =
        subst (λ k. take k (inbound f v rest x y cut) ≡ frame_bytes f) (length-frame_bytes f v)
          (take-prefix (frame_bytes f) (inbound f v rest x y cut) x y
            (ap (λ t. f.first ∷ second_byte f v ∷ t) cut) (omega (arith, length-frame_bytes f v))).0

    read_cut : read_frame_from_bytes (inbound f v rest x y cut) ≡ (
        if ltb (length rest) (header_size f v + size f v)
        then refused need_more_data
        else frame_taken f)
    unfolding frame_taken
    read_cut = elim (Bool-cases (ltb (length rest) (header_size f v))) [
      | inl e ↦ read_header-short f v rest x y cut (ground (arith, e)) ∙ (ground (arith, e))
      | inr e ↦
          read_frame_long f v rest x y cut (ground (arith, e))
          ∙ (ground (arith, whole, length-frame_bytes f v))
    ]

  read_heads :
      (a b : ℕ) (rest x y : Text)
      → a ≡ f.first
      → b ≡ second_byte f v
      → rest ++ x ≡ (frame_header f ++ f.payload) ++ y
      → read_frame_from_bytes (a ∷ b ∷ rest) ≡ (
          if ltb (length rest) (header_size f v + size f v)
          then refused need_more_data
          else frame_taken f)
  read_heads a b rest x y e d cut = rw (e, d) (read_cut rest x y cut)

  -- Of bytes that agree with the frame and what follows it as far as both go, `ReadFrameFromBytes`
  -- takes the frame if it is there as a whole, and asks for more data otherwise.
  pub read_frame-cut :
      (inbound x y : Text)
      → inbound ++ x ≡ frame_bytes f ++ y
      → read_frame_from_bytes inbound ≡ (
          if ltb (length inbound) (length (frame_bytes f))
          then refused need_more_data
          else frame_taken f)
  unfolding read_frame_from_bytes read_payload read_header_from_bytes frame_bytes
  read_frame-cut [] x y cut = ground (arith)
  read_frame-cut (a ∷ []) x y cut = ground (arith, length-frame_bytes f v)
  read_frame-cut (a ∷ b ∷ rest) x y cut =
      read_heads a b rest x y (ground (arith, cut)) (ground (arith, cut)) (ground (arith, cut))
      ∙ (ground (arith, length-frame_bytes f v))

pub length-frame_bytes-pos : (f : Frame) → 0 < length (frame_bytes f)
unfolding frame_bytes
length-frame_bytes-pos f = omega arith
