-- ===== src/Ws/Unframed.antt =====
-- repo/ws/read.go: `ReadFrameFromBytes` on frames with no payload, and on short frames with no mask.
use longcom.Base.{ℕ, ◌%◌, ◌<◌, ◌≤◌, ◌≡◌, [], ◌∷◌, nat_eq, arith, Text, length, take}
use longcom.Ws.Frame.{
  taken, first_header, extra_bytes, extended_header, read_header_from_bytes, read_payload,
  read_frame_from_bytes,
}

-- A frame with no payload, all of which is there, is not taken by `ReadFrameFromBytes`: it returns
-- no frame, no error and the offset 0, whatever comes after.
pub read_frame-no_payload :
    (b₀ b₁ : ℕ) (rest : Text)
    → b₁ % 128 ≡ 0
    → extra_bytes b₁ ≤ length rest
    → read_frame_from_bytes (b₀ ∷ b₁ ∷ rest) ≡ taken 0 []
unfolding read_frame_from_bytes read_header_from_bytes read_payload extended_header first_header
    extra_bytes
read_frame-no_payload b₀ b₁ rest none_there whole = ground arith

-- Of a frame of 1 to 125 bytes of payload with no mask, all of which is there, `ReadFrameFromBytes`
-- takes two bytes less than the frame has.
pub read_frame-no_mask :
    (b₀ b₁ : ℕ) (rest : Text)
    → 0 < b₁
    → b₁ < 126
    → b₁ ≤ length rest
    → read_frame_from_bytes (b₀ ∷ b₁ ∷ rest) ≡ taken b₁ (take b₁ (b₀ ∷ b₁ ∷ rest))
unfolding read_frame_from_bytes read_header_from_bytes read_payload first_header extra_bytes
read_frame-no_mask b₀ b₁ rest carries short whole = ground arith
