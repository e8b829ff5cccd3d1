-- ===== src/Broker/Websocket/Stream.antt =====
-- broker/websocket.go: `Decode` on a connection that has been upgraded, while its bytes come in
-- pieces of any size.
pub mod Delivery
use mathlib.Core.List.{append_assoc, append-nil, map-append}
use longcom.Base.{
  ℕ, zero, suc, ◌+◌, ◌≤◌, ◌<◌, ◌≡◌, refl, sym, ap, ◌∙◌, inl, inr, Bool, true, false, List, [], ◌∷◌,
  ◌++◌, map, Text, arith, ltb, length, length-append, if◌then◌else◌, ◌==◌, text_eq, Bool-cases,
  subst,
}
use longcom.Base.Bytes.{drop, take-prefix}
use longcom.Ws.Frame.{Taken, taken, refused, need_more_data, read_frame_from_bytes}
use longcom.Ws.Frames.{
  Frame, IsFrame, frame_bytes, frame_taken, read_frame-cut, length-frame_bytes-pos,
}
use longcom.Broker.Websocket.{Link, Decoded, decoded, undecoded, decode, shift, needs_more}

-- What happens to the buffer of a connection: bytes come, or gnet calls `Decode`.
pub data Event : Type 0 where
  arrives : Text → Event
  decodes : Event

-- `frames` has what `Decode` has returned, oldest first.
pub record Receiver : Type 0 where
  pub link : Link
  pub frames : List Text

abbrev pub returned : Decoded → List Text
returned (decoded f) = f ∷ []
returned (undecoded e) = []

unfoldable pub stream : List Frame → Text
stream [] = []
stream (f ∷ fs) = frame_bytes f ++ stream fs

unfoldable pub arrived : List Event → Text
arrived [] = []
arrived (arrives chunk ∷ es) = chunk ++ arrived es
arrived (decodes ∷ es) = arrived es

unfoldable pub calls : ℕ → List Event
calls zero = []
calls (suc n) = decodes ∷ calls n

-- What gnet's `ShiftN` does with a number of bytes that the buffer has.
abbrev pub Shifts : (ℕ → Text → Text) → Type 0
Shifts shift_n = (n : ℕ) (b : Text) → 0 < n → n ≤ length b → shift_n n b ≡ drop n b

pub data AreFrames : List Frame → Type 0 where
  none_left : AreFrames []
  one_more : {f : Frame} {fs : List Frame} → IsFrame f → AreFrames fs → AreFrames (f ∷ fs)

pub record IsUpgraded (l : Link) : Type 0 where
  pub upgraded : l.upgraded ≡ true
  pub kept_open : l.told_to_close ≡ false

module _ (shift_n : ℕ → Text → Text) where
  unfoldable pub receive : Event → Receiver → Receiver
  unfolding decode
  receive (arrives chunk) r = record r {
    link = record r.link { inbound = r.link.inbound ++ chunk };
  }
  receive decodes r =
      let (l, d) = decode shift_n r.link in record { link = l; frames = r.frames ++ returned d }

  unfoldable pub play : List Event → Receiver → Receiver
  unfolding receive
  play [] r = r
  play (e ∷ es) r = play es (receive e r)

  pub decode_upgraded :
      (l : Link)
      → IsUpgraded l
      → decode shift_n l ≡ (
          if l.inbound == []
          then (l, undecoded need_more_data)
          else shift shift_n l (read_frame_from_bytes l.inbound))
  unfolding decode
  decode_upgraded l u = ground (arith, u.upgraded)

  module _ (shifts : Shifts shift_n) where
    -- With a frame ahead, `Decode` returns it if all of it is there, and otherwise does nothing.
    pub decode_short :
        (f : Frame) (x y : Text) (l : Link)
        → IsFrame f
        → IsUpgraded l
        → l.inbound ++ x ≡ frame_bytes f ++ y
        → length l.inbound < length (frame_bytes f)
        → decode shift_n l ≡ (l, undecoded need_more_data)
    unfolding shift needs_more
    decode_short f x y l v u cut short =
        rw (decode_upgraded l u, read_frame-cut f v l.inbound x y cut) (ground arith)

    pub decode_whole :
        (f : Frame) (x y : Text) (l : Link)
        → IsFrame f
        → IsUpgraded l
        → l.inbound ++ x ≡ frame_bytes f ++ y
        → length (frame_bytes f) ≤ length l.inbound
        → decode shift_n l ≡ (
          record l { inbound = drop (length (frame_bytes f)) l.inbound },
          decoded (frame_bytes f),
        )
    unfolding shift frame_taken
    decode_whole f x y l v u cut long =
        rw (decode_upgraded l u, read_frame-cut f v l.inbound x y cut)
          (ground (
            arith,
            length-frame_bytes-pos f,
            shifts (length (frame_bytes f)) l.inbound (length-frame_bytes-pos f) long,
            text_eq.beq_iff l.inbound [],
          ))
