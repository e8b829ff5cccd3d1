-- ===== src/Tests/Frames.antt =====
-- Two frames, in pieces.
use longcom.Base.{
  ◌≡◌, refl, true, false, List, [], ◌∷◌, ◌++◌, Text, length, take, ltb, if◌then◌else◌, arith,
}
use longcom.Base.Bytes.{drop}
use longcom.Ws.Frame.{taken, refused, need_more_data, extra_bytes, read_frame_from_bytes}
use longcom.Ws.Frames.{
  Frame, IsFrame, frame_bytes, frame_header, length_code, length_bytes, frame_taken, read_frame-cut,
}
use longcom.Ws.Unframed.{read_frame-no_payload, read_frame-no_mask}
use longcom.Broker.Websocket.Stream.{
  Event, arrives, decodes, Receiver, Shifts, AreFrames, none_left, one_more, IsUpgraded, stream,
  arrived, calls, play,
}
use longcom.Broker.Websocket.Stream.Delivery.{Delivered, Drained, play-Delivered, play-Drained}
use longcom.Tests.{hello, news}

abbrev pub hello_frame : Frame
hello_frame = record { first = 129; mask = 1 ∷ 2 ∷ 3 ∷ 4 ∷ []; payload = hello }

abbrev pub news_frame : Frame
news_frame = record { first = 130; mask = 5 ∷ 6 ∷ 7 ∷ 8 ∷ []; payload = news }

pub hello-IsFrame : IsFrame hello_frame
hello-IsFrame = record { masked = refl; carries = omega arith; bounded = omega arith }

pub news-IsFrame : IsFrame news_frame
news-IsFrame = record { masked = refl; carries = omega arith; bounded = omega arith }

both-AreFrames : AreFrames (hello_frame ∷ news_frame ∷ [])
both-AreFrames = one_more hello-IsFrame (one_more news-IsFrame none_left)

pub drop-Shifts : Shifts drop
drop-Shifts n b h k = refl

abbrev receiver : Receiver
receiver = record {
  link = record { upgraded = true; inbound = []; told_to_close = false };
  frames = [];
}

receiver-IsUpgraded : IsUpgraded receiver.link
receiver-IsUpgraded = record { upgraded = refl; kept_open = refl }

-- The first frame comes in two pieces, the second of which has the start of the next frame.
abbrev history : List Event
history =
    arrives (129 ∷ 133 ∷ 1 ∷ [])
    ∷ decodes
    ∷ arrives (2 ∷ 3 ∷ 4 ∷ hello ++ 130 ∷ 132 ∷ [])
    ∷ decodes
    ∷ []

abbrev rest : Text
rest = 5 ∷ 6 ∷ 7 ∷ 8 ∷ news

play-Delivered_example :
    Delivered drop drop-Shifts
      (hello_frame ∷ news_frame ∷ [])
      rest
      receiver
      (play drop history receiver)
unfolding arrived stream frame_bytes frame_header length_code length_bytes
play-Delivered_example =
    play-Delivered drop drop-Shifts history (hello_frame ∷ news_frame ∷ []) rest receiver
      both-AreFrames receiver-IsUpgraded refl

play-Drained_example :
    Drained drop drop-Shifts
      (hello_frame ∷ news_frame ∷ [])
      receiver
      (play drop ((history ++ arrives rest ∷ []) ++ calls 2) receiver)
unfolding arrived stream frame_bytes frame_header length_code length_bytes
play-Drained_example =
    play-Drained drop drop-Shifts (history ++ arrives rest ∷ []) (hello_frame ∷ news_frame ∷ []) 2
      receiver both-AreFrames receiver-IsUpgraded refl (omega arith)

read_frame-cut_example : read_frame_from_bytes (129 ∷ 133 ∷ 1 ∷ []) ≡ (
    if ltb 3 (length (frame_bytes hello_frame))
    then refused need_more_data
    else frame_taken hello_frame)
unfolding frame_bytes frame_header length_code length_bytes
read_frame-cut_example =
    read_frame-cut hello_frame hello-IsFrame (129 ∷ 133 ∷ 1 ∷ []) (2 ∷ 3 ∷ 4 ∷ hello) [] refl

-- A ping with no payload, in a mask of zeros, and a text frame with no mask.
read_frame-no_payload_example : read_frame_from_bytes (137 ∷ 128 ∷ 0 ∷ 0 ∷ 0 ∷ 0 ∷ []) ≡ taken 0 []
unfolding extra_bytes
read_frame-no_payload_example =
    read_frame-no_payload 137 128 (0 ∷ 0 ∷ 0 ∷ 0 ∷ []) refl (omega arith)

read_frame-no_mask_example :
    read_frame_from_bytes (129 ∷ 5 ∷ hello) ≡ taken 5 (take 5 (129 ∷ 5 ∷ hello))
read_frame-no_mask_example =
    read_frame-no_mask 129 5 hello (omega arith) (omega arith) (omega arith)
