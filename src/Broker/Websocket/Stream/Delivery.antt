-- ===== src/Broker/Websocket/Stream/Delivery.antt =====
-- broker/websocket.go: what `Decode` has returned of the frames that are sent, at any time, and when
-- all bytes have come.
use mathlib.Core.List.{append_assoc, append-nil, map-append}
use longcom.Base.{
  ℕ, zero, suc, ◌≤◌, ◌≡◌, refl, sym, ap, ◌∙◌, inl, inr, List, [], ◌∷◌, ◌++◌, map, Text, arith, ltb,
  length, length-append, text_eq, Bool-cases, subst,
}
use longcom.Base.Bytes.{drop, take-prefix}
use longcom.Ws.Frame.{need_more_data}
use longcom.Ws.Frames.{Frame, frame_bytes}
use longcom.Broker.Websocket.{Link, decoded, undecoded, decode}
use longcom.Broker.Websocket.Stream.{
  Event, arrives, decodes, Receiver, stream, arrived, calls, Shifts, AreFrames, one_more,
  IsUpgraded, receive, play, decode_upgraded, decode_short, decode_whole,
}

append-empty : (xs ys : Text) → xs ++ ys ≡ [] → xs ≡ []
append-empty [] ys e = refl
append-empty (a ∷ xs) ys e = absurd (ground (arith, e))

module _ (shift_n : ℕ → Text → Text) (shifts : Shifts shift_n) where
  -- What a receiver has taken of the frames that are sent, and what is left of them.
  pub record Delivered (fs : List Frame) (x : Text) (r r' : Receiver) : Type 0 where
    pub done : List Frame
    pub left : List Frame
    pub split : fs ≡ done ++ left
    pub passed : r'.frames ≡ r.frames ++ map frame_bytes done
    pub rest : r'.link.inbound ++ x ≡ stream left
    pub frames_left : AreFrames left
    pub open_still : IsUpgraded r'.link

  nothing-Delivered :
      (fs : List Frame) (x : Text) (r : Receiver) (l : Link)
      → AreFrames fs
      → IsUpgraded l
      → l.inbound ++ x ≡ stream fs
      → Delivered fs x r (record { link = l; frames = r.frames })
  nothing-Delivered fs x r l v u cut = record {
    done = [];
    left = fs;
    split = refl;
    passed = sym (append-nil r.frames);
    rest = cut;
    frames_left = v;
    open_still = u;
  }

  receive_nothing :
      (r : Receiver)
      → decode shift_n r.link ≡ (r.link, undecoded need_more_data)
      → receive shift_n decodes r ≡ r
  unfolding receive
  receive_nothing r e = rw (e, append-nil r.frames) refl

  receive_frame :
      (r : Receiver) (l : Link) (t : Text)
      → decode shift_n r.link ≡ (l, decoded t)
      → receive shift_n decodes r ≡ record { link = l; frames = r.frames ++ t ∷ [] }
  unfolding receive
  receive_frame r l t e = rw e refl

  decode_empty :
      (l : Link) → IsUpgraded l → l.inbound ≡ [] → decode shift_n l ≡ (l, undecoded need_more_data)
  decode_empty l u e =
      rw (decode_upgraded shift_n l u) (ground (arith, e, text_eq.beq_iff l.inbound []))

  decodes-Delivered :
      (fs : List Frame) (x : Text) (r : Receiver)
      → AreFrames fs
      → IsUpgraded r.link
      → r.link.inbound ++ x ≡ stream fs
      → Delivered fs x r (receive shift_n decodes r)
  unfolding stream
  decodes-Delivered [] x r v u cut =
      let e = receive_nothing r (decode_empty r.link u (append-empty r.link.inbound x cut)) in
      subst (Delivered [] x r) (sym e) (nothing-Delivered [] x r r.link v u cut)
  decodes-Delivered (f ∷ fs) x r (one_more v vs) u cut =
      elim (Bool-cases (ltb (length r.link.inbound) (length (frame_bytes f)))) [
        | inl e ↦
            subst (Delivered (f ∷ fs) x r)
              (sym (
                receive_nothing r
                  (decode_short shift_n shifts f x (stream fs) r.link v u cut (ground (arith, e)))))
              (nothing-Delivered (f ∷ fs) x r r.link (one_more v vs) u cut)
        | inr e ↦
            subst (Delivered (f ∷ fs) x r)
              (sym (
                receive_frame r _ (frame_bytes f)
                  (decode_whole shift_n shifts f x (stream fs) r.link v u cut (ground (arith, e)))))
              (record {
                done = f ∷ [];
                left = fs;
                split = refl;
                passed = refl;
                rest =
                    (take-prefix (frame_bytes f) r.link.inbound x (stream fs) cut
                      (ground (arith, e))).1;
                frames_left = vs;
                open_still = record { upgraded = u.upgraded; kept_open = u.kept_open };
              })
      ]

  arrives-Delivered :
      (fs : List Frame) (c x : Text) (r : Receiver)
      → AreFrames fs
      → IsUpgraded r.link
      → r.link.inbound ++ (c ++ x) ≡ stream fs
      → Delivered fs x r (receive shift_n (arrives c) r)
  unfolding receive
  arrives-Delivered fs c x r v u cut =
      nothing-Delivered fs x r (record r.link { inbound = r.link.inbound ++ c }) v
        (record { upgraded = u.upgraded; kept_open = u.kept_open })
        (append_assoc r.link.inbound c x ∙ cut)

  then-Delivered :
      (fs : List Frame) (x y : Text) (r r₁ r₂ : Receiver)
      → (d : Delivered fs x r r₁) → Delivered d.left y r₁ r₂
      → Delivered fs y r r₂
  then-Delivered fs x y r r₁ r₂ d d₂ = record {
    done = d.done ++ d₂.done;
    left = d₂.left;
    split = d.split ∙ (rw d₂.split (sym (append_assoc d.done d₂.done d₂.left)));
    passed =
        rw (d₂.passed, d.passed, map-append frame_bytes d.done d₂.done)
          (append_assoc r.frames (map frame_bytes d.done) (map frame_bytes d₂.done));
    rest = d₂.rest;
    frames_left = d₂.frames_left;
    open_still = d₂.open_still;
  }

  -- Frames that a client sends one after another, each masked and with a payload of 1 byte to less
  -- than 2^63, come out of `Decode` whole and in order, in however many pieces their bytes arrive
  -- and whenever it is called: on a connection that was upgraded, what it has returned are the
  -- first of the frames, and the buffer and the bytes yet to come are the others. It is taken that
  -- gnet's `ShiftN` drops that many bytes of the buffer.
  pub play-Delivered :
      (es : List Event) (fs : List Frame) (x : Text) (r : Receiver)
      → AreFrames fs
      → IsUpgraded r.link
      → r.link.inbound ++ (arrived es ++ x) ≡ stream fs
      → Delivered fs x r (play shift_n es r)
  unfolding play arrived
  play-Delivered [] fs x r v u cut = nothing-Delivered fs x r r.link v u cut
  play-Delivered (arrives c ∷ es) fs x r v u cut =
      let d =
        arrives-Delivered fs c (arrived es ++ x) r v u
          (ap (λ t. r.link.inbound ++ t) (sym (append_assoc c (arrived es) x)) ∙ cut) in
      then-Delivered fs (arrived es ++ x) x r (receive shift_n (arrives c) r)
        (play shift_n es (receive shift_n (arrives c) r)) d
        (play-Delivered es d.left x (receive shift_n (arrives c) r) d.frames_left d.open_still
          d.rest)
  play-Delivered (decodes ∷ es) fs x r v u cut =
      let d = decodes-Delivered fs (arrived es ++ x) r v u cut in
      then-Delivered fs (arrived es ++ x) x r (receive shift_n decodes r)
        (play shift_n es (receive shift_n decodes r)) d
        (play-Delivered es d.left x (receive shift_n decodes r) d.frames_left d.open_still d.rest)

  play-append :
      (es fs : List Event) (r : Receiver)
      → play shift_n (es ++ fs) r ≡ play shift_n fs (play shift_n es r)
  unfolding play
  play-append [] fs r = refl
  play-append (e ∷ es) fs r = play-append es fs (receive shift_n e r)

  -- All frames have come out, and the buffer is empty.
  pub record Drained (fs : List Frame) (r r' : Receiver) : Type 0 where
    pub passed_all : r'.frames ≡ r.frames ++ map frame_bytes fs
    pub emptied : r'.link.inbound ≡ []

  play-none : (r : Receiver) → play shift_n (calls zero) r ≡ r
  unfolding play calls
  play-none r = refl

  play-calls :
      (n : ℕ) (r r' : Receiver)
      → receive shift_n decodes r ≡ r'
      → play shift_n (calls (suc n)) r ≡ play shift_n (calls n) r'
  unfolding play calls
  play-calls n r r' e = ap (play shift_n (calls n)) e

  calls-Drained :
      (n : ℕ) (fs : List Frame) (r : Receiver)
      → AreFrames fs
      → IsUpgraded r.link
      → r.link.inbound ≡ stream fs
      → length fs ≤ n
      → Drained fs r (play shift_n (calls n) r)
  unfolding stream
  calls-Drained zero [] r v u e h =
      rw (play-none r) (record { passed_all = sym (append-nil r.frames); emptied = e })
  calls-Drained zero (f ∷ fs) r v u e h = absurd (omega arith)
  calls-Drained (suc n) [] r v u e h =
      rw (play-calls n r r (receive_nothing r (decode_empty r.link u e)))
        (calls-Drained n [] r v u e (omega arith))
  calls-Drained (suc n) (f ∷ fs) r (one_more v vs) u e h =
      let cut : r.link.inbound ++ [] ≡ frame_bytes f ++ stream fs = append-nil r.link.inbound ∙ e in
      let long : length (frame_bytes f) ≤ length r.link.inbound =
        omega (arith, ap (length {A = ℕ}) e, length-append (frame_bytes f) (stream fs)) in
      let l = record r.link { inbound = drop (length (frame_bytes f)) r.link.inbound } in
      let rest = (take-prefix (frame_bytes f) r.link.inbound [] (stream fs) cut long).1 in
      let d =
        calls-Drained n fs (record { link = l; frames = r.frames ++ frame_bytes f ∷ [] }) vs
          (record { upgraded = u.upgraded; kept_open = u.kept_open })
          (sym (append-nil l.inbound) ∙ rest) (omega arith) in
      rw
        (play-calls n r _ (
          receive_frame r l (frame_bytes f)
            (decode_whole shift_n shifts f [] (stream fs) r.link v u cut long)))
        (record {
          passed_all =
              d.passed_all ∙ append_assoc r.frames (frame_bytes f ∷ []) (map frame_bytes fs);
          emptied = d.emptied;
        })

  -- Once all bytes of such frames have arrived, in any pieces and with calls of `Decode` in
  -- between, as many more calls as there are frames have returned every frame, in order, and leave
  -- the buffer empty.
  pub play-Drained :
      (es : List Event) (fs : List Frame) (n : ℕ) (r : Receiver)
      → AreFrames fs
      → IsUpgraded r.link
      → r.link.inbound ++ arrived es ≡ stream fs
      → length fs ≤ n
      → Drained fs r (play shift_n (es ++ calls n) r)
  play-Drained es fs n r v u cut h =
      let t = play shift_n es r in
      let d = play-Delivered es fs [] r v u (rw (append-nil (arrived es)) cut) in
      let e =
        calls-Drained n d.left t d.frames_left d.open_still
          (sym (append-nil t.link.inbound) ∙ d.rest)
          (omega (arith, h, ap (length {A = Frame}) d.split, length-append d.done d.left)) in
      rw (play-append es (calls n) r) (record {
        passed_all =
            rw
              (
                e.passed_all,
                d.passed,
                append_assoc r.frames (map frame_bytes d.done) (map frame_bytes d.left),
              )
              (ap (λ t. r.frames ++ t)
                (sym (ap (map frame_bytes) d.split ∙ map-append frame_bytes d.done d.left)));
        emptied = e.emptied;
      })
