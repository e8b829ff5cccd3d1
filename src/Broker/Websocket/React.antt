-- ===== src/Broker/Websocket/React.antt =====
-- broker/websocket.go and broker/conn_handler.go: the data frames of an upgraded connection, from the
-- bytes in the buffer to the goroutines of `onFrame`.
use mathlib.Core.List.{append-nil, append_assoc}
use longcom.Base.{
  ℕ, suc, zero, ◌+◌, ◌<◌, ◌≤◌, ◌≡◌, refl, sym, ap, ◌∙◌, ◌⊎◌, List, [], ◌∷◌, ◌++◌, Option, some,
  Text, length, length-append, nat_eq, text_eq, arith, subst,
}
use longcom.Base.Bytes.{drop, drop-append}
use longcom.Base.Run.{Run, ok, ◌>>=◌}
use longcom.Logic.Token.{Jwt}
use longcom.Ws.Frames.{Frame, IsFrame, frame_bytes, length-frame_bytes-pos}
use longcom.Broker.Conn.{Network}
use longcom.Broker.Gnet.{no_action, close_action}
use longcom.Broker.Server.{write_conn}
use longcom.Broker.Handler.{on_frame}
use longcom.Broker.Websocket.{
  Link, decoded, decode, Message, op_text, op_binary, Library, Peer, on_binary_data, on_message,
  on_messages, on_react_after_upgrade, on_react, is_control,
}
use longcom.Broker.Websocket.Stream.{Shifts, stream, IsUpgraded, decode_whole}
use longcom.Broker.Websocket.Handshake.{react_to, serve}

-- A message that is handed to `onFrame`.
abbrev pub IsDataMessage : Message → Type 0
IsDataMessage m = (m.op_code ≡ op_text) ⊎ (m.op_code ≡ op_binary)

-- Frames that the library reads as one such message each, with their payloads.
pub data Carries (lib : Library) : List Frame → List Text → Type 0 where
  no_frames : Carries lib [] []
  then_frame :
      {f : Frame} {m : Message} {fs : List Frame} {packets : List Text}
      → IsFrame f
      → lib.read_client_message (frame_bytes f) ≡ some (m ∷ [])
      → IsDataMessage m
      → Carries lib fs packets
      → Carries lib (f ∷ fs) (m.payload ∷ packets)

module _ (shift_n : ℕ → Text → Text) (lib : Library) (net : Network)
    (query_token : Text → Option Text) (jwt : Jwt) (conn : ℕ) where
  -- gnet serves the connection up to `n` times, unless it is to be closed; `clock` is read each time.
  unfoldable pub serve_times : (clock : ℕ → ℕ) (n : ℕ) → Peer → Run Peer
  unfolding serve
  serve_times clock zero p = ok p
  serve_times clock (suc n) p =
      serve shift_n lib net query_token jwt conn (clock n) p >>= λ (q, out, action). (elim action [
        | no_action ↦ serve_times clock n q
        | close_action ↦ ok q
      ])

  on_message-data :
      (now : ℕ) (m : Message) (p : Peer)
      → IsDataMessage m
      → on_message lib net conn now m p ≡ (on_binary_data conn now m.payload p, [], no_action)
  unfolding on_message is_control
  on_message-data now m p d = ground (arith, d)

  module _ (shifts : Shifts shift_n) where
    decode_next :
        (f : Frame) (more : Text) (l : Link)
        → IsFrame f
        → IsUpgraded l
        → l.inbound ≡ frame_bytes f ++ more
        → decode shift_n l ≡ (record l { inbound = more }, decoded (frame_bytes f))
    decode_next f more l v u came =
        let n = length (frame_bytes f) in
        let size : length l.inbound ≡ n + length more =
          ap (length {A = ℕ}) came ∙ length-append (frame_bytes f) more in
        let rest : drop n l.inbound ≡ more =
          ap (drop n) came ∙ drop-append n (frame_bytes f) more refl in
        decode_whole shift_n shifts f [] more l v u (append-nil l.inbound ∙ came)
          (omega (arith, size))
        ∙ (rw rest refl)

    serve_data :
        (f : Frame) (m : Message) (more : Text) (now : ℕ) (p : Peer)
        → IsFrame f
        → IsUpgraded p.link
        → p.link.inbound ≡ frame_bytes f ++ more
        → lib.read_client_message (frame_bytes f) ≡ some (m ∷ [])
        → IsDataMessage m
        → serve shift_n lib net query_token jwt conn now p
          ≡ ok (
            on_binary_data conn now m.payload
                (record p { link = record p.link { inbound = more } }),
            [],
            no_action,
          )
    unfolding serve react_to on_react on_react_after_upgrade on_messages
    serve_data f m more now p v u came read d = rw (decode_next f more p.link v u came) (
        ground (
          arith,
          u.upgraded,
          read,
          text_eq.beq_iff (frame_bytes f) [],
          length-frame_bytes-pos f,
          on_message-data now m (record p { link = record p.link { inbound = more } }) d,
        ))

    on_binary_data-starts :
        (now : ℕ) (packet : Text) (p : Peer)
        → (p.server.conn_at conn).inflight_inbound_message_count < 1023
        → let q = on_binary_data conn now packet p in
          (q.started ≡ p.started ++ packet ∷ [])
          × (q.link ≡ p.link)
          × ((q.server.conn_at conn).inflight_inbound_message_count
              ≡ (p.server.conn_at conn).inflight_inbound_message_count + 1)
    unfolding on_binary_data on_frame write_conn
    on_binary_data-starts now packet p h = ground arith

    -- Every packet of the frames has its goroutine, and the frames have left the buffer.
    pub record Started (packets : List Text) (more : Text) (p q : Peer) : Type 0 where
      pub in_order : q.started ≡ p.started ++ packets
      pub buffer : q.link.inbound ≡ more
      pub counted :
          (q.server.conn_at conn).inflight_inbound_message_count
          ≡ (p.server.conn_at conn).inflight_inbound_message_count + length packets

    serve_times_none : (clock : ℕ → ℕ) (p : Peer) → serve_times clock zero p ≡ ok p
    unfolding serve_times
    serve_times_none clock p = refl

    serve_times_next :
        (clock : ℕ → ℕ) (n : ℕ) (p q : Peer) (out : Text)
        → serve shift_n lib net query_token jwt conn (clock n) p ≡ ok (q, out, no_action)
        → serve_times clock (suc n) p ≡ serve_times clock n q
    unfolding serve_times
    serve_times_next clock n p q out e = rw e refl

    -- If the buffer of an upgraded connection starts with masked frames with payloads that the
    -- library reads as one text or binary message each, and the requests being handled and these
    -- are at most 1023, then serving the connection as often as there are frames starts one
    -- goroutine of `onFrame` for each payload, in order, counts each of them, and leaves what came
    -- after the frames in the buffer.
    pub serve_times-Started :
        (clock : ℕ → ℕ) {fs : List Frame} {packets : List Text} (more : Text) (p : Peer)
        → Carries lib fs packets
        → IsUpgraded p.link
        → p.link.inbound ≡ stream fs ++ more
        → (p.server.conn_at conn).inflight_inbound_message_count + length fs ≤ 1023
        → (q : Peer) × (serve_times clock (length fs) p ≡ ok q) × Started packets more p q
    unfolding stream
    serve_times-Started clock more p no_frames u came room = (
      p,
      serve_times_none clock p,
      record { in_order = sym (append-nil p.started); buffer = came; counted = omega arith },
    )
    serve_times-Started clock more p (then_frame {f} {m} {fs} {packets} v read d rest) u came room =
        let after = stream fs ++ more in
        let now = clock (length fs) in
        let p₁ = record p { link = record p.link { inbound = after } } in
        let r = on_binary_data conn now m.payload p₁ in
        let (begun, same, count) = on_binary_data-starts now m.payload p₁ (omega arith) in
        let (q, e, s) =
          serve_times-Started clock more r rest
            (subst IsUpgraded (sym same)
              (record { upgraded = u.upgraded; kept_open = u.kept_open }))
            (ap (λ (l : Link). l.inbound) same) (omega (arith, count)) in
        (
          q,
          serve_times_next clock (length fs) p r [] (
                serve_data f m after now p v u
                  (came ∙ append_assoc (frame_bytes f) (stream fs) more) read d)
              ∙ e,
          record {
            in_order = s.in_order ∙ (rw begun (append_assoc p.started (m.payload ∷ []) packets));
            buffer = s.buffer;
            counted = omega (arith, count, s.counted);
          },
        )
