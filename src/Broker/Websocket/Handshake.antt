-- ===== src/Broker/Websocket/Handshake.antt =====
-- broker/websocket.go: the upgrade request, from the bytes in the buffer to the connection that is
-- registered or refused.
use mathlib.Core.List.{append-nil}
use longcom.Base.{
  length-append, ℕ, ◌+◌, ◌≡◌, refl, ap, ◌∙◌, true, false, ◌⊎◌, [], ◌∷◌, ◌++◌, Option, none, some,
  Text, length, if◌then◌else◌, ◌==◌, text_eq, arith, ltb,
}
use longcom.Base.Bytes.{drop, drop-append}
use longcom.Base.Run.{Run, ok, ◌>>=◌}
use longcom.Logic.Token.{LoginClaims, Jwt, verify_token}
use longcom.Ws.Frame.{need_more_data}
use longcom.Ws.Http.{
  index_of, crlf, header_end, take_upgrade_http_header, http_parse_request_line, first_line,
}
use longcom.Ws.Request.{IsHeader, take_upgrade_http_header-cut, bsplit3-line, first_line-lem}
use longcom.Broker.Conn.{Network, conn_state_init}
use longcom.Broker.Gnet.{no_action}
use longcom.Broker.Server.{Server}
use longcom.Broker.Server.Registration.{IsSound}
use longcom.Broker.Server.Authentication.{IsRegistered}
use longcom.Broker.Server.Close.{IsOpen}
use longcom.Broker.Handler.{on_auth_request}
use longcom.Broker.Handler.Requests.{
  IsRefused, session_for, on_auth_request_accepted, on_auth_request-IsRefused,
}
use longcom.Broker.Websocket.{
  Link, Decoded, decoded, undecoded, decode, shift, needs_more, Library, Peer, Reaction,
  upgrade_reply, upgrade_request, on_react_before_upgrade, on_react,
}
use longcom.Broker.Websocket.Stream.{Shifts}

-- The header of an upgrade request: its first line, with the URI, and the other lines.
pub record IsRequest (method uri proto others header : Text) : Type 0 where
  pub line : Text
  pub parts : line ≡ method ++ 32 ∷ (uri ++ 32 ∷ proto)
  pub lines : header ≡ line ++ (crlf ++ others)
  pub method_ends : index_of (32 ∷ []) (method ++ 32 ∷ []) ≡ some (length method)
  pub uri_ends : index_of (32 ∷ []) (uri ++ 32 ∷ []) ≡ some (length uri)
  pub line_ends : index_of crlf (line ++ crlf) ≡ some (length line)
  pub complete : IsHeader header

-- What gnet does with the bytes of a connection: what `Decode` returns goes to `OnReact`.
module _ (shift_n : ℕ → Text → Text) (lib : Library) (net : Network)
    (query_token : Text → Option Text) (jwt : Jwt) where
  unfoldable pub react_to : (conn now : ℕ) → Peer → Link × Decoded → Run Reaction
  unfolding on_react
  react_to conn now p (l, undecoded e) = ok (record p { link = l }, [], no_action)
  react_to conn now p (l, decoded frame) =
      if frame == []
      then ok (record p { link = l }, [], no_action)
      else on_react lib net query_token jwt conn now frame (record p { link = l })

  unfoldable pub serve : (conn now : ℕ) → Peer → Run Reaction
  unfolding decode react_to
  serve conn now p = react_to conn now p (decode shift_n p.link)

  decode_fresh :
      (l : Link)
      → l.upgraded ≡ false
      → decode shift_n l ≡ shift shift_n l (take_upgrade_http_header l.inbound)
  unfolding decode
  decode_fresh l u = ground (arith, u)

  -- A header is taken from the buffer when its empty line is there, and not before.
  pub decode_header :
      (h x y : Text) (l : Link)
      → Shifts shift_n
      → IsHeader h
      → l.upgraded ≡ false
      → l.inbound ++ x ≡ (h ++ header_end) ++ y
      → decode shift_n l ≡ (
          if ltb (length l.inbound) (length (h ++ header_end))
          then (l, undecoded need_more_data)
          else (record l { inbound = drop (length (h ++ header_end)) l.inbound }, decoded h))
  unfolding shift needs_more
  decode_header h x y l shifts v u cut =
      rw (decode_fresh l u, take_upgrade_http_header-cut h l.inbound x y v cut)
        (ground (arith, length-append h header_end, shifts (length (h ++ header_end)) l.inbound))

  module _ (method uri proto others header more : Text) (p : Peer) (conn now : ℕ)
      (shifts : Shifts shift_n) (v : IsRequest method uri proto others header)
      (fresh : p.link.upgraded ≡ false) (came : p.link.inbound ≡ (header ++ header_end) ++ more)
      (version : ℕ × ℕ) (read : lib.http_parse_version proto ≡ some version) where
    -- What is left in the buffer behind the request.
    abbrev waiting : Peer
    waiting = record p { link = record p.link { inbound = more } }

    request_parsed :
        http_parse_request_line lib.http_parse_version (first_line header)
        ≡ some (record { method = method; uri = uri; major = version.0; minor = version.1 })
    unfolding http_parse_request_line
    request_parsed =
        rw
          (
            v.lines,
            first_line-lem v.line others v.line_ends,
            v.parts,
            bsplit3-line method uri proto v.method_ends v.uri_ends,
            read,
          )
          refl

    header_taken : decode shift_n p.link ≡ (record p.link { inbound = more }, decoded header)
    header_taken =
        let n = length (header ++ header_end) in
        let size : length p.link.inbound ≡ n + length more =
          ap (length {A = ℕ}) came ∙ length-append (header ++ header_end) more in
        let rest : drop n p.link.inbound ≡ more =
          ap (drop n) came ∙ drop-append n (header ++ header_end) more refl in
        decode_header header [] more p.link shifts v.complete fresh
          (append-nil p.link.inbound ∙ came)
        ∙ (ground (arith, size, rest))

    header_there : (header == []) ≡ false
    header_there = ground (
      arith,
      text_eq.beq_iff header [],
      ap (length {A = ℕ}) v.lines,
      length-append v.line (crlf ++ others),
    )

    serve_request : serve conn now p ≡ (
        on_auth_request query_token jwt conn now uri p.server >>= λ s.
        ok (upgrade_reply (record waiting { server = s }) (lib.upgrade header)))
    unfolding serve react_to on_react on_react_before_upgrade upgrade_request
    serve_request = rw header_taken (ground (arith, fresh, header_there, request_parsed))

    -- If the buffer of a new connection starts with the header of an upgrade request and its empty
    -- line, and `VerifyToken` accepts the token of the URI in its first line, and the library can
    -- read the version and answers the request, then `Decode` and `OnReact` return that answer and
    -- leave the connection upgraded, with what came after the request in the buffer. On a sound
    -- server, for a connection in its first state, the server is sound again and has the connection
    -- registered as the user of the claims, unless the pools of a new group cannot be made.
    pub serve_accepted :
        (token out : Text) (claims : LoginClaims)
        → (sound : IsSound p.server) → (p.server.conn_at conn).state ≡ conn_state_init
        → query_token uri ≡ some token
        → verify_token jwt now token ≡ some claims
        → lib.upgrade header ≡ (out, none)
        → (s : Server) × (serve conn now p
            ≡ ok (
              record {
                server = s;
                link = record p.link { inbound = more; upgraded = true };
                started = p.started;
              },
              out,
              no_action,
            ))
          × IsSound s
          × (p.server.pools_fail ≡ true
              ⊎ IsRegistered
                  (session_for query_token jwt conn now uri p.server sound claims)
                  conn
                  (claims.topic ∷ [])
                  s)
    unfolding upgrade_reply
    serve_accepted token out claims sound init asked verified done =
        let (s, returned, kept, held, reg) =
          on_auth_request_accepted query_token jwt conn now uri p.server sound claims token init
            asked verified in
        (s, serve_request ∙ (rw (returned, done) refl), kept, reg)

    -- If the URI of such a request has no token or one that `VerifyToken` refuses, then, on a sound
    -- server, a connection in the state init or authed is closed and in no hub or table of the
    -- server, which stays sound; but the library's answer to the request is sent all the same.
    pub serve-IsRefused :
        (token : Text)
        → IsSound p.server
        → IsOpen (p.server.conn_at conn)
        → (query_token uri ≡ none)
          ⊎ ((query_token uri ≡ some token) × (verify_token jwt now token ≡ none))
        → (s : Server) × (serve conn now p
            ≡ ok (upgrade_reply (record waiting { server = s }) (lib.upgrade header)))
          × IsRefused conn s
    serve-IsRefused token sound open_yet bad =
        let (s, returned, r) =
          on_auth_request-IsRefused query_token jwt conn now uri p.server sound open_yet token
            bad in
        (s, serve_request ∙ (rw returned refl), r)
