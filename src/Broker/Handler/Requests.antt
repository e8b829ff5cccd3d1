-- ===== src/Broker/Handler/Requests.antt =====
-- broker/conn_handler.go: `onRequest` and `onAuthRequest` on a sound server.
use longcom.Base.{
  ℕ, ◌≡◌, refl, true, List, [], ◌∷◌, Option, none, some, Text, arith, ◌⊎◌, nat_eq, text_eq, inl,
  inr, ◌∙◌,
}
use longcom.Base.Run.{Run, ok, ◌>>=◌}
use longcom.Errors.{Error, known, not_connectd}
use longcom.Logic.Token.{LoginClaims, Jwt, verify_token}
use longcom.Broker.Conn.{
  ConnectionSession, Network, Ready, conn_state_init, set_conn_error, new_connection_session,
}
use longcom.Broker.Server.{Server, write_conn, close_conn, protocol_error, set_authed}
use longcom.Broker.Server.Registration.{session_of, IsSound, Keeps-IsSoundFor}
use longcom.Broker.Server.Authentication.{IsRegistered, set_authed-Authenticates}
use longcom.Broker.Server.Close.{IsOpen, IsShut, IsAbsent, close_conn-shuts}
use longcom.Broker.Handler.{on_request, on_auth_request, authenticate, token_error, set_frame_type}

-- What is left of a connection after `protocolError`.
pub record IsRefused (p : ℕ) (s : Server) : Type 0 where
  pub shut : IsShut (s.conn_at p)
  pub sound : IsSound s
  pub absent : IsAbsent p s

module _ (e : Error) (p now : ℕ) (s : Server) (v : IsSound s) where
  abbrev marked : Server
  marked = write_conn p (set_conn_error e (s.conn_at p)) s

  marked-IsSound : IsSound marked
  unfolding write_conn set_conn_error session_of
  marked-IsSound = Keeps-IsSoundFor {σ = session_of s} (λ c x h. ground arith) refl refl v

  marked-IsOpen : IsOpen (s.conn_at p) → IsOpen (marked.conn_at p)
  unfolding write_conn set_conn_error
  marked-IsOpen o = ground arith

  protocol_error_lem : protocol_error e p now s ≡ close_conn p now marked
  unfolding protocol_error
  protocol_error_lem = refl

  -- `protocolError` on a connection that is not shut, on a sound server: the connection is shut and
  -- in no hub or table of the server, which stays sound.
  pub protocol_error-IsRefused : IsOpen (s.conn_at p) → IsRefused p (protocol_error e p now s).0
  protocol_error-IsRefused o =
      let (_, shut, sound, absent) =
        close_conn-shuts p now marked marked-IsSound (marked-IsOpen o) in
      rw protocol_error_lem (record { shut = shut; sound = sound; absent = absent })

-- A request on a connection in its first state, on a sound server, closes the connection; the
-- server stays sound and has the connection in no hub or table.
pub on_request_before_auth :
    (net : Network) (ready : Ready) (p now : ℕ) (packet : Text) (s : Server)
    → IsSound s
    → (s.conn_at p).state ≡ conn_state_init
    → (s' : Server) × (on_request net ready p now packet s ≡ ok s') × IsRefused p s'
unfolding on_request
on_request_before_auth net ready p now packet s v e = (
  (protocol_error (known not_connectd) p now s).0,
  ground (arith, e),
  protocol_error-IsRefused (known not_connectd) p now s v (inl e),
)

module _ (m p : ℕ) (s : Server) where
  abbrev typed : Server
  typed = write_conn p (set_frame_type m (s.conn_at p)) s

  typed-session : (c : ℕ) → session_of typed c ≡ session_of s c
  unfolding write_conn set_frame_type session_of
  typed-session c = ground arith

  typed-IsSound : IsSound s → IsSound typed
  unfolding write_conn
  typed-IsSound v =
      Keeps-IsSoundFor {σ = session_of s} (λ c x h. ground (arith, typed-session c)) refl refl v

  typed-IsRegistered :
      (ss : ConnectionSession) (topic : List Text)
      → IsRegistered ss p topic s
      → IsRegistered ss p topic typed
  unfolding write_conn
  typed-IsRegistered ss topic r = record {
    group = r.group;
    stored = r.stored;
    member = r.member;
    subscribes = r.subscribes;
    listed = r.listed;
    indexed = r.indexed;
    held = ground (arith, typed-session p, r.held);
  }

  typed_either :
      {A : Type 0} (ss : ConnectionSession) (topic : List Text)
      → A ⊎ IsRegistered ss p topic s
      → A ⊎ IsRegistered ss p topic typed
  typed_either ss topic (inl a) = inl a
  typed_either ss topic (inr r) = inr (typed-IsRegistered ss topic r)

module _ (query_token : Text → Option Text) (jwt : Jwt) (p now : ℕ) (frame : Text) (s : Server)
    (v : IsSound s) where
  abbrev after_token : Option Text → Run Server
  after_token none = ok (protocol_error token_error p now s).0
  after_token (some token) = authenticate query_token jwt (verify_token jwt now token) p now s

  on_auth_request_lem :
      on_auth_request query_token jwt p now frame s ≡ after_token (query_token frame)
  unfolding on_auth_request
  on_auth_request_lem = ground arith

  authenticate-none :
      authenticate query_token jwt none p now s ≡ ok (protocol_error token_error p now s).0
  unfolding authenticate
  authenticate-none = refl

  -- An upgrade request with no token to be read from its URL, or with one that `VerifyToken`
  -- refuses, closes a connection in the state init or authed on a sound server, which stays sound
  -- and no longer has the connection in a hub or table.
  pub on_auth_request-IsRefused :
      IsOpen (s.conn_at p)
      → (token : Text)
      → (query_token frame ≡ none)
        ⊎ ((query_token frame ≡ some token) × (verify_token jwt now token ≡ none))
      → (s' : Server) × (on_auth_request query_token jwt p now frame s ≡ ok s') × IsRefused p s'
  on_auth_request-IsRefused o token (inl e) =
      (_, rw (on_auth_request_lem, e), protocol_error-IsRefused token_error p now s v o)
  on_auth_request-IsRefused o token (inr (e, f)) = (
    _,
    rw (on_auth_request_lem, e, f, authenticate-none),
    protocol_error-IsRefused token_error p now s v o,
  )

  module _ (claims : LoginClaims) where
    abbrev pub session_for : ConnectionSession
    session_for =
        new_connection_session (s.conn_at p).connection_id claims.app_name [] claims.user_id
          claims.callback_url claims.topic now

    authenticate-some : authenticate query_token jwt (some claims) p now s ≡ (
        set_authed session_for claims.topic p now s >>= λ s₁. ok (typed claims.message_type p s₁))
    unfolding authenticate new_connection_session
    authenticate-some = refl

    -- An upgrade request with a token that `VerifyToken` accepts, for a connection in its first
    -- state on a sound server, authenticates it as the user of the claims, with the topic of the
    -- claims: it is registered unless the pools of a new group cannot be made. The server stays
    -- sound.
    pub on_auth_request_accepted :
        (token : Text)
        → (s.conn_at p).state ≡ conn_state_init
        → query_token frame ≡ some token
        → verify_token jwt now token ≡ some claims
        → (s' : Server) × (on_auth_request query_token jwt p now frame s ≡ ok s')
          × IsSound s'
          × (session_of s' p ≡ some session_for)
          × (s.pools_fail ≡ true ⊎ IsRegistered session_for p (claims.topic ∷ []) s')
    on_auth_request_accepted token i e f =
        let (s₁, returned, a) = set_authed-Authenticates session_for claims.topic p now s v i in
        let (sound, held, reg, _, _) = a in
        let m = claims.message_type in
        (
          typed m p s₁,
          rw (on_auth_request_lem, e, f) (ground (arith, authenticate-some, returned)),
          typed-IsSound m p s₁ sound,
          typed-session m p s₁ p ∙ held,
          typed_either m p s₁ session_for (claims.topic ∷ []) reg,
        )
