-- ===== src/Broker/Server/Close.antt =====
-- broker/conn.go: `Close`.
use longcom.Base.{
  ℕ, ◌≡◌, refl, true, false, ◌||◌, ◌⊎◌, inl, inr, [], ◌∷◌, Option, none, some, arith, Text,
  contains, if◌then◌else◌, ◌==◌, ◌≢◌, nat_eq, text_eq, Option-cases, Bool-cases,
}
use longcom.Base.Dict.{load}
use longcom.Errors.{known, conn_closed, unknown_conn_status}
use longcom.Broker.Conn.{
  Conn, ConnectionSession, conn_state_init, conn_state_authed, conn_state_closing,
  conn_state_closed, update_state, exit,
}
use longcom.Broker.Group.View.{members}
use longcom.Broker.Server.{Server, write_conn, emit}
use longcom.Broker.Server.{closes_network, remove_session, close_conn, closed_conn}
use longcom.Broker.Server.Registration.{
  session_of, IsSound, IsSoundFor, Keeps-IsSoundFor, members_of, conn_of,
}
use longcom.Broker.Server.Closing.{without, remove_authed_connection-Gone}

-- What `Close` leaves of a connection that it closes.
pub record IsShut (c : Conn) : Type 0 where
  pub final : c.state ≡ conn_state_closed
  pub exited : c.exit_closed ≡ true
  pub hung_up : c.network_closed ≡ true
  pub stopped : c.cancelled ≡ true

-- A connection that is not shut yet.
abbrev pub IsOpen : Conn → Type 0
IsOpen c = (c.state ≡ conn_state_init) ⊎ (c.state ≡ conn_state_authed)

module _ (p now : ℕ) (s : Server) (v : IsSound s) where
  abbrev c : Conn
  c = s.conn_at p

  -- The end of both branches that close: the connection is shut in a server that no longer has it.
  shut_at : Server → Server
  unfolding emit write_conn closed_conn
  shut_at t = emit (closes_network p ∷ []) (write_conn p (closed_conn (t.conn_at p)) t)

  shut_at-IsShut : (t : Server) → IsShut ((shut_at t).conn_at p)
  unfolding shut_at
  shut_at-IsShut t = ground arith

  shut_at-IsSound :
      (t : Server)
      → IsSoundFor (without p (session_of s)) t
      → ((d : ℕ) → (p == d) ≡ false → t.conn_at d ≡ s.conn_at d)
      → IsSound (shut_at t)
  unfolding shut_at session_of
  shut_at-IsSound t w same =
      Keeps-IsSoundFor {σ = without p (session_of s)} (λ d x h. ground (arith, same d)) refl refl w

  no_session-IsSoundFor : session_of s p ≡ none → IsSoundFor (without p (session_of s)) s
  no_session-IsSoundFor e =
      Keeps-IsSoundFor {σ = session_of s} (λ d x h. ground (arith, e)) refl refl v

  abbrev closing_server : Server
  closing_server = write_conn p (exit (update_state conn_state_closing c)) s

  closing_server-IsSoundFor : IsSoundFor (session_of s) closing_server
  unfolding write_conn
  closing_server-IsSoundFor = Keeps-IsSoundFor {σ = session_of s} (λ d x h. h) refl refl v

  closing_server-conns :
      (t : Server) (d : ℕ)
      → t.conn_at ≡ closing_server.conn_at
      → (p == d) ≡ false
      → t.conn_at d ≡ s.conn_at d
  unfolding write_conn
  closing_server-conns t d same n = ground (arith, same, n)

  emptied : Option ConnectionSession → Server
  emptied o = remove_session o p now closing_server

  emptied-Gone :
      (o : Option ConnectionSession)
      → c.state ≡ conn_state_authed
      → c.session ≡ o
      → IsSoundFor (without p (session_of s)) (emptied o)
        × ((emptied o).conn_at ≡ closing_server.conn_at)
        × ((emptied o).next_conn ≡ s.next_conn)
  unfolding emptied remove_session session_of write_conn
  emptied-Gone none e f =
      (Keeps-IsSoundFor {σ = session_of s} (λ d x h. ground (arith, e, f)) refl refl v, refl, refl)
  emptied-Gone (some ss) e f =
      remove_authed_connection-Gone (session_of s) ss p now (ground (arith, e, f)) closing_server
        closing_server-IsSoundFor

  close_authed :
      c.state ≡ conn_state_authed → close_conn p now s ≡ (shut_at (emptied c.session), none)
  unfolding close_conn emptied shut_at
  close_authed e = ground (arith, e)

  close_init : c.state ≡ conn_state_init → close_conn p now s ≡ (shut_at s, none)
  unfolding close_conn shut_at
  close_init e = ground (arith, e)

  close_open :
      IsOpen c
      → (close_conn p now s ≡ (shut_at s, none)) × IsSound (shut_at s)
        ⊎ (close_conn p now s ≡ (shut_at (emptied c.session), none))
          × IsSound (shut_at (emptied c.session))
  unfolding session_of
  close_open (inl e) = inl (
    close_init e,
    shut_at-IsSound s (Keeps-IsSoundFor {σ = session_of s} (λ d x h. ground (arith, e)) refl refl v)
        (λ d n. refl),
  )
  close_open (inr e) =
      let (sound, same, _) = emptied-Gone c.session e refl in
      inr (
        close_authed e,
        shut_at-IsSound (emptied c.session) sound
            (λ d n. closing_server-conns (emptied c.session) d same n),
      )

-- The connection is in no table of the server.
pub record IsAbsent (p : ℕ) (s : Server) : Type 0 where
  pub no_member : (b a : Text) → contains (members_of s b a) p ≡ false
  pub no_conn : (b i : Text) → conn_of s b i ≢ some p
  pub no_index : (i : Text) → load i s.connection_id_to_conn ≢ some p

pub no_session-IsAbsent : (p : ℕ) (s : Server) → IsSound s → session_of s p ≡ none → IsAbsent p s
unfolding members_of conn_of contains
no_session-IsAbsent p s v e = record {
  no_member = λ b a. elim (Option-cases (load b s.groups)) [
    | inl n ↦ ground (arith, n)
    | inr (g, n) ↦ elim (Bool-cases (contains (members g a) p)) [
      | inl m ↦
          let (ss, q, _, _) = (v.groups_sound b g n).members_authed a p m in absurd (ground arith)
      | inr m ↦ ground (arith, n, m)
    ]
  ];
  no_conn = λ b i m. elim (Option-cases (load b s.groups)) [
    | inl n ↦ ground (arith, n)
    | inr (g, n) ↦
        let (ss, q, _, _) = (v.groups_sound b g n).conns_authed i p (ground (arith, n)) in
        absurd (ground arith)
  ];
  no_index = λ i m. let (ss, q, _) = v.index_authed i p m in absurd (ground arith);
}

IsShut-session : (p : ℕ) (s : Server) → IsShut (s.conn_at p) → session_of s p ≡ none
unfolding session_of
IsShut-session p s h = ground arith

module _ (p now : ℕ) (s : Server) (v : IsSound s) where
  -- `Close` on a connection in the state init or authed, on a sound server: it returns no error,
  -- leaves the connection closed with its network, its exit channel and its context, and in no hub
  -- and no table of the server, and leaves the server sound.
  pub close_conn-shuts :
      IsOpen (s.conn_at p)
      → ((close_conn p now s).1 ≡ none)
        × IsShut ((close_conn p now s).0.conn_at p)
        × IsSound (close_conn p now s).0
        × IsAbsent p (close_conn p now s).0
  close_conn-shuts o = elim (close_open p now s v o) [
    | inl (e, sound) ↦ rw e (refl, shut_at-IsShut p now s v s, sound, absent s sound)
    | inr (e, sound) ↦
        let t = emptied p now s v (s.conn_at p).session in
        rw e (refl, shut_at-IsShut p now s v t, sound, absent t sound)
  ]
    where
      absent : (t : Server) → IsSound (shut_at p now s v t) → IsAbsent p (shut_at p now s v t)
      absent t sound =
          no_session-IsAbsent p _ sound (IsShut-session p _ (shut_at-IsShut p now s v t))

-- `Close` on a connection that is in neither of the states init and authed changes nothing and
-- returns an error, the one for a closed connection in the states closing and closed, and the one
-- for an unknown state otherwise.
pub close_conn_again :
    (p now : ℕ) (s : Server)
    → ¬ IsOpen (s.conn_at p)
    → close_conn p now s ≡ (
      s,
      some (
          known (
            if (s.conn_at p).state == conn_state_closing || (s.conn_at p).state == conn_state_closed
            then conn_closed
            else unknown_conn_status)),
    )
unfolding close_conn
close_conn_again p now s n = elim (Bool-cases ((s.conn_at p).state == conn_state_init)) [
  | inl e ↦ absurd (n (inl (ground (arith, e))))
  | inr e ↦ elim (Bool-cases ((s.conn_at p).state == conn_state_authed)) [
    | inl f ↦ absurd (n (inr (ground (arith, f))))
    | inr f ↦ rw (e, f) (ground arith)
  ]
]

module _ (p now : ℕ) (s : Server) (v : IsSound s) where
  -- `Close` touches no other connection.
  abbrev Spares : Server → Type 0
  Spares s' =
      ((d : ℕ) → (p == d) ≡ false → s'.conn_at d ≡ s.conn_at d) × (s'.next_conn ≡ s.next_conn)

  shut_at-Spares : (t : Server) → Spares t → Spares (shut_at p now s v t)
  unfolding shut_at
  shut_at-Spares t k = (λ d n. ground (arith, n, k.0 d), k.1)

  pub close_conn-Spares : IsOpen (s.conn_at p) → Spares (close_conn p now s).0
  close_conn-Spares (inl e) = rw (close_init p now s v e) (shut_at-Spares s ((λ d n. refl), refl))
  close_conn-Spares (inr e) =
      let o = (s.conn_at p).session in
      let (sound, same, count) = emptied-Gone p now s v o e refl in
      rw (close_authed p now s v e) (
        shut_at-Spares (emptied p now s v o)
          ((λ d n. closing_server-conns p now s v (emptied p now s v o) d same n), count))
