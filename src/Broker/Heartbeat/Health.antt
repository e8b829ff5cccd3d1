-- ===== src/Broker/Heartbeat/Health.antt =====
-- broker/heartbeat.go: the connections that are not dead, which `Close` leaves so.
use longcom.Base.{
  ℕ, ◌≤◌, ◌≡◌, refl, sym, ◌∙◌, false, inl, inr, List, Option, none, some, ◌==◌, nat_eq, text_eq,
  arith, subst, Bool-cases,
}
use longcom.Base.Int.{pos, ◌≤ℤ◌}
use longcom.Broker.Conn.{
  Conn, ConnectionSession, second, conn_state_init, conn_state_authed, conn_state_closing,
  conn_state_closed, get_heartbeat_deadline, update_state, exit, close_network, cancel,
}
use longcom.Broker.Server.{
  Call, Server, emit, write_conn, close_conn, closed_conn, remove_session, remove_authed_connection,
  remove_from_group, get_group_manager, write_group,
}
use longcom.Broker.Handler.{receive_frame_at}

-- A connection that is not dead, and may be silent for a second.
pub record IsHealthy (c : Conn) : Type 0 where
  pub alive : c.is_dead_conn ≡ false
  pub patient : second ≤ c.heartbeat_deadline_interval

abbrev pub AllHealthy : Server → Type 0
AllHealthy s = (c : ℕ) → IsHealthy (s.conn_at c)

remove_authed_connection-conn_at :
    (session : ConnectionSession) (conn now : ℕ) (s : Server)
    → (remove_authed_connection session conn now s).0.conn_at ≡ s.conn_at
unfolding remove_authed_connection get_group_manager remove_from_group emit write_group
remove_authed_connection-conn_at session conn now s = ground arith

remove_session-conn_at :
    (o : Option ConnectionSession) (conn now : ℕ) (s : Server)
    → (remove_session o conn now s).conn_at ≡ s.conn_at
unfolding remove_session
remove_session-conn_at none conn now s = refl
remove_session-conn_at (some session) conn now s =
    remove_authed_connection-conn_at session conn now s

-- The timer sees no difference.
abbrev pub Alike : Conn → Conn → Type 0
Alike c d =
    (d.is_dead_conn ≡ c.is_dead_conn)
    × (d.heartbeat_deadline_interval ≡ c.heartbeat_deadline_interval)

closed_conn-Alike : (c : Conn) → Alike c (closed_conn c)
unfolding closed_conn update_state exit close_network cancel
closed_conn-Alike c = ground arith

closing_conn-Alike : (c : Conn) → Alike c (exit (update_state conn_state_closing c))
unfolding update_state exit
closing_conn-Alike c = ground arith

pub write_conn-Alike :
    (p : ℕ) (d : Conn) (s : Server) (c : ℕ)
    → Alike (s.conn_at p) d
    → Alike (s.conn_at c) ((write_conn p d s).conn_at c)
unfolding write_conn
write_conn-Alike p d s c h = ground (arith, h)

pub Alike-trans : (c d e : Conn) → Alike c d → Alike d e → Alike c e
Alike-trans c d e p q = ground (arith, p, q)

module _ (conn now : ℕ) (s : Server) (c : ℕ) where
  abbrev closing : Server
  closing = write_conn conn (exit (update_state conn_state_closing (s.conn_at conn))) s

  abbrev removed : Server
  removed = remove_session (s.conn_at conn).session conn now closing

  abbrev shut : Server
  shut = write_conn conn (closed_conn (removed.conn_at conn)) removed

  removed-Alike : Alike (s.conn_at c) (removed.conn_at c)
  removed-Alike =
      subst (λ (f : ℕ → Conn). Alike (s.conn_at c) (f c))
        (sym (remove_session-conn_at (s.conn_at conn).session conn now closing))
        (write_conn-Alike conn _ s c (closing_conn-Alike (s.conn_at conn)))

  shut-Alike : Alike (s.conn_at c) (shut.conn_at c)
  shut-Alike =
      Alike-trans (s.conn_at c) (removed.conn_at c) (shut.conn_at c) removed-Alike
        (write_conn-Alike conn _ removed c (closed_conn-Alike (removed.conn_at conn)))

  at_once-Alike : Alike (s.conn_at c) ((write_conn conn (closed_conn (s.conn_at conn)) s).conn_at c)
  at_once-Alike = write_conn-Alike conn _ s c (closed_conn-Alike (s.conn_at conn))

  -- `Close` does not touch what the timer looks at.
  pub close_conn-Alike : Alike (s.conn_at c) ((close_conn conn now s).0.conn_at c)
  unfolding close_conn emit
  close_conn-Alike = elim (Bool-cases ((s.conn_at conn).state == conn_state_init)) [
    | inl e ↦ rw e at_once-Alike
    | inr e ↦ elim (Bool-cases ((s.conn_at conn).state == conn_state_authed)) [
      | inl d ↦ rw (e, d) shut-Alike
      | inr d ↦ elim (Bool-cases ((s.conn_at conn).state == conn_state_closing)) [
        | inl f ↦ rw (e, d, f) (refl, refl)
        | inr f ↦ elim (Bool-cases ((s.conn_at conn).state == conn_state_closed)) [
          | inl g ↦ rw (e, d, f, g) (refl, refl)
          | inr g ↦ rw (e, d, f, g) (refl, refl)
        ]
      ]
    ]
  ]

pub close_conn-AllHealthy :
    (conn now : ℕ) (s : Server) → AllHealthy s → AllHealthy (close_conn conn now s).0
close_conn-AllHealthy conn now s h c =
    let (alive, patient) = close_conn-Alike conn now s c in
    let v = h c in record { alive = alive ∙ v.alive; patient = omega (arith, patient, v.patient) }

pub write_conn-AllHealthy :
    (p : ℕ) (d : Conn) (s : Server) → AllHealthy s → IsHealthy d → AllHealthy (write_conn p d s)
unfolding write_conn
write_conn-AllHealthy p d s h v c = elim (Bool-cases (p == c)) [
  | inl e ↦ rw e v
  | inr e ↦ rw e (h c)
]

pub receive_frame_at-IsHealthy :
    (at : ℕ) (c : Conn) → IsHealthy c → IsHealthy (receive_frame_at at c)
unfolding receive_frame_at
receive_frame_at-IsHealthy at c v = record { alive = v.alive; patient = v.patient }

pub emit-AllHealthy : (calls : List Call) (s : Server) → AllHealthy s → AllHealthy (emit calls s)
unfolding emit
emit-AllHealthy calls s h c = h c

-- A frame that comes now, or later, moves the deadline past now.
pub received_deadline :
    (now at : ℕ) (c : Conn)
    → now ≤ at
    → IsHealthy c
    → pos now ≤ℤ get_heartbeat_deadline (receive_frame_at at c)
unfolding get_heartbeat_deadline receive_frame_at
received_deadline now at c later v = ground (arith, v.alive, v.patient)
