-- ===== src/Broker/Server/Finality.antt =====
-- broker/conn.go: what follows `connStateClosed`. The comment of `setAuthed` names the danger: a
-- connection that is closed while it is being authenticated, and would be registered for good.
use longcom.Base.{
  ℕ, ◌≡◌, inl, inr, Option, none, some, arith, Text, ◌==◌, nat_eq, text_eq, Bool-cases, subst,
}
use longcom.Base.Run.{ok}
use longcom.Broker.Conn.{ConnectionSession, conn_state_init, conn_state_closed}
use longcom.Broker.Server.{Server, write_conn, set_authed, close_conn}
use longcom.Broker.Server.Registration.{session_of}
use longcom.Broker.Server.Authentication.{set_authed-Authenticates}
use longcom.Broker.Server.Close.{
  IsAbsent, close_conn-shuts, close_conn_again, no_session-IsAbsent, close_conn-Spares,
}
use longcom.Broker.Gnet.{on_opened}
use longcom.Broker.Server.Lifecycle.{
  Step, Reach, IsValid, Reach-IsValid, opens, authenticates, closes, here, next, late,
}

module _ (p : ℕ) where
  abbrev Final : Server → Type 0
  Final s = (s.conn_at p).state ≡ conn_state_closed

  opened-Final :
      (g : ℕ) (uid : Option Text) (now : ℕ) (s : Server)
      → IsValid s
      → Final s
      → Final (on_opened g uid now s).0
  unfolding on_opened
  opened-Final g none now s v f = f
  opened-Final g (some uid) now s v f = elim (Bool-cases (s.next_conn == p)) [
    | inl e ↦ absurd (ground (arith, e, v.unused p))
    | inr e ↦ ground (arith, e)
  ]

  authenticated-Final :
      (ss : ConnectionSession) (topic : Text) (q now : ℕ) (s s' : Server)
      → IsValid s
      → set_authed ss topic q now s ≡ ok s'
      → Final s
      → Final s'
  unfolding write_conn
  authenticated-Final ss topic q now s s' v e f =
      elim (Bool-cases ((s.conn_at q).state == conn_state_init)) [
        | inl i ↦
            let (t, returned, a) =
              set_authed-Authenticates ss topic q now s v.sound (ground (arith, i)) in
            let (_, _, _, same, _) = a in
            let is : t ≡ s' = cc in subst Final is (ground (arith, same, i))
        | inr i ↦
            let is : s ≡ s' = cc (late ss topic q now s v (λ r. ground (arith, i, r))) in
            subst Final is f
      ]

  closed-Final : (q now : ℕ) (s : Server) → IsValid s → Final s → Final (close_conn q now s).0
  closed-Final q now s v f = elim (v.settled q) [
    | inl o ↦
        let (same, _) = close_conn-Spares q now s v.sound o in
        let shut = (close_conn-shuts q now s v.sound o).1 in
        elim (Bool-cases (q == p)) [
          | inl e ↦ ground (arith, e, shut)
          | inr e ↦ ground (arith, same p e)
        ]
    | inr c ↦ rw (close_conn_again q now s (λ o. ground arith)) f
  ]

  Step-Final : {s t : Server} → IsValid s → Step s t → Final s → Final t
  Step-Final {s} v (opens g uid now) f = opened-Final g uid now s v f
  Step-Final {s} {t} v (authenticates ss topic q now there e) f =
      authenticated-Final ss topic q now s t v e f
  Step-Final {s} v (closes q now there) f = closed-Final q now s v f

  Reach-Final : {s t : Server} → IsValid s → Reach s t → Final s → Final t
  Reach-Final v here f = f
  Reach-Final v (next r st) f = Step-Final (Reach-IsValid v r) st (Reach-Final v r f)

  Final-session : (s : Server) → Final s → session_of s p ≡ none
  unfolding session_of
  Final-session s f = ground arith

-- A connection that is closed in a valid server stays closed and is in no hub and no table of the
-- server, in whatever order connections go on to open, authenticate and close.
pub Reach-closed :
    {s t : Server} (p : ℕ)
    → IsValid s
    → (s.conn_at p).state ≡ conn_state_closed
    → Reach s t
    → ((t.conn_at p).state ≡ conn_state_closed) × IsAbsent p t
Reach-closed {t} p v f r =
    let final = Reach-Final p v r f in
    (final, no_session-IsAbsent p t (Reach-IsValid v r).sound (Final-session p t final))
