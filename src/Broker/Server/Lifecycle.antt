-- ===== src/Broker/Server/Lifecycle.antt =====
-- broker/gnet.go, broker/conn.go and broker/conn_handler.go as steps of the server: connections
-- open, authenticate, and close, in any order and from any goroutine, for the mutex of a connection
-- makes `setAuthed` and `Close` one step each.
use longcom.Base.{
  ℕ, ◌<◌, ◌≤◌, ◌≡◌, refl, false, ◌⊎◌, inl, inr, [], Option, none, some, arith, Text, ◌==◌, ◌≢◌,
  nat_eq, text_eq, Bool-cases, subst,
}
use longcom.Base.Dict.{load}
use longcom.Base.Run.{ok}
use longcom.Broker.Conn.{
  ConnectionSession, conn_state_init, conn_state_closed, new_conn, update_state,
}
use longcom.Broker.Server.{Server, write_conn, set_authed, close_conn}
use longcom.Broker.Server.Registration.{session_of, IsSound, Keeps-IsSoundFor}
use longcom.Broker.Server.Authentication.{set_authed-Authenticates}
use longcom.Broker.Server.Close.{IsOpen, close_conn-shuts, close_conn_again, close_conn-Spares}
use longcom.Broker.Gnet.{on_opened}

-- The server before the first connection.
unfoldable pub new_server : Text → Server
new_server node_id = record {
  next_luid = 0;
  conn_count = 0;
  node_id = node_id;
  conn_at = λ p. new_conn [] 0 0;
  next_conn = 0;
  connection_id_to_conn = [];
  groups = [];
  gnet_conn_to_conn = [];
  pools_fail = false;
  timer_ops = [];
  calls = [];
}

pub data Step (s : Server) : Server → Type 0 where
  opens : (gnet_conn : ℕ) (uid : Option Text) (now : ℕ) → Step s (on_opened gnet_conn uid now s).0
  authenticates :
      {s' : Server} (ss : ConnectionSession) (topic : Text) (p now : ℕ)
      → p < s.next_conn
      → set_authed ss topic p now s ≡ ok s'
      → Step s s'
  closes : (p now : ℕ) → p < s.next_conn → Step s (close_conn p now s).0

pub data Reach (s : Server) : Server → Type 0 where
  here : Reach s s
  next : {t u : Server} → Reach s t → Step t u → Reach s u

-- The connections that are not there yet have no session, and nobody is left in the middle of
-- `Close`.
pub record IsValid (s : Server) : Type 0 where
  pub sound : IsSound s
  pub unused : (p : ℕ) → s.next_conn ≤ p → (s.conn_at p).state ≡ conn_state_init
  pub settled : (p : ℕ) → IsOpen (s.conn_at p) ⊎ ((s.conn_at p).state ≡ conn_state_closed)

pub new_server-IsValid : (node_id : Text) → IsValid (new_server node_id)
unfolding new_server new_conn load
new_server-IsValid node_id = record {
  sound = record {
    groups_sound = λ b g e. absurd (ground arith);
    index_authed = λ i c e. absurd (ground arith);
  };
  unused = λ p h. refl;
  settled = λ p. inl (inl refl);
}

opened-IsValid :
    (g : ℕ) (uid : Option Text) (now : ℕ) (s : Server)
    → IsValid s
    → IsValid (on_opened g uid now s).0
unfolding on_opened session_of
opened-IsValid g none now s v = record {
  sound = Keeps-IsSoundFor {σ = session_of s} (λ c x h. h) refl refl v.sound;
  unused = v.unused;
  settled = v.settled;
}
opened-IsValid g (some uid) now s v = record {
  sound =
      Keeps-IsSoundFor {σ = session_of s} (λ c x h. ground (arith, v.unused c)) refl refl v.sound;
  unused = λ p h. ground (arith, v.unused p);
  settled = λ p. elim (Bool-cases (s.next_conn == p)) [
    | inl e ↦ inl (inl (ground (arith, e)))
    | inr e ↦ ground (arith, e, v.settled p)
  ];
}

module _ (ss : ConnectionSession) (topic : Text) (p now : ℕ) (s : Server) (v : IsValid s) where
  pub late : (s.conn_at p).state ≢ conn_state_init → set_authed ss topic p now s ≡ ok s
  unfolding set_authed
  late n = elim (Bool-cases ((s.conn_at p).state == conn_state_init)) [
    | inl e ↦ absurd (n (ground (arith, e)))
    | inr e ↦ rw e
  ]

  authenticated-IsValid :
      (s' : Server) → p < s.next_conn → set_authed ss topic p now s ≡ ok s' → IsValid s'
  unfolding write_conn update_state
  authenticated-IsValid s' there e = elim (Bool-cases ((s.conn_at p).state == conn_state_init)) [
    | inl i ↦
        let (t, returned, a) =
          set_authed-Authenticates ss topic p now s v.sound (ground (arith, i)) in
        let (sound, _, _, same, count) = a in
        let is : t ≡ s' = cc in
        subst IsValid is (record {
          sound = sound;
          unused = λ q h. ground (arith, same, count, v.unused q, there);
          settled = λ q. ground (arith, same, i, v.settled q);
        })
    | inr i ↦ let is : s ≡ s' = cc (late (λ q. ground (arith, i, q))) in subst IsValid is v
  ]

module _ (p now : ℕ) (s : Server) (v : IsValid s) where
  closed-IsValid : p < s.next_conn → IsValid (close_conn p now s).0
  closed-IsValid there = elim (v.settled p) [
    | inl o ↦
        let (_, shut, sound, _) = close_conn-shuts p now s v.sound o in
        let (same, count) = close_conn-Spares p now s v.sound o in
        record {
          sound = sound;
          unused = λ q h. ground (arith, count, v.unused q, there, same q);
          settled = λ q. elim (Bool-cases (p == q)) [
            | inl e ↦ inr (ground (arith, e, shut))
            | inr e ↦ ground (arith, same q e, v.settled q)
          ];
        }
    | inr c ↦ rw (close_conn_again p now s (λ o. ground arith)) v
  ]

pub Step-IsValid : {s t : Server} → IsValid s → Step s t → IsValid t
Step-IsValid {s} v (opens g uid now) = opened-IsValid g uid now s v
Step-IsValid {s} {t} v (authenticates ss topic p now there e) =
    authenticated-IsValid ss topic p now s v t there e
Step-IsValid {s} v (closes p now there) = closed-IsValid p now s v there

-- Every server that connections can reach from a valid one by opening, authenticating and closing,
-- in any order, is valid: its tables lead only to authenticated connections under the names of
-- their session, each group manager is coherent, connections that are not there yet are in their
-- first state, and no connection is left in the state closing.
pub Reach-IsValid : {s t : Server} → IsValid s → Reach s t → IsValid t
Reach-IsValid v here = v
Reach-IsValid v (next r st) = Step-IsValid (Reach-IsValid v r) st
