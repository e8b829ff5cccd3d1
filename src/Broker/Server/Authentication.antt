-- ===== src/Broker/Server/Authentication.antt =====
-- broker/server.go: `AddAuthedConnection` and, of broker/conn.go, `setAuthed`, on a sound server.
use longcom.Logic.Calls.{set_user_state, user_state_field}
use longcom.Base.Decimal.{format_int}
use longcom.Base.{
  ℕ, ◌≡◌, refl, true, false, not, ◌&&◌, ◌⊎◌, inl, inr, List, [], ◌∷◌, ◌++◌, map, none, some, arith,
  Text, contains, ◌==◌, nat_eq, text_eq, Bool-cases, subst, bytes, ◌∙◌,
}
use longcom.Base.Dict.{load, store, load-store}
use longcom.Base.Run.{ok}
use longcom.Broker.Conn.{Conn, ConnectionSession, conn_state_init, conn_state_authed, update_state}
use longcom.Broker.Group.{Group, add_conn}
use longcom.Broker.Group.View.{members, subscribed}
use longcom.Broker.Group.Coherence.{IsCoherent}
use longcom.Broker.Group.Connections.{Added, add_alias_conn-Added}
use longcom.Broker.Server.{Server, write_conn, write_group, emit}
use longcom.Broker.Server.{
  Call, state_call, add_to_group, add_authed_connection, set_authed, callback_call,
}
use longcom.Broker.Callback.{connect_callback_handler}
use longcom.Broker.Server.Registration.{
  session_of, IsSound, IsGroupSound, Keeps-IsSoundFor, store_group-groups,
  get_group_manager-Managed, session_of-same_conns, Managed-sessions, Managed-IsSound,
}

add_conn-IsCoherent : (i : Text) (c : ℕ) (g : Group) → IsCoherent g → IsCoherent (add_conn i c g)
unfolding add_conn subscribed
add_conn-IsCoherent i c g v = record {
  live = λ a p e.
      let l = v.live a p e in
      record {
        fresh = l.fresh;
        named = l.named;
        opened = l.opened;
        occupied = l.occupied;
        mapped = l.mapped;
      };
  listed = v.listed;
}

-- The connection is in each of the tables of the server, under the names of the session, and the
-- hub of its alias has the topics.
pub record IsRegistered (ss : ConnectionSession) (p : ℕ) (topic : List Text) (s : Server)
    : Type 0 where
  pub group : Group
  pub stored : load ss.business s.groups ≡ some group
  pub member : contains (members group ss.alias) p ≡ true
  pub subscribes : (t : Text) → (contains topic t && not (subscribed group ss.alias t)) ≡ false
  pub listed : load ss.connection_id group.all_conns ≡ some p
  pub indexed : load ss.connection_id s.connection_id_to_conn ≡ some p
  pub held : session_of s p ≡ some ss

module _ (ss : ConnectionSession) (p : ℕ) (topic : List Text) (now : ℕ) (s : Server) (g : Group)
    (v : IsSound s) (w : IsGroupSound (session_of s) ss.business g)
    (own : session_of s p ≡ some ss) where
  module _ (g₁ : Group) (added : Added ss.alias p topic now g g₁) where
    added-IsGroupSound : IsGroupSound (session_of s) ss.business (add_conn ss.connection_id p g₁)
    unfolding add_conn members
    added-IsGroupSound = record {
      coherent = add_conn-IsCoherent ss.connection_id p g₁ added.coherent;
      members_authed = λ a c m. elim (Bool-cases (ss.alias == a && p == c)) [
        | inl e ↦ (ss, ground (arith, own, e), refl, ground (arith, e, text_eq.beq_iff ss.alias a))
        | inr e ↦ w.members_authed a c (ground (arith, e, m, added.joins a c))
      ];
      conns_authed = λ i c m. elim (Bool-cases (ss.connection_id == i)) [
        | inl e ↦
            let same : p ≡ c = ground (arith, e, load-store ss.connection_id i p g₁.all_conns) in
            (ss, ground (arith, own), refl, (text_eq.beq_iff ss.connection_id i).0 e)
        | inr e ↦
            w.conns_authed i c
              (ground (arith, e, added.same_conns, load-store ss.connection_id i p g₁.all_conns))
      ];
    }

    abbrev added_server : List Call → Server
    added_server calls = emit calls (
        write_group ss.business (add_conn ss.connection_id p g₁)
          (record s { connection_id_to_conn = store ss.connection_id p s.connection_id_to_conn }))

    added_server-IsSound : (calls : List Call) → IsSound (added_server calls)
    unfolding emit write_group session_of
    added_server-IsSound calls = record {
      groups_sound =
          store_group-groups (session_of s) s ss.business _ (λ c h e _. v.groups_sound c h e)
            added-IsGroupSound;
      index_authed = λ i c m. elim (Bool-cases (ss.connection_id == i)) [
        | inl e ↦
            let same : p ≡ c =
              ground (arith, e, load-store ss.connection_id i p s.connection_id_to_conn) in
            (
              ss,
              subst (λ x. session_of s x ≡ some ss) same own,
              (text_eq.beq_iff ss.connection_id i).0 e,
            )
        | inr e ↦
            v.index_authed i c
              (ground (arith, e, load-store ss.connection_id i p s.connection_id_to_conn))
      ];
    }

    added_server-IsRegistered : (calls : List Call) → IsRegistered ss p topic (added_server calls)
    unfolding emit write_group session_of members add_conn subscribed
    added_server-IsRegistered calls = record {
      group = add_conn ss.connection_id p g₁;
      stored = ground (
        arith,
        load-store ss.business ss.business (add_conn ss.connection_id p g₁) s.groups,
        text_eq.beq_iff ss.business ss.business,
      );
      member = ground (arith, added.joins ss.alias p, text_eq.beq_iff ss.alias ss.alias);
      subscribes = λ t. ground (arith, added.gains ss.alias t, text_eq.beq_iff ss.alias ss.alias);
      listed = ground (
        arith,
        load-store ss.connection_id ss.connection_id p g₁.all_conns,
        text_eq.beq_iff ss.connection_id ss.connection_id,
      );
      indexed = ground (
        arith,
        load-store ss.connection_id ss.connection_id p s.connection_id_to_conn,
        text_eq.beq_iff ss.connection_id ss.connection_id,
      );
      held = own;
    }

  add_to_group-IsRegistered :
      (s' : Server) × (add_to_group ss p topic now (s, some g) ≡ ok (s', none))
      × IsSound s'
      × IsRegistered ss p topic s'
      × (s'.conn_at ≡ s.conn_at)
      × (s'.next_conn ≡ s.next_conn)
  unfolding add_to_group emit write_group
  add_to_group-IsRegistered =
      let (g₁, returned, added) =
        add_alias_conn-Added ss.alias p topic now g w.coherent ss.business s.node_id in
      let calls =
        map state_call (
          set_user_state ss.business [] ss.alias (user_state_field s.node_id (bytes "connect"))
            (format_int now)
          ∷ [])
        ++ callback_call (connect_callback_handler ss) in
      (
        added_server g₁ added calls,
        rw returned,
        added_server-IsSound g₁ added calls,
        added_server-IsRegistered g₁ added calls,
        refl,
        refl,
      )

module _ (ss : ConnectionSession) (topic : Text) (p now : ℕ) (s : Server) (v : IsSound s) where
  abbrev pub authed_conn : Conn
  authed_conn = record (update_state conn_state_authed (s.conn_at p)) { session = some ss }

  abbrev pub authed_server : Server
  authed_server = write_conn p authed_conn s

  authed_server-session :
      (s.conn_at p).state ≡ conn_state_init → session_of authed_server p ≡ some ss
  unfolding session_of write_conn update_state
  authed_server-session e = ground (arith, e)

  authed_server-IsSound : (s.conn_at p).state ≡ conn_state_init → IsSound authed_server
  unfolding session_of write_conn update_state
  authed_server-IsSound e =
      Keeps-IsSoundFor {σ = session_of s} (λ c x h. ground (arith, e)) refl refl v

  -- What `setAuthed` promises of the server that it leaves.
  abbrev pub Authenticates : Server → Type 0
  Authenticates s' =
      IsSound s'
      × (session_of s' p ≡ some ss)
      × (s.pools_fail ≡ true ⊎ IsRegistered ss p (topic ∷ []) s')
      × (s'.conn_at ≡ authed_server.conn_at)
      × (s'.next_conn ≡ s.next_conn)

  -- `setAuthed` on a connection in its first state, on a sound server: it returns, and the server
  -- is sound. The connection is authenticated with the session, and it is registered in the hub of
  -- its alias with the topic and in both tables, unless the pools of a new group cannot be made. No
  -- other connection changes.
  pub set_authed-Authenticates :
      (s.conn_at p).state ≡ conn_state_init
      → (s' : Server) × (set_authed ss topic p now s ≡ ok s') × Authenticates s'
  unfolding set_authed add_authed_connection write_conn
  set_authed-Authenticates e =
      let own = authed_server-session e in
      elim (get_group_manager-Managed (session_of authed_server) ss.business authed_server
        (authed_server-IsSound e)) [
          | inl (m, _, f) ↦ (
            authed_server,
            ground (arith, e, m),
            (authed_server-IsSound e, own, inl f, refl, refl),
          )
          | inr (s', g, m, w) ↦
              let own' : session_of s' p ≡ some ss =
                session_of-same_conns authed_server s' p w.same_conns ∙ own in
              let (s'', returned, sound, reg, same, count) =
                add_to_group-IsRegistered ss p (topic ∷ []) now s' g (Managed-IsSound w)
                  (subst (λ σ. IsGroupSound σ ss.business g) (Managed-sessions w) w.group) own' in
              (
                s'',
                ground (arith, e, m, returned),
                (sound, reg.held, inr reg, same ∙ w.same_conns, count ∙ w.same_next),
              )
        ]
