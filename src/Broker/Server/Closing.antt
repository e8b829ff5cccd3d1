-- ===== src/Broker/Server/Closing.antt =====
-- broker/server.go: `RemoveAuthedConnection` and, of broker/conn.go, `Close`, on a sound server.
use longcom.Base.{
  ℕ, ◌≡◌, refl, true, inl, inr, List, ◌++◌, map, none, some, arith, Text, if◌then◌else◌, ◌==◌, ◌≢◌,
  nat_eq, text_eq, Bool-cases, ◌∙◌,
}
use longcom.Base.Dict.{load, delete, load-delete}
use longcom.Broker.Conn.{ConnectionSession}
use longcom.Broker.Group.{
  Group, add_alias_conn, remove_alias_conn, add_conn, remove_conn, start_report,
}
use longcom.Broker.Group as G
use longcom.Broker.Group.View.{members}
use longcom.Broker.Group.Coherence.{IsCoherent}
use longcom.Broker.Group.Connections.{Removed, remove_alias_conn-Removed}
use longcom.Broker.Server.{Server, get_group_manager, write_group, emit}
use longcom.Broker.Server.{
  Call, state_call, remove_from_group, remove_authed_connection, callback_call,
}
use longcom.Broker.Callback.{disconnect_callback_handler}
use longcom.Broker.Server.Registration.{
  IsSoundFor, Sessions, IsGroupSound, store_group-groups, get_group_manager-Managed,
}

remove_conn-IsCoherent : (i : Text) (g : Group) → IsCoherent g → IsCoherent (remove_conn i g)
unfolding remove_conn G.View.subscribed
remove_conn-IsCoherent i g v = record {
  live = λ a p e.
      let l = v.live a p e in
      record {
        fresh = l.fresh;
        named = l.named;
        opened = l.opened;
        occupied = l.occupied;
        mapped = l.mapped;
      };
  listed = v.listed;
}

-- The sessions once one connection has lost its own.
abbrev pub without : ℕ → Sessions → Sessions
without p σ c = if p == c then none else σ c

module _ (σ : Sessions) (ss : ConnectionSession) (p now : ℕ) (own : σ p ≡ some ss) where
  survives :
      (c : ℕ) (x : ConnectionSession)
      → σ c ≡ some x
      → ((p == c) ≡ true → x ≡ ss → ⊥)
      → without p σ c ≡ some x
  survives c x e other = elim (Bool-cases (p == c)) [
    | inl same ↦ absurd (other same (ground (arith, same, e, own)))
    | inr n ↦ ground (arith, n, e)
  ]

  other_business :
      (b : Text) (g : Group) → ss.business ≢ b → IsGroupSound σ b g → IsGroupSound (without p σ) b g
  other_business b g n v = record {
    coherent = v.coherent;
    members_authed = λ a c m.
        let (x, e, f, h) = v.members_authed a c m in
        (x, survives c x e (λ r q. n (ground arith)), f, h);
    conns_authed = λ i c m.
        let (x, e, f, h) = v.conns_authed i c m in
        (x, survives c x e (λ r q. n (ground arith)), f, h);
  }

  module _ (g : Group) (w : IsGroupSound σ ss.business g) (g₁ : Group)
      (removed : Removed ss.alias p g g₁) where
    removed-IsGroupSound : IsGroupSound (without p σ) ss.business (remove_conn ss.connection_id g₁)
    unfolding remove_conn members
    removed-IsGroupSound = record {
      coherent = remove_conn-IsCoherent ss.connection_id g₁ removed.coherent;
      members_authed = λ a c m.
          let left = removed.leaves a c in
          let (x, e, f, h) = w.members_authed a c (ground (arith, left)) in
          (x, survives c x e (λ r q. ground (arith, left, own, text_eq.beq_iff ss.alias a)), f, h);
      conns_authed = λ i c m.
          let gone = load-delete ss.connection_id i g₁.all_conns in
          let (x, e, f, h) = w.conns_authed i c (ground (arith, removed.same_conns, gone)) in
          (
            x,
            survives c x e (λ r q. ground (arith, gone, text_eq.beq_iff ss.connection_id i)),
            f,
            h,
          );
    }

    removed_server : List Call → Server → Server
    unfolding emit write_group
    removed_server calls s =
        emit calls (write_group ss.business (remove_conn ss.connection_id g₁) s)

    removed_server-IsSoundFor :
        (calls : List Call) (s : Server)
        → IsSoundFor σ s
        → load ss.connection_id s.connection_id_to_conn ≡ none
        → IsSoundFor (without p σ) (removed_server calls s)
    unfolding removed_server
    removed_server-IsSoundFor calls s v gone = record {
      groups_sound =
          store_group-groups (without p σ) s ss.business _
            (λ c h e n.
              other_business c h (λ q. ground (arith, n, q, text_eq.beq_iff ss.business c))
                (v.groups_sound c h e))
            removed-IsGroupSound;
      index_authed = λ i c m.
          let (x, e, f) = v.index_authed i c m in
          (x, survives c x e (λ r q. ground (arith, gone, text_eq.beq_iff ss.connection_id i)), f);
    }

  abbrev unindexed : Server → Server
  unindexed s = record s { connection_id_to_conn = delete ss.connection_id s.connection_id_to_conn }

  unindexed-IsSoundFor : (s : Server) → IsSoundFor σ s → IsSoundFor σ (unindexed s)
  unindexed-IsSoundFor s v = record {
    groups_sound = v.groups_sound;
    index_authed = λ i c m.
        v.index_authed i c (ground (arith, load-delete ss.connection_id i s.connection_id_to_conn));
  }

  unindexed_gone : (s : Server) → load ss.connection_id (unindexed s).connection_id_to_conn ≡ none
  unindexed_gone s = ground (
    arith,
    load-delete ss.connection_id ss.connection_id s.connection_id_to_conn,
    text_eq.beq_iff ss.connection_id ss.connection_id,
  )

  unmanaged-IsSoundFor :
      (s : Server)
      → IsSoundFor σ s
      → load ss.connection_id s.connection_id_to_conn ≡ none
      → load ss.business s.groups ≡ none
      → IsSoundFor (without p σ) s
  unmanaged-IsSoundFor s v gone missing = record {
    groups_sound =
        λ b g e. other_business b g (λ q. ground (arith, e, missing, q)) (v.groups_sound b g e);
    index_authed = λ i c m.
        let (x, e, f) = v.index_authed i c m in
        (x, survives c x e (λ r q. ground (arith, gone, m, f, q)), f);
  }

  -- A server without the connection in its tables, whose heap is the one before.
  abbrev pub Gone : Server → Server → Type 0
  Gone s s' = IsSoundFor (without p σ) s' × (s'.conn_at ≡ s.conn_at) × (s'.next_conn ≡ s.next_conn)

  remove_from_group-Gone :
      (s : Server) (g : Group)
      → IsSoundFor σ s
      → IsGroupSound σ ss.business g
      → load ss.connection_id s.connection_id_to_conn ≡ none
      → Gone s (remove_from_group ss p now (s, some g)).0
  unfolding remove_from_group removed_server
  remove_from_group-Gone s g v w gone =
      let node = s.node_id in
      let (removed, _) = remove_alias_conn-Removed ss.business node ss.alias p g w.coherent in
      let r = remove_alias_conn ss.business node ss.alias p g in
      let outward = map state_call r.1 ++ callback_call (disconnect_callback_handler ss now) in
      (removed_server-IsSoundFor g w r.0 removed outward s v gone, refl, refl)

  remove_authed_connection_lem :
      (s : Server)
      → remove_authed_connection ss p now s
        ≡ remove_from_group ss p now (get_group_manager ss.business (unindexed s))
  unfolding remove_authed_connection
  remove_authed_connection_lem s = refl

  -- `RemoveAuthedConnection` on a server that is sound for the sessions with this one: sound for
  -- those without it.
  pub remove_authed_connection-Gone :
      (s : Server) → IsSoundFor σ s → Gone s (remove_authed_connection ss p now s).0
  unfolding remove_from_group
  remove_authed_connection-Gone s v =
      let u = unindexed s in
      let uv = unindexed-IsSoundFor s v in
      elim (get_group_manager-Managed σ ss.business u uv) [
        | inl (m, missing, _) ↦
            rw (remove_authed_connection_lem s, m)
              (unmanaged-IsSoundFor u uv (unindexed_gone s) missing, refl, refl)
        | inr (s', g, m, w) ↦
            let (sound, same, count) =
              remove_from_group-Gone s' g w.sound w.group
                (ground (arith, w.same_index, unindexed_gone s)) in
            rw (remove_authed_connection_lem s, m) (sound, same ∙ w.same_conns, count ∙ w.same_next)
      ]
