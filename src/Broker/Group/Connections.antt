-- ===== src/Broker/Group/Connections.antt =====
-- broker/group.go: `addAliasConn` and `removeAliasConn` against the view of the group.
use longcom.Base.Decimal.{format_int}
use longcom.Base.{
  ℕ, ◌≡◌, refl, true, false, not, ◌&&◌, ◌||◌, inl, inr, List, [], ◌∷◌, none, some, arith, Text,
  bytes, length, contains, contains-remove, contains-of-empty, if◌then◌else◌, ◌==◌, nat_eq, text_eq,
  Option-cases, Bool-cases, ltb, ◌∙◌,
}
use longcom.Base.Dict.{load, load-delete, is_some, load-store}
use longcom.Base.Run.{ok}
use longcom.Logic.Calls.{StateCall, set_user_state, expire_user_state, user_state_field}
use longcom.Broker.Hub.{Hub, unregister, close, topics}
use longcom.Broker.Group.{
  Group, write_hub, ensure_hub, register_at, add_alias_conn, remove_alias_conn, drop_hub,
}
use longcom.Broker.Group.View.{members, subscribed, info_of, info_of-delete_info}
use longcom.Broker.Group.Coherence.{
  IsCoherent, Joins, joined, joined-IsCoherent, joined-members, joined-topics, joined-info,
  joined-conns,
}
use longcom.Broker.Group.Subscriptions.{subscribe_impl-Subscribed}

-- The alias has the topics besides its own, and no other alias changes.
abbrev pub Gains : Text → List Text → Group → Group → Type 0
Gains a ts g g' =
    (b t : Text)
    → subscribed g' b t ≡ (if a == b then contains ts t || subscribed g b t else subscribed g b t)

-- The topic map has the time of the call for each of the topics, and is otherwise as it was.
abbrev pub Dates : Text → List Text → ℕ → Group → Group → Type 0
Dates a ts now g g' =
    (b t : Text)
    → info_of g'.topic_alias_info t b
      ≡ (if a == b && contains ts t then some now else info_of g.topic_alias_info t b)

pub record Added (a : Text) (c : ℕ) (ts : List Text) (now : ℕ) (g g' : Group) : Type 0 where
  pub coherent : IsCoherent g'
  pub joins : Joins a c g g'
  pub gains : Gains a ts g g'
  pub dates : Dates a ts now g g'
  pub same_conns : g'.all_conns ≡ g.all_conns

module _ (a : Text) (c : ℕ) (ts : List Text) (now : ℕ) (g : Group) (v : IsCoherent g) where
  joined_present : is_some (load a (joined a c g v).alias_hub) ≡ true
  unfolding register_at ensure_hub write_hub
  joined_present = ground (arith, load-store a a g.next_hub g.alias_hub, text_eq.beq_iff a a)

  -- `addAliasConn` returns on a coherent manager: the alias gains the connection and the topics,
  -- the topic map has the time of the call for them, no other alias changes, the manager stays
  -- coherent, and the one call of the user state records the time.
  pub add_alias_conn-Added :
      (business node_id : Text)
      → (g' : Group) × (add_alias_conn business node_id a c ts now g
          ≡ ok (
            g',
            set_user_state business [] a
                  (user_state_field node_id (bytes "connect"))
                  (format_int now)
                ∷ [],
          ))
        × Added a c ts now g g'
  unfolding add_alias_conn
  add_alias_conn-Added business node_id = elim (Bool-cases (ltb 0 (length ts))) [
    | inl e ↦
        let (g', returned, s) = subscribe_impl-Subscribed a ts now (joined a c g v) w true in
        (
          g',
          rw (e, returned),
          record {
            coherent = s.coherent;
            joins = λ b d. rw (s.same_members b) (joined-members a c g v b d);
            gains = λ b t. ground (arith, s.topics b t, joined_present, joined-topics a c g v b t);
            dates = λ b t. ground (arith, s.stamps b t, joined_present, joined-info a c g v);
            same_conns = s.same_conns ∙ joined-conns a c g v;
          },
        )
    | inr e ↦ (
      joined a c g v,
      rw e,
      record {
        coherent = w;
        joins = joined-members a c g v;
        gains = λ b t. ground (arith, e, joined-topics a c g v b t, contains-of-empty ts t);
        dates = λ b t. ground (arith, e, joined-info a c g v, contains-of-empty ts t);
        same_conns = joined-conns a c g v;
      },
    )
  ]
    where
      w : IsCoherent (joined a c g v)
      w = joined-IsCoherent a c g v

-- The alias loses the connection, and no other alias changes.
abbrev pub Leaves : Text → ℕ → Group → Group → Type 0
Leaves a c g g' =
    (b : Text) (d : ℕ)
    → contains (members g' b) d
      ≡ (if a == b then not (c == d) && contains (members g b) d else contains (members g b) d)

-- An alias with nobody left loses its topics; nothing else changes.
abbrev pub Forgets : Text → Group → Group → Type 0
Forgets a g g' =
    (b t : Text)
    → subscribed g' b t ≡ (if a == b && length (members g' a) == 0 then false else subscribed g b t)

pub record Removed (a : Text) (c : ℕ) (g g' : Group) : Type 0 where
  pub coherent : IsCoherent g'
  pub leaves : Leaves a c g g'
  pub forgets : Forgets a g g'
  pub same_conns : g'.all_conns ≡ g.all_conns

module _ (business node_id a : Text) (c : ℕ) (g : Group) (v : IsCoherent g) where
  Removed-missing : load a g.alias_hub ≡ none → Removed a c g g
  unfolding members subscribed contains
  Removed-missing e = record {
    coherent = v;
    leaves = λ b d. ground (arith, e, text_eq.beq_iff a b);
    forgets = λ b t. ground (arith, e, text_eq.beq_iff a b);
    same_conns = refl;
  }

  module _ (p : ℕ) (e : load a g.alias_hub ≡ some p) where
    abbrev left : Hub
    left = unregister c (g.hub_at p)

    Removed-kept : (length left.conns == 0) ≡ false → Removed a c g (write_hub p left g)
    unfolding members subscribed write_hub unregister
    Removed-kept n = record {
      coherent = record {
        live = λ b q h. ground (arith, n, v.live b q, v.live a p);
        listed = λ b t. ground (arith, e, v.listed b t, v.live a p, v.live b p);
      };
      leaves = λ b d. ground (
        arith,
        e,
        contains-remove c d (g.hub_at p).conns,
        text_eq.beq_iff a b,
        v.live b p,
        v.live a p,
      );
      forgets = λ b t. ground (arith, e, n, v.live b p, v.live a p);
      same_conns = refl;
    }

    Removed-dropped : (length left.conns == 0) ≡ true → Removed a c g (drop_hub a p left g)
    unfolding members subscribed write_hub unregister drop_hub close contains
    Removed-dropped n = record {
      coherent = record {
        live = λ b q h.
            ground
              (arith, n, load-delete a b g.alias_hub, text_eq.beq_iff a b, v.live b q, v.live a p);
        listed = λ b t. ground (
          arith,
          e,
          load-delete a b g.alias_hub,
          text_eq.beq_iff a b,
          info_of-delete_info a (topics (g.hub_at p)) g.topic_alias_info t b,
          v.listed b t,
          v.live a p,
          v.live b p,
        );
      };
      leaves = λ b d. ground (
        arith,
        e,
        n,
        load-delete a b g.alias_hub,
        contains-remove c d (g.hub_at p).conns,
        contains-of-empty left.conns d,
        text_eq.beq_iff a b,
        v.live b p,
        v.live a p,
      );
      forgets = λ b t. ground (
        arith,
        e,
        n,
        load-delete a b g.alias_hub,
        load-delete a a g.alias_hub,
        text_eq.beq_iff a b,
        text_eq.beq_iff a a,
        v.live b p,
        v.live a p,
      );
      same_conns = refl;
    }

  -- The call of the user state that `removeAliasConn` makes: one, if the alias had a hub that has
  -- nobody left.
  abbrev pub expiry : Group → List StateCall
  expiry g' =
      if is_some (load a g.alias_hub) && length (members g' a) == 0
      then expire_user_state business [] a node_id ∷ []
      else []

  -- `removeAliasConn` on a coherent manager: the alias loses the connection, and if nobody is left
  -- also all topics, in its hub and in the topic map; the user state is told of it by one call,
  -- made exactly if the alias had a hub and nobody is left. No other alias changes, and the manager
  -- stays coherent.
  pub remove_alias_conn-Removed :
      Removed a c g (remove_alias_conn business node_id a c g).0
      × ((remove_alias_conn business node_id a c g).1
          ≡ expiry (remove_alias_conn business node_id a c g).0)
  unfolding remove_alias_conn members
  remove_alias_conn-Removed = elim (Option-cases (load a g.alias_hub)) [
    | inl e ↦ rw (e, remove_alias_conn) (Removed-missing e, ground (arith, e))
    | inr (p, e) ↦ elim (Bool-cases (length (left p e).conns == 0)) [
      | inl n ↦
          rw (e, remove_alias_conn, n)
            (
              Removed-dropped p e n,
              ground (arith, e, n, load-delete a a g.alias_hub, text_eq.beq_iff a a),
            )
      | inr n ↦ rw (e, remove_alias_conn, n) (Removed-kept p e n, ground (arith, e, n))
    ]
  ]
