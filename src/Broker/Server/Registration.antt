-- ===== src/Broker/Server/Registration.antt =====
-- broker/server.go and broker/conn.go: who is registered. The hubs, the table of all connections of
-- a group and the table by connection id hold only connections that are authenticated, under the
-- names of their session.
use mathlib.Core.Path.{fun_ext}
use longcom.Base.{
  ℕ, ◌≡◌, refl, true, false, ◌⊎◌, inl, inr, List, [], Option, none, some, arith, Text, contains,
  if◌then◌else◌, ◌==◌, nat_eq, text_eq, Option-cases, Bool-cases, subst, sym,
}
use longcom.Base.Dict.{load, store, load-store}
use longcom.Broker.Conn.{ConnectionSession, conn_state_authed}
use longcom.Broker.Group.{
  Group, add_alias_conn, remove_alias_conn, add_conn, remove_conn, start_report,
}
use longcom.Broker.Group as G
use longcom.Broker.Group.View.{members}
use longcom.Broker.Group.Coherence.{IsCoherent}
use longcom.Broker.Server.{Server, get_group_manager}

-- The session of an authenticated connection.
unfoldable pub session_of : Server → ℕ → Option ConnectionSession
session_of s c = if (s.conn_at c).state == conn_state_authed then (s.conn_at c).session else none

abbrev pub Sessions : Type 0
Sessions = ℕ → Option ConnectionSession

-- The tables of one group lead only to connections with a session, of its business.
pub record IsGroupSound (σ : Sessions) (b : Text) (g : Group) : Type 0 where
  pub coherent : IsCoherent g
  pub members_authed :
      (a : Text) (c : ℕ)
      → contains (members g a) c ≡ true
      → (ss : ConnectionSession) × (σ c ≡ some ss) × (ss.business ≡ b) × (ss.alias ≡ a)
  pub conns_authed :
      (i : Text) (c : ℕ)
      → load i g.all_conns ≡ some c
      → (ss : ConnectionSession) × (σ c ≡ some ss) × (ss.business ≡ b) × (ss.connection_id ≡ i)

pub record IsSoundFor (σ : Sessions) (s : Server) : Type 0 where
  pub groups_sound : (b : Text) (g : Group) → load b s.groups ≡ some g → IsGroupSound σ b g
  pub index_authed :
      (i : Text) (c : ℕ)
      → load i s.connection_id_to_conn ≡ some c
      → (ss : ConnectionSession) × (σ c ≡ some ss) × (ss.connection_id ≡ i)

-- The tables of the server lead only to authenticated connections, under the names of their session.
abbrev pub IsSound : Server → Type 0
IsSound s = IsSoundFor (session_of s) s

-- The hub of an alias and the table of all connections of a business, empty where there is none.
unfoldable pub members_of : Server → Text → Text → List ℕ
members_of s b a = elim (load b s.groups) [ none ↦ [] | some g ↦ members g a ]

unfoldable pub conn_of : Server → Text → Text → Option ℕ
conn_of s b i = elim (load b s.groups) [ none ↦ none | some g ↦ load i g.all_conns ]

-- Nobody who has a session loses it.
abbrev pub Keeps : Sessions → Sessions → Type 0
Keeps σ τ = (c : ℕ) (ss : ConnectionSession) → σ c ≡ some ss → τ c ≡ some ss

pub Keeps-IsGroupSound :
    {σ τ : Sessions} {b : Text} {g : Group} → Keeps σ τ → IsGroupSound σ b g → IsGroupSound τ b g
Keeps-IsGroupSound k v = record {
  coherent = v.coherent;
  members_authed = λ a c m. let (ss, e, p, q) = v.members_authed a c m in (ss, k c ss e, p, q);
  conns_authed = λ i c m. let (ss, e, p, q) = v.conns_authed i c m in (ss, k c ss e, p, q);
}

pub Keeps-IsSoundFor :
    {σ τ : Sessions} {s s' : Server}
    → Keeps σ τ
    → s'.groups ≡ s.groups
    → s'.connection_id_to_conn ≡ s.connection_id_to_conn
    → IsSoundFor σ s
    → IsSoundFor τ s'
Keeps-IsSoundFor k e f v = record {
  groups_sound = λ b g h. Keeps-IsGroupSound k (v.groups_sound b g (cc h));
  index_authed = λ i c h. let (ss, p, q) = v.index_authed i c (cc h) in (ss, k c ss p, q);
}

new_group : Text → Group
unfolding start_report
new_group b = (start_report (G.new_group_manager b)).0

new_group-IsGroupSound : (σ : Sessions) (b : Text) → IsGroupSound σ b (new_group b)
unfolding new_group G.new_group_manager members contains load G.View.info_of G.View.subscribed
new_group-IsGroupSound σ b = record {
  coherent = record { live = λ a p h. absurd (ground arith); listed = λ a t. refl };
  members_authed = λ a c h. absurd (ground arith);
  conns_authed = λ i c h. absurd (ground arith);
}

-- A sound group may be stored under its business.
pub store_group-groups :
    (σ : Sessions) (s : Server) (b : Text) (g : Group)
    → ((c : Text) (h : Group) → load c s.groups ≡ some h → (b == c) ≡ false → IsGroupSound σ c h)
    → IsGroupSound σ b g
    → (c : Text) (h : Group) → load c (store b g s.groups) ≡ some h
    → IsGroupSound σ c h
store_group-groups σ s b g v w c h e = elim (Bool-cases (b == c)) [
  | inl same ↦
      let at : b ≡ c = (text_eq.beq_iff b c).0 same in
      let is : g ≡ h = ground (arith, load-store b c g s.groups) in
      subst (λ x. IsGroupSound σ c x) is (subst (λ x. IsGroupSound σ x g) at w)
  | inr other ↦ v c h (ground (arith, load-store b c g s.groups)) other
]

-- The result of `getGroupManager` on a sound server: sound, and the group that it found or made.
pub record Managed (σ : Sessions) (b : Text) (s s' : Server) (g : Group) : Type 0 where
  pub sound : IsSoundFor σ s'
  pub group : IsGroupSound σ b g
  pub stored : load b s'.groups ≡ some g
  pub same_conns : s'.conn_at ≡ s.conn_at
  pub same_next : s'.next_conn ≡ s.next_conn
  pub same_index : s'.connection_id_to_conn ≡ s.connection_id_to_conn

pub session_of-same_conns :
    (s s' : Server) (c : ℕ) → s'.conn_at ≡ s.conn_at → session_of s' c ≡ session_of s c
unfolding session_of
session_of-same_conns s s' c e = ground (arith, e)

pub Managed-sessions :
    {b : Text} {s s' : Server} {g : Group}
    → Managed (session_of s) b s s' g
    → session_of s ≡ session_of s'
Managed-sessions {s} {s'} m = fun_ext λ c. sym (session_of-same_conns s s' c m.same_conns)

pub Managed-IsSound :
    {b : Text} {s s' : Server} {g : Group} → Managed (session_of s) b s s' g → IsSound s'
Managed-IsSound {s'} m = subst (λ σ. IsSoundFor σ s') (Managed-sessions m) m.sound

module _ (σ : Sessions) (b : Text) (s : Server) (v : IsSoundFor σ s) where
  abbrev with_new_group : Server
  with_new_group = record s { groups = store b (new_group b) s.groups }

  with_new_group-Managed : Managed σ b s with_new_group (new_group b)
  with_new_group-Managed =
      let w = new_group-IsGroupSound σ b in
      record {
        sound = record {
          groups_sound = store_group-groups σ s b (new_group b) (λ c h e _. v.groups_sound c h e) w;
          index_authed = v.index_authed;
        };
        group = w;
        stored = ground (arith, load-store b b (new_group b) s.groups, text_eq.beq_iff b b);
        same_conns = refl;
        same_next = refl;
        same_index = refl;
      }

  pub get_group_manager-Managed :
      ((get_group_manager b s ≡ (s, none)) × (load b s.groups ≡ none) × (s.pools_fail ≡ true))
      ⊎ ((s' : Server) × (g : Group) × (get_group_manager b s ≡ (s', some g)) × Managed σ b s s' g)
  unfolding get_group_manager new_group
  get_group_manager-Managed = elim (Option-cases (load b s.groups)) [
    | inr (g, e) ↦ inr (
      s,
      g,
      ground (arith, e),
      record {
        sound = v;
        group = v.groups_sound b g e;
        stored = e;
        same_conns = refl;
        same_next = refl;
        same_index = refl;
      },
    )
    | inl e ↦ elim (Bool-cases s.pools_fail) [
      | inl f ↦ inl (ground (arith, e, f), e, f)
      | inr f ↦ inr (with_new_group, new_group b, ground (arith, e, f), with_new_group-Managed)
    ]
  ]
