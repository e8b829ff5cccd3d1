-- ===== src/Broker/Group/Coherence.antt =====
-- broker/group.go: the invariant of a group manager between two locked sections, and what
-- `register` on the hub of an alias does to it.
use longcom.Base.{
  ℕ, ◌<◌, ◌≡◌, refl, true, false, ◌||◌, inl, inr, [], some, arith, Text, length, contains,
  contains-insert, length-insert-pos, if◌then◌else◌, ◌==◌, nat_eq, text_eq, Option-cases,
}
use longcom.Base.Dict.{load, load-store, is_some}
use longcom.Broker.Hub.{register, new_hub}
use longcom.Broker.Group.{Group, new_group_manager, write_hub, ensure_hub, register_at}
use longcom.Broker.Group.View.{members, subscribed, info_of}

-- A hub in the alias map: made by this manager, named for its alias, open, not empty, and with a
-- topic set.
pub record IsLive (g : Group) (a : Text) (p : ℕ) : Type 0 where
  pub fresh : p < g.next_hub
  pub named : (g.hub_at p).name ≡ a
  pub opened : (g.hub_at p).exit_closed ≡ false
  pub occupied : 0 < length (g.hub_at p).conns
  pub mapped : is_some (g.hub_at p).topic_set ≡ true

-- And the topic map lists exactly the subscriptions of the hubs in the alias map.
pub record IsCoherent (g : Group) : Type 0 where
  pub live : (a : Text) (p : ℕ) → load a g.alias_hub ≡ some p → IsLive g a p
  pub listed : (a t : Text) → is_some (info_of g.topic_alias_info t a) ≡ subscribed g a t

-- The members after one connection joined an alias.
abbrev pub Joins : Text → ℕ → Group → Group → Type 0
Joins a c g g' =
    (b : Text) (d : ℕ)
    → contains (members g' b) d
      ≡ (if a == b then c == d || contains (members g b) d else contains (members g b) d)

abbrev pub SameTopics : Group → Group → Type 0
SameTopics g g' = (b t : Text) → subscribed g' b t ≡ subscribed g b t

pub new_group_manager-IsCoherent : (name : Text) → IsCoherent (new_group_manager name)
unfolding new_group_manager subscribed info_of load contains
new_group_manager-IsCoherent name = record {
  live = λ a p h. absurd (ground arith);
  listed = λ a t. refl;
}

module _ (a : Text) (c : ℕ) (g : Group) (v : IsCoherent g) where
  abbrev pub joined : Group
  joined = register_at c (ensure_hub a g)

  joined-IsLive : (b : Text) (q : ℕ) → load b joined.alias_hub ≡ some q → IsLive joined b q
  unfolding register_at ensure_hub write_hub register new_hub
  joined-IsLive b q h = elim (Option-cases (load a g.alias_hub)) [
    | inl e ↦ ground (
      arith,
      e,
      load-store a b g.next_hub g.alias_hub,
      text_eq.beq_iff a b,
      v.live b q,
      length-insert-pos c [],
    )
    | inr (p, e) ↦ ground (
      arith,
      e,
      text_eq.beq_iff a b,
      v.live b q,
      v.live a p,
      length-insert-pos c (g.hub_at p).conns,
    )
  ]

  pub joined-topics : SameTopics g joined
  unfolding register_at ensure_hub write_hub register new_hub subscribed contains
  joined-topics b t = elim (Option-cases (load a g.alias_hub)) [
    | inl e ↦
        ground (
          arith,
          e,
          load-store a b g.next_hub g.alias_hub,
          text_eq.beq_iff a b,
          v.live b g.next_hub,
        )
    | inr (p, e) ↦ ground (arith, e, text_eq.beq_iff a b, v.live b p, v.live a p)
  ]

  pub joined-members : Joins a c g joined
  unfolding register_at ensure_hub write_hub register new_hub members contains
  joined-members b d = elim (Option-cases (load a g.alias_hub)) [
    | inl e ↦ ground (
      arith,
      e,
      load-store a b g.next_hub g.alias_hub,
      text_eq.beq_iff a b,
      v.live b g.next_hub,
      contains-insert c d [],
    )
    | inr (p, e) ↦ ground (
      arith,
      e,
      text_eq.beq_iff a b,
      v.live b p,
      v.live a p,
      contains-insert c d (g.hub_at p).conns,
    )
  ]

  pub joined-info : joined.topic_alias_info ≡ g.topic_alias_info
  unfolding register_at ensure_hub write_hub
  joined-info = ground arith

  pub joined-conns : joined.all_conns ≡ g.all_conns
  unfolding register_at ensure_hub write_hub
  joined-conns = ground arith

  pub joined-IsCoherent : IsCoherent joined
  joined-IsCoherent = record {
    live = joined-IsLive;
    listed = λ b t. ground (arith, joined-info, joined-topics b t, v.listed b t);
  }
