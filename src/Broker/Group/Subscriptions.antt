-- ===== src/Broker/Group/Subscriptions.antt =====
-- broker/group.go: `subscribeImpl` with its two halves under one lock, as `addAliasConn` calls it.
use longcom.Base.{
  ℕ, ◌≡◌, refl, Bool, true, false, not, ◌&&◌, ◌||◌, inl, inr, List, none, some, arith, Text,
  contains, if◌then◌else◌, ◌==◌, nat_eq, text_eq, Option-cases,
}
use longcom.Base.Dict.{Dict, load, is_some}
use longcom.Base.Run.{ok}
use longcom.Broker.Hub.{
  insert_all, remove_all, contains-insert_all, contains-remove_all, store_topics-some,
}
use longcom.Broker.Group.{Group, subscribe_impl, write_hub, store_info, delete_info}
use longcom.Broker.Group.View.{
  members, subscribed, info_of, info_of-store_info, info_of-delete_info,
}
use longcom.Broker.Group.Coherence.{IsLive, IsCoherent}

abbrev pub SameMembers : Group → Group → Type 0
SameMembers g g' = (b : Text) → members g' b ≡ members g b

-- The topics of the alias after `subscribe` (or `unsubscribe`) of `ts`.
abbrev changed : Bool → Bool → Bool → Bool
changed true listed old = listed || old
changed false listed old = not listed && old

-- Only the subscriptions of a connected alias change, and only in the topics named.
abbrev pub Subscribes : Text → List Text → Bool → Group → Group → Type 0
Subscribes a ts sub g g' =
    (b t : Text)
    → subscribed g' b t ≡ (
        if a == b && is_some (load a g.alias_hub)
        then changed sub (contains ts t) (subscribed g b t)
        else subscribed g b t)

-- And the topic map has the time of the call for them, or nothing.
abbrev pub Stamps : Text → List Text → Bool → ℕ → Group → Group → Type 0
Stamps a ts sub now g g' =
    (b t : Text)
    → info_of g'.topic_alias_info t b ≡ (
        if a == b && is_some (load a g.alias_hub) && contains ts t
        then (if sub then some now else none)
        else info_of g.topic_alias_info t b)

pub record Subscribed (a : Text) (ts : List Text) (sub : Bool) (now : ℕ) (g g' : Group)
    : Type 0 where
  pub coherent : IsCoherent g'
  pub same_members : SameMembers g g'
  pub topics : Subscribes a ts sub g g'
  pub stamps : Stamps a ts sub now g g'
  pub same_conns : g'.all_conns ≡ g.all_conns

module _ (a : Text) (ts : List Text) (now : ℕ) (g : Group) (v : IsCoherent g) where
  subscribe_missing :
      (sub : Bool)
      → load a g.alias_hub ≡ none
      → (subscribe_impl a ts sub now g ≡ ok g) × Subscribed a ts sub now g g
  unfolding subscribe_impl
  subscribe_missing sub e = (
    ground (arith, e),
    record {
      coherent = v;
      same_members = λ b. refl;
      topics = λ b t. ground (arith, e);
      stamps = λ b t. ground (arith, e);
      same_conns = refl;
    },
  )

  module _ (p : ℕ) (s : List Text) (e : load a g.alias_hub ≡ some p)
      (m : (g.hub_at p).topic_set ≡ some s) where
    abbrev resubscribed : List Text → Dict Text (Dict Text ℕ) → Group
    resubscribed s' info =
        write_hub p (record (g.hub_at p) { topic_set = some s' })
          (record g { topic_alias_info = info })

    resubscribed-IsLive :
        (s' : List Text) (info : Dict Text (Dict Text ℕ)) (b : Text) (q : ℕ)
        → load b (resubscribed s' info).alias_hub ≡ some q
        → IsLive (resubscribed s' info) b q
    unfolding write_hub
    resubscribed-IsLive s' info b q h = ground (arith, v.live b q, v.live a p)

    resubscribed-members :
        (s' : List Text) (info : Dict Text (Dict Text ℕ)) → SameMembers g (resubscribed s' info)
    unfolding write_hub members
    resubscribed-members s' info b = ground (arith, e, v.live a p)

    resubscribed-topics :
        (s' : List Text) (info : Dict Text (Dict Text ℕ)) (b t : Text)
        → subscribed (resubscribed s' info) b t
          ≡ (if a == b then contains s' t else subscribed g b t)
    unfolding write_hub subscribed
    resubscribed-topics s' info b t =
        ground (arith, e, m, v.live a p, v.live b p, text_eq.beq_iff a b)

    resubscribed-info :
        (s' : List Text) (info : Dict Text (Dict Text ℕ))
        → (resubscribed s' info).topic_alias_info ≡ info
    unfolding write_hub
    resubscribed-info s' info = refl

    resubscribed-conns :
        (s' : List Text) (info : Dict Text (Dict Text ℕ))
        → (resubscribed s' info).all_conns ≡ g.all_conns
    unfolding write_hub
    resubscribed-conns s' info = refl

    own_topics : (t : Text) → subscribed g a t ≡ contains s t
    unfolding subscribed
    own_topics t = ground (arith, e, m)

    subscribe_present :
        subscribe_impl a ts true now g
        ≡ ok (resubscribed (insert_all ts s) (store_info a now ts g.topic_alias_info))
    unfolding subscribe_impl write_hub
    subscribe_present = ground (arith, e, m, v.live a p, store_topics-some ts s)

    unsubscribe_present :
        subscribe_impl a ts false now g
        ≡ ok (resubscribed (remove_all ts s) (delete_info a ts g.topic_alias_info))
    unfolding subscribe_impl write_hub
    unsubscribe_present = ground (arith, e, m, v.live a p)

    Subscribed-after_insert :
        Subscribed a ts true now g
          (resubscribed (insert_all ts s) (store_info a now ts g.topic_alias_info))
    Subscribed-after_insert =
        let s' = insert_all ts s in
        let info = store_info a now ts g.topic_alias_info in
        record {
          coherent = record {
            live = resubscribed-IsLive s' info;
            listed = λ b t. ground (
              arith,
              resubscribed-info s' info,
              resubscribed-topics s' info b t,
              contains-insert_all ts s t,
              own_topics t,
              v.listed b t,
              text_eq.beq_iff a b,
              info_of-store_info a now ts g.topic_alias_info t b,
            );
          };
          same_members = resubscribed-members s' info;
          topics = λ b t. ground (
            arith,
            e,
            resubscribed-topics s' info b t,
            contains-insert_all ts s t,
            own_topics t,
            text_eq.beq_iff a b,
          );
          stamps = λ b t. ground (
            arith,
            e,
            resubscribed-info s' info,
            info_of-store_info a now ts g.topic_alias_info t b,
          );
          same_conns = resubscribed-conns s' info;
        }

    Subscribed-after_remove :
        Subscribed a ts false now g
          (resubscribed (remove_all ts s) (delete_info a ts g.topic_alias_info))
    Subscribed-after_remove =
        let s' = remove_all ts s in
        let info = delete_info a ts g.topic_alias_info in
        record {
          coherent = record {
            live = resubscribed-IsLive s' info;
            listed = λ b t. ground (
              arith,
              resubscribed-info s' info,
              resubscribed-topics s' info b t,
              contains-remove_all ts s t,
              own_topics t,
              v.listed b t,
              text_eq.beq_iff a b,
              info_of-delete_info a ts g.topic_alias_info t b,
            );
          };
          same_members = resubscribed-members s' info;
          topics = λ b t. ground (
            arith,
            e,
            resubscribed-topics s' info b t,
            contains-remove_all ts s t,
            own_topics t,
            text_eq.beq_iff a b,
          );
          stamps = λ b t. ground (
            arith,
            e,
            resubscribed-info s' info,
            info_of-delete_info a ts g.topic_alias_info t b,
          );
          same_conns = resubscribed-conns s' info;
        }

    present :
        (sub : Bool)
        → (g' : Group) × (subscribe_impl a ts sub now g ≡ ok g') × Subscribed a ts sub now g g'
    present true = (_, subscribe_present, Subscribed-after_insert)
    present false = (_, unsubscribe_present, Subscribed-after_remove)

  -- `subscribeImpl` with no step in between, on a coherent manager, never panics; it changes the
  -- topics of the alias, if that is connected, in its hub and in the topic map, and no other alias
  -- and no connection, and the manager stays coherent.
  pub subscribe_impl-Subscribed :
      (sub : Bool)
      → (g' : Group) × (subscribe_impl a ts sub now g ≡ ok g') × Subscribed a ts sub now g g'
  subscribe_impl-Subscribed sub = elim (Option-cases (load a g.alias_hub)) [
    | inl e ↦ let r = subscribe_missing sub e in (g, r.0, r.1)
    | inr (p, e) ↦ elim (Option-cases (g.hub_at p).topic_set) [
      | inl n ↦ absurd (ground (arith, n, v.live a p e))
      | inr (s, m) ↦ present p s e m sub
    ]
  ]
