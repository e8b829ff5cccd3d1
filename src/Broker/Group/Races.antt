-- ===== src/Broker/Group/Races.antt =====
-- broker/group.go: `Subscribe` takes the lock for the topic map only, and writes the topic set of
-- the hub after it let go. What happens if the last connection of the alias leaves in between.
use longcom.Base.{
  ℕ, ◌≡◌, true, false, inl, inr, List, [], ◌∷◌, Option, none, some, arith, Text, contains, remove,
  nat_eq, text_eq, Option-cases,
}
use longcom.Base.Dict.{load, load-delete}
use longcom.Base.Run.{ok, panic}
use longcom.Broker.Hub.{unregister, close, closed, topics, subscribe_open}
use longcom.Broker.Group.{
  Group, do_with_topic_alias_info, then_subscribe_hub, subscribe_hub, write_hub, remove_alias_conn,
  drop_hub, store_info,
}
use longcom.Broker.Group.View.{
  hub_of, members, subscribed, info_of, info_of-delete_info, info_of-store_info,
}
use longcom.Broker.Group.Coherence.{IsCoherent}

module _ (business node_id a : Text) (c : ℕ) (ts : List Text) (now : ℕ) (g : Group)
    (v : IsCoherent g) (alone : members g a ≡ c ∷ []) where
  -- `Subscribe` has released the lock, and then the only connection of the alias leaves.
  abbrev pub half_way : Group × Option ℕ
  half_way = do_with_topic_alias_info a ts true now g

  abbrev pub abandoned : Group
  abandoned = (remove_alias_conn business node_id a c half_way.0).0

  -- If the only connection of an alias leaves between the two halves of `Subscribe`, on a manager
  -- that was coherent before them, then a topic that the hub did not have stays in the topic map
  -- with no hub for the alias, and the second half changes nothing.
  pub subscribe_leaks :
      (t : Text)
      → contains ts t ≡ true
      → subscribed g a t ≡ false
      → (then_subscribe_hub ts true (abandoned, half_way.1) ≡ ok abandoned)
        × (hub_of abandoned a ≡ none)
        × (info_of abandoned.topic_alias_info t a ≡ some now)
  unfolding do_with_topic_alias_info remove_alias_conn members subscribed hub_of drop_hub write_hub
      unregister close remove subscribe_hub
  subscribe_leaks t asked fresh = elim (Option-cases (load a g.alias_hub)) [
    | inl e ↦ absurd (ground (arith, e, alone))
    | inr (p, e) ↦
        let live = v.live a p e in
        (
          ground (arith, e, live, alone),
          ground (arith, e, live, alone, load-delete a a g.alias_hub, text_eq.beq_iff a a),
          ground (
            arith,
            e,
            live,
            alone,
            asked,
            fresh,
            text_eq.beq_iff a a,
            info_of-delete_info a (topics (g.hub_at p)) (store_info a now ts g.topic_alias_info) t
                a,
            info_of-store_info a now ts g.topic_alias_info t a,
          ),
        )
  ]

  -- If the only connection of a connected alias leaves after `hub.subscribe` has tested `closed`,
  -- on a manager that was coherent before, then the test had passed and the write of a topic panics
  -- on the nil map.
  pub subscribe_panics :
      (p : ℕ) (t : Text) (us : List Text)
      → load a g.alias_hub ≡ some p
      → (closed (half_way.0.hub_at p) ≡ false)
        × (subscribe_open (t ∷ us) (abandoned.hub_at p) ≡ panic)
  unfolding do_with_topic_alias_info remove_alias_conn members hub_of drop_hub write_hub unregister
      close closed remove subscribe_open
  subscribe_panics p t us e =
      let live = v.live a p e in (ground (arith, e, live, alone), ground (arith, e, live, alone))
