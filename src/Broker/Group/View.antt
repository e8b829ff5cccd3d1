-- ===== src/Broker/Group/View.antt =====
-- broker/group.go seen from outside: who is connected under an alias, what the hub of an alias
-- subscribes to, and what the topic map says of it. The laws of the two loops over the topic map.
use longcom.Base.{
  ℕ, ◌≡◌, refl, Bool, ◌&&◌, List, [], ◌∷◌, Option, none, some, arith, Text, contains, if◌then◌else◌,
  ◌==◌, nat_eq, text_eq, Option-cases, inl, inr,
}
use longcom.Base.Dict.{Dict, load, store, delete, load-store, load-delete}
use longcom.Broker.Hub.{Hub, topics}
use longcom.Broker.Group.{Group, store_info, delete_info, inner_map}

-- The hub that the alias map leads to.
unfoldable pub hub_of : Group → Text → Option Hub
hub_of g a = elim (load a g.alias_hub) [ none ↦ none | some p ↦ some (g.hub_at p) ]

abbrev hub_members : Option Hub → List ℕ
hub_members none = []
hub_members (some h) = h.conns

abbrev hub_topics : Option Hub → List Text
hub_topics none = []
hub_topics (some h) = topics h

unfoldable pub members : Group → Text → List ℕ
unfolding hub_of
members g a = hub_members (hub_of g a)

unfoldable pub subscribed : Group → Text → Text → Bool
unfolding hub_of
subscribed g a t = contains (hub_topics (hub_of g a)) t

-- The subscription time that the topic map holds for the alias.
unfoldable pub info_of : Dict Text (Dict Text ℕ) → Text → Text → Option ℕ
info_of m t a = load a (inner_map (load t m))

load-nil : (a : Text) → load {V = ℕ} a [] ≡ none
unfolding load
load-nil a = refl

pub info_of-store_info :
    (a : Text) (now : ℕ) (ts : List Text) (m : Dict Text (Dict Text ℕ)) (t b : Text)
    → info_of (store_info a now ts m) t b
      ≡ (if a == b && contains ts t then some now else info_of m t b)
unfolding store_info info_of contains
info_of-store_info a now [] m t b = ground arith
info_of-store_info a now (u ∷ ts) m t b =
    let inner = store a now (inner_map (load u m)) in
    ground (
      arith,
      info_of-store_info a now ts (store u inner m) t b,
      load-store u t inner m,
      load-store a b now (inner_map (load u m)),
      text_eq.beq_iff u t,
    )

pub info_of-delete_info :
    (a : Text) (ts : List Text) (m : Dict Text (Dict Text ℕ)) (t b : Text)
    → info_of (delete_info a ts m) t b ≡ (if a == b && contains ts t then none else info_of m t b)
unfolding delete_info info_of contains
info_of-delete_info a [] m t b = ground arith
info_of-delete_info a (u ∷ ts) m t b = elim (Option-cases (load u m)) [
  | inl e ↦ ground (arith, e, info_of-delete_info a ts m t b, load-nil b, text_eq.beq_iff u t)
  | inr (am, e) ↦ ground (
    arith,
    e,
    info_of-delete_info a ts (store u (delete a am) m) t b,
    load-store u t (delete a am) m,
    load-delete a b am,
    text_eq.beq_iff u t,
  )
]
