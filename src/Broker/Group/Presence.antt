-- ===== src/Broker/Group/Presence.antt =====
-- broker/group.go and logic/state_logic.go: the stay of a user on a node, from `addAliasConn` to what
-- `GetUserState` reads.
use longcom.Base.{
  ℕ, ◌+◌, ◌<◌, ◌≤◌, ◌≡◌, refl, ◌∙◌, arith, true, false, List, [], ◌∷◌, Text, contains, ltb, ==-refl,
  nat_eq, text_eq, Option-cases, inl, inr,
}
use longcom.Base.Dict.{load, is_some}
use longcom.Base.Decimal.{max_int}
use longcom.Base.Run.{ok}
use longcom.Logic.Calls.{StateCall, expire_user_state}
use longcom.Logic.UserState.{is_closed}
use longcom.Logic.Redis.{Redis, IsRedis, empty_hash, live, state_key, perform, read_user_state}
use longcom.Logic.Sessions.{past_state}
use longcom.Logic.Stays.{in_order, read_user_state-stay}
use longcom.Broker.Group.{Group, add_alias_conn, remove_alias_conn}
use longcom.Broker.Group.View.{members, hub_of}
use longcom.Broker.Group.Coherence.{IsCoherent}
use longcom.Broker.Group.Connections.{Added, add_alias_conn-Added, remove_alias_conn-Removed}

nobody : (xs : List ℕ) → ((d : ℕ) → contains xs d ≡ false) → xs ≡ []
unfolding contains
nobody [] h = refl
nobody (x ∷ xs) h = absurd (ground (arith, h x))

with_hub :
    (g : Group) (a : Text) (c : ℕ)
    → contains (members g a) c ≡ true
    → is_some (load a g.alias_hub) ≡ true
unfolding members hub_of contains
with_hub g a c h = elim (Option-cases (load a g.alias_hub)) [
  | inl e ↦ absurd (ground (arith, e, h))
  | inr (p, e) ↦ rw e refl
]

module _ (business node a : Text) (conn : ℕ) (topics : List Text) (t₀ : ℕ) (g : Group)
    (v : IsCoherent g) (none_yet : members g a ≡ []) where
  -- The manager after the connection has come.
  abbrev pub come : Group
  come = (add_alias_conn-Added a conn topics t₀ g v business node).0

  abbrev added : Added a conn topics t₀ g come
  added = (add_alias_conn-Added a conn topics t₀ g v business node).2

  empty_again : members (remove_alias_conn business node a conn come).0 a ≡ []
  unfolding contains
  empty_again =
      let (removed, _) = remove_alias_conn-Removed business node a conn come added.coherent in
      nobody _ (λ d. ground (arith, removed.leaves a d, added.joins a d, none_yet, ==-refl a))

  hub_there : is_some (load a come.alias_hub) ≡ true
  hub_there = with_hub come a conn (ground (arith, added.joins a conn, ==-refl a, ==-refl conn))

  told : (remove_alias_conn business node a conn come).1 ≡ expire_user_state business [] a node ∷ []
  told =
      let (_, calls) = remove_alias_conn-Removed business node a conn come added.coherent in
      calls ∙ (rw (hub_there, empty_again) refl)

  module _ {R : Type 0} (c : Redis R) (laws : IsRedis c) (plain : contains node b'_' ≡ false) where
    abbrev pub perform_all : ℕ → List StateCall → R → R
    perform_all now [] r = r
    perform_all now (call ∷ calls) r = perform_all now calls (perform c now call r)

    -- If nobody is connected under a user on a coherent manager of a node with no `_` in its name,
    -- and redis has nothing of the user and does what its documentation says, then after
    -- `addAliasConn` of a connection and `removeAliasConn` of it, with the calls of the user state
    -- that they make at two positive times that fit an int, nobody is connected again, and
    -- `GetUserState` with an empty topic reads both times until an hour after the user left, with
    -- `{longcom}` before the name of the node; the user is closed exactly if the time of leaving is
    -- later.
    pub read_user_state-remove_alias_conn :
        (t₁ t : ℕ) (r : R)
        → live t₀ (c.shows (state_key business [] a) r) ≡ empty_hash
        → 0 < t₀
        → 0 < t₁
        → t₀ ≤ max_int
        → t₁ ≤ max_int
        → t < t₁ + 3600
        → (g' : Group) × (calls : List StateCall) × (add_alias_conn business node a conn topics t₀ g
            ≡ ok (g', calls))
          × (let left = remove_alias_conn business node a conn g' in
              let state =
                read_user_state c
                  (in_order c laws business a node plain)
                  t
                  business
                  []
                  a
                  (perform_all t₁ left.1 (perform_all t₀ calls r)) in
              (members left.0 a ≡ [])
              × (state ≡ past_state node plain t₀ t₁)
              × (is_closed state ≡ ltb t₀ t₁))
    read_user_state-remove_alias_conn t₁ t r e p q fits fits' early =
        let stay =
          read_user_state-stay c laws business a node plain t₀ t₁ t r e p q fits fits' early in
        (
          come,
          _,
          (add_alias_conn-Added a conn topics t₀ g v business node).1,
          (empty_again, rw told stay.0, rw told stay.1),
        )
