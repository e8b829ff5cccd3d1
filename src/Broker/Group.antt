-- ===== src/Broker/Group.antt =====
-- broker/group.go: the group manager of one business. A hub is a pointer: `hub_at` is the heap of
-- the hubs that the manager made, and the maps hold addresses. No topic is ever dropped from
-- `topic_alias_info`, so its inner maps are kept by value. The two mutexes make each function
-- below one step, but for `subscribe_impl` with a lock of its own, whose two halves are apart.
pub mod View
pub mod Reach
pub mod Broadcast
pub mod Races
pub mod Presence
pub mod Connections
pub mod Subscriptions
pub mod Coherence
use longcom.Base.Decimal.{format_int}
use longcom.Base.{
  ℕ, ◌+◌, Bool, true, false, List, [], ◌∷◌, Option, none, some, Text, bytes, length, ltb,
  if◌then◌else◌, ◌==◌, nat_eq, text_eq,
}
use longcom.Base.Dict.{Dict, load, store, delete}
use longcom.Base.Run.{Run, ok, ◌>>=◌}
use longcom.Logic.Calls.{StateCall, set_user_state, expire_user_state, user_state_field}
use longcom.Broker.Hub.{
  Hub, alias_hub_type, new_hub, register, unregister, close, closed, len, subscribe, unsubscribe,
  topics,
}

pub record Group : Type 0 where
  pub business_name : Text
  pub all_conns : Dict Text ℕ
  pub alias_hub : Dict Text ℕ
  pub hub_at : ℕ → Hub
  pub next_hub : ℕ
  pub topic_alias_info : Dict Text (Dict Text ℕ)
  pub report_started : Bool

-- The pools that `newGroupManager` makes run the pushes; making them is taken to succeed.
unfoldable pub new_group_manager : Text → Group
unfolding new_hub
new_group_manager business_name = record {
  business_name = business_name;
  all_conns = [];
  alias_hub = [];
  hub_at = λ p. new_hub [] alias_hub_type;
  next_hub = 0;
  topic_alias_info = [];
  report_started = false;
}

-- The flag tells whether this call started the ticker: the sync.Once runs it once.
unfoldable pub start_report : Group → Group × Bool
start_report g = if g.report_started then (g, false) else (record g { report_started = true }, true)

unfoldable pub get_alias_conn_count : Group → ℕ
get_alias_conn_count g = length g.alias_hub

unfoldable pub add_conn : Text → ℕ → Group → Group
add_conn connection_id conn g = record g { all_conns = store connection_id conn g.all_conns }

unfoldable pub remove_conn : Text → Group → Group
remove_conn connection_id g = record g { all_conns = delete connection_id g.all_conns }

-- A write through the pointer `p`.
unfoldable pub write_hub : ℕ → Hub → Group → Group
write_hub p h g = record g { hub_at = λ q. if p == q then h else g.hub_at q }

abbrev pub inner_map : Option (Dict Text ℕ) → Dict Text ℕ
inner_map none = []
inner_map (some m) = m

-- The loop of `doWithTopicAliasInfo` that subscribes: `LoadOrStore`, then `Store`.
unfoldable pub store_info : Text → ℕ → List Text → Dict Text (Dict Text ℕ) → Dict Text (Dict Text ℕ)
store_info alias now [] m = m
store_info alias now (t ∷ ts) m =
    store_info alias now ts (store t (store alias now (inner_map (load t m))) m)

-- The loop that unsubscribes, which is also the one of `removeAliasConn`.
unfoldable pub delete_info : Text → List Text → Dict Text (Dict Text ℕ) → Dict Text (Dict Text ℕ)
delete_info alias [] m = m
delete_info alias (t ∷ ts) m =
    delete_info alias ts
      (elim (load t m) [ none ↦ m | some aliases ↦ store t (delete alias aliases) m ])

-- The hub is returned by its address, `none` where `exist` is false.
unfoldable pub do_with_topic_alias_info : Text → List Text → Bool → ℕ → Group → Group × Option ℕ
unfolding closed store_info delete_info
do_with_topic_alias_info alias topic_list is_subscribe now g = elim (load alias g.alias_hub) [
  | none ↦ (g, none)
  | some p ↦ (
    if closed (g.hub_at p)
        then g
        else if is_subscribe
        then record g { topic_alias_info = store_info alias now topic_list g.topic_alias_info }
        else record g { topic_alias_info = delete_info alias topic_list g.topic_alias_info },
    some p,
  )
]

-- What `subscribeImpl` does with the hub that it got.
unfoldable pub subscribe_hub : ℕ → List Text → Bool → Group → Run Group
unfolding closed subscribe unsubscribe write_hub
subscribe_hub p topic_list is_subscribe g =
    if closed (g.hub_at p)
    then ok g
    else if is_subscribe
    then (subscribe topic_list (g.hub_at p) >>= λ h. ok (write_hub p h g))
    else ok (write_hub p (unsubscribe topic_list (g.hub_at p)) g)

abbrev pub then_subscribe_hub : List Text → Bool → Group × Option ℕ → Run Group
then_subscribe_hub topic_list is_subscribe (g, none) = ok g
then_subscribe_hub topic_list is_subscribe (g, some p) = subscribe_hub p topic_list is_subscribe g

-- Both halves with nothing in between, as under the lock that `addAliasConn` holds.
unfoldable pub subscribe_impl : Text → List Text → Bool → ℕ → Group → Run Group
unfolding do_with_topic_alias_info subscribe_hub
subscribe_impl alias topic_list is_subscribe now g =
    then_subscribe_hub topic_list is_subscribe
      (do_with_topic_alias_info alias topic_list is_subscribe now g)

unfoldable pub subscribe_alias : Text → List Text → ℕ → Group → Run Group
unfolding subscribe_impl
subscribe_alias alias topic_list now = subscribe_impl alias topic_list true now

unfoldable pub unsubscribe_alias : Text → List Text → ℕ → Group → Run Group
unfolding subscribe_impl
unsubscribe_alias alias topic_list now = subscribe_impl alias topic_list false now

-- The hub of the alias, made if there is none.
unfoldable pub ensure_hub : Text → Group → ℕ × Group
unfolding new_hub write_hub
ensure_hub alias g = elim (load alias g.alias_hub) [
  | some p ↦ (p, g)
  | none ↦ (
    g.next_hub,
    write_hub g.next_hub (new_hub alias alias_hub_type)
        (record g { alias_hub = store alias g.next_hub g.alias_hub; next_hub = g.next_hub + 1 }),
  )
]

unfoldable pub register_at : ℕ → ℕ × Group → Group
unfolding register write_hub
register_at conn (p, g) = write_hub p (register conn (g.hub_at p)) g

-- A failure of redis is only logged.
unfoldable pub add_alias_conn :
    (business node_id alias : Text) (conn : ℕ) (topic_list : List Text) (now : ℕ)
    → Group
    → Run (Group × List StateCall)
unfolding ensure_hub register_at subscribe_impl
add_alias_conn business node_id alias conn topic_list now g = do
  let g₁ = register_at conn (ensure_hub alias g)
  g₂ ← if ltb 0 (length topic_list) then subscribe_impl alias topic_list true now g₁ else ok g₁
  let field = user_state_field node_id (bytes "connect")
  ok (g₂, set_user_state business [] alias field (format_int now) ∷ [])

-- The hub at `p` after its last connection: closed, out of both maps, its topic set nil.
unfoldable pub drop_hub : Text → ℕ → Hub → Group → Group
unfolding close write_hub delete_info
drop_hub alias p h g =
    write_hub p (record (close h) { topic_set = none })
      (record g {
        alias_hub = delete alias g.alias_hub;
        topic_alias_info = delete_info alias (topics h) g.topic_alias_info;
      })

unfoldable pub remove_alias_conn :
    (business node_id alias : Text) (conn : ℕ) → Group → Group × List StateCall
unfolding unregister len write_hub drop_hub
remove_alias_conn business node_id alias conn g = elim (load alias g.alias_hub) [
  | none ↦ (g, [])
  | some p ↦
      let h = unregister conn (g.hub_at p) in
      if len h == 0
      then (drop_hub alias p h g, expire_user_state business [] alias node_id ∷ [])
      else (write_hub p h g, [])
]

-- The connections of the alias, as their addresses; their number is the length.
unfoldable pub get_alias_connect_info : Text → Group → List ℕ
unfolding closed
get_alias_connect_info alias g = elim (load alias g.alias_hub) [
  | none ↦ []
  | some p ↦ if closed (g.hub_at p) then [] else (g.hub_at p).conns
]
