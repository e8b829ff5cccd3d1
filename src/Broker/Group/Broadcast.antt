-- ===== src/Broker/Group/Broadcast.antt =====
-- broker/group.go: `BroadcastByAlias`, `Broadcast` and `BroadcastByTopic`. Each hands tasks to a
-- pool. A task first finds the hub under the read lock, which is one step; it goes on with the
-- pointer after the lock is gone, which is another: the manager may have changed in between.
use longcom.Base.{ℕ, Bool, List, map, Option, none, some, Text, if◌then◌else◌, nat_eq, text_eq}
use longcom.Base.Dict.{Dict, load}
use longcom.Broker.Hub.{Hub, closed, started, start}
use longcom.Broker.Hub.Delivery.{send_broadcast, send_topic}
use longcom.Broker.Group.{Group, write_hub, inner_map}

-- The branches of the `select` of a task.
pub data Choice : Type 0 where
  by_context by_exit by_send : Choice

-- How a task goes on: it stops with a new manager, or it blocks on the full channel.
pub data Outcome : Type 0 where
  ends : Group → Outcome
  waits : Outcome

-- The hub of the alias, found under the read lock.
unfoldable pub find_hub : Text → Group → Option ℕ
find_hub alias g = load alias g.alias_hub

-- `if !h.started() { h.start() }`
unfoldable pub start_hub : Hub → Hub
unfolding started start
start_hub h = if started h then h else (start h).0

abbrev sent_by : Option Hub → ℕ → Group → Outcome
sent_by none p g = waits
sent_by (some h) p g = ends (write_hub p h g)

-- The rest of a task with the pointer `p`, for either channel: `send` puts the request in.
-- A branch that is not ready is not chosen, and blocks.
unfoldable pub push_to_hub :
    (Hub → Option Hub) → (context_done : Bool) → Choice → ℕ → Group → Outcome
unfolding closed start_hub write_hub
push_to_hub send context_done choice p g =
    if closed (g.hub_at p)
    then ends g
    else let g' = write_hub p (start_hub (g.hub_at p)) g in
      elim choice [
        | by_context ↦ if context_done then ends g' else waits
        | by_exit ↦ if closed (g'.hub_at p) then ends g' else waits
        | by_send ↦ sent_by (send (g'.hub_at p)) p g'
      ]

-- The task of `BroadcastByAlias`.
unfoldable pub broadcast_by_alias : Text → Bool → Choice → Option ℕ → Group → Outcome
unfolding push_to_hub send_broadcast
broadcast_by_alias request context_done choice none g = ends g
broadcast_by_alias request context_done choice (some p) g =
    push_to_hub (send_broadcast request) context_done choice p g

-- The tasks of `BroadcastByTopic`: an alias with its subscription time for each entry of the map.
unfoldable pub topic_tasks : Text → Group → Dict Text ℕ
topic_tasks topic g = inner_map (load topic g.topic_alias_info)

unfoldable pub broadcast_by_topic : Text → Text → ℕ → Bool → Choice → Option ℕ → Group → Outcome
unfolding push_to_hub send_topic
broadcast_by_topic topic request subscribe_ts context_done choice none g = ends g
broadcast_by_topic topic request subscribe_ts context_done choice (some p) g =
    push_to_hub
      (send_topic (record { request = request; subscribe_ts = subscribe_ts; topic_name = topic }))
      context_done choice p g

-- The tasks of `Broadcast`: the connections that get the request.
unfoldable pub broadcast_tasks : Group → List ℕ
broadcast_tasks g = map (λ (e : Text × ℕ). e.1) g.all_conns
