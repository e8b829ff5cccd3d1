-- ===== src/Broker/Group/Reach.antt =====
-- broker/group.go: whom the pushes reach.
use longcom.Base.{
  ℕ, ◌<◌, ◌≡◌, Bool, true, false, inl, inr, List, [], ◌∷◌, ◌++◌, some, arith, Text, length,
  contains, ◌≢◌, nat_eq, text_eq, Option-cases, subst,
}
use longcom.Base.Dict.{load, is_some}
use longcom.Base.Run.{ok}
use longcom.Logic.Calls.{StateCall}
use longcom.Broker.Hub.{Hub, channel_size}
use longcom.Broker.Group.{Group, write_hub, add_alias_conn}
use longcom.Broker.Group.View.{hub_of, members, subscribed, info_of}
use longcom.Broker.Group.Coherence.{IsCoherent}
use longcom.Broker.Group.Connections.{add_alias_conn-Added}
use longcom.Broker.Group.Broadcast.{
  Choice, by_send, ends, find_hub, start_hub, broadcast_by_alias, topic_tasks, broadcast_by_topic,
}

-- `BroadcastByTopic` on a coherent manager makes a task for an alias exactly if the hub of the
-- alias has the topic.
pub topic_tasks-subscribed :
    (g : Group) (a t : Text) → IsCoherent g → is_some (load a (topic_tasks t g)) ≡ subscribed g a t
unfolding topic_tasks info_of
topic_tasks-subscribed g a t v = v.listed a t

-- A task keeps the name, the connections, the topics and the exit of the hub that it writes to.
start_hub-keeps : (h : Hub) → (start_hub h ≡ record h { running = true })
unfolding start_hub
start_hub-keeps h = ground arith

-- A task of `BroadcastByAlias` that goes on with the hub found earlier, on a coherent manager: if
-- it ends, then it has changed the hub of no alias but the one the hub is named for.
pub broadcast_by_alias_isolated :
    (g g' : Group) (request : Text) (context_done : Bool) (choice : Choice) (p : ℕ) (b : Text)
    → IsCoherent g
    → (g.hub_at p).name ≢ b
    → broadcast_by_alias request context_done choice (some p) g ≡ ends g'
    → hub_of g' b ≡ hub_of g b
unfolding broadcast_by_alias write_hub hub_of
broadcast_by_alias_isolated g g' request cd choice p b v other e =
    elim (Option-cases (load b g.alias_hub)) [
      | inl n ↦ ground (arith, n)
      | inr (q, s) ↦ ground (arith, s, v.live b q s)
    ]

-- The task of `BroadcastByAlias` for a connected alias of a coherent manager, run at once with room
-- in the channel: the request is the last in the channel of that hub, whose goroutine runs.
pub broadcast_by_alias-reaches :
    (g : Group) (a request : Text) (h : Hub)
    → IsCoherent g
    → hub_of g a ≡ some h
    → length h.broadcast < channel_size
    → (g' : Group) × (broadcast_by_alias request false by_send (find_hub a g) g ≡ ends g')
      × (hub_of g' a ≡ some (record h { running = true; broadcast = h.broadcast ++ request ∷ [] }))
unfolding broadcast_by_alias find_hub write_hub hub_of
broadcast_by_alias-reaches g a request h v e room = elim (Option-cases (load a g.alias_hub)) [
  | inl n ↦ absurd (ground (arith, n))
  | inr (p, s) ↦
      let full = record h { running = true; broadcast = h.broadcast ++ request ∷ [] } in
      (
        write_hub p full (write_hub p (record h { running = true }) g),
        ground (arith, s, v.live a p s),
        ground (arith, s),
      )
]

-- A connection that joins a coherent manager with a topic gets the pushes of that topic: when
-- `addAliasConn` has returned, the topic has a task for the alias with the time of the call, and
-- that task, run at once with room in the channel, leaves the request last in the channel of a
-- running hub that holds the connection.
pub add_alias_conn-topic_push :
    (business node_id a : Text) (c : ℕ) (ts : List Text) (now : ℕ) (t request : Text) (g g' : Group)
    (calls : List StateCall) (h : Hub)
    → IsCoherent g
    → add_alias_conn business node_id a c ts now g ≡ ok (g', calls)
    → contains ts t ≡ true
    → hub_of g' a ≡ some h
    → length h.topic_push < channel_size
    → (load a (topic_tasks t g') ≡ some now)
      × (contains h.conns c ≡ true)
      × (g'' : Group) × (broadcast_by_topic t request now false by_send (find_hub a g') g'
          ≡ ends g'')
      × (hub_of g'' a
          ≡ some (record h {
            running = true;
            topic_push =
                h.topic_push
                ++ record { request = request; subscribe_ts = now; topic_name = t } ∷ [];
          }))
unfolding broadcast_by_topic find_hub write_hub hub_of topic_tasks info_of members
add_alias_conn-topic_push business node_id a c ts now t request g g' calls h v e asked at room =
    let (k, returned, s) = add_alias_conn-Added a c ts now g v business node_id in
    let same : k ≡ g' = cc in
    let w : IsCoherent g' = subst IsCoherent same s.coherent in
    elim (Option-cases (load a g'.alias_hub)) [
      | inl n ↦ absurd (ground (arith, n))
      | inr (p, q) ↦
          let full = record h {
            running = true;
            topic_push =
                h.topic_push
                ++ record { request = request; subscribe_ts = now; topic_name = t } ∷ [];
          } in
          (
            ground (arith, same, s.dates a t, text_eq.beq_iff a a),
            ground (arith, same, q, s.joins a c, text_eq.beq_iff a a),
            write_hub p full (write_hub p (record h { running = true }) g'),
            ground (arith, q, w.live a p q),
            ground (arith, q),
          )
    ]
