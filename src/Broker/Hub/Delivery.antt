-- ===== src/Broker/Hub/Delivery.antt =====
-- broker/hub.go: the goroutine `run`, and the sends into the hub's two channels by
-- `BroadcastByAlias` and `BroadcastByTopic` of broker/group.go. A `select` takes any branch that is
-- ready: the branch is an argument, and a branch that is not ready does nothing.
use longcom.Base.{
  ℕ, ◌≡◌, refl, ◌&&◌, List, [], ◌∷◌, ◌++◌, map, Option, none, some, arith, Text, length, contains,
  ltb, leb, if◌then◌else◌, nat_eq,
}
use longcom.Broker.Hub.{Hub, TopicRequest, channel_size}

pub data Branch : Type 0 where
  on_broadcast on_topic_push on_exit : Branch

-- What one round of `run` does: it blocks, or hands requests to connections, or returns.
pub data Round : Type 0 where
  blocks : Round
  delivers : Hub → List (ℕ × Text) → Round
  returns : Round

unfoldable pub broadcast_sends : Text → List ℕ → List (ℕ × Text)
broadcast_sends request [] = []
broadcast_sends request (c ∷ cs) = (c, request) ∷ broadcast_sends request cs

-- A connection that is younger than the subscription is passed over.
unfoldable pub topic_sends : (ℕ → ℕ) → TopicRequest → List ℕ → List (ℕ × Text)
topic_sends connect_time r [] = []
topic_sends connect_time r (c ∷ cs) =
    let rest = topic_sends connect_time r cs in
    if ltb r.subscribe_ts (connect_time c) then rest else (c, r.request) ∷ rest

-- One round of the loop of `run`. That a send fails is only logged.
unfoldable pub run_round : (ℕ → ℕ) → Branch → Hub → Round
unfolding broadcast_sends topic_sends
run_round connect_time on_broadcast h = elim h.broadcast [
  | [] ↦ blocks
  | request ∷ rest ↦ delivers (record h { broadcast = rest }) (broadcast_sends request h.conns)
]
run_round connect_time on_topic_push h = elim h.topic_push [
  | [] ↦ blocks
  | r ∷ rest ↦ delivers (record h { topic_push = rest }) (topic_sends connect_time r h.conns)
]
run_round connect_time on_exit h = if h.exit_closed then returns else blocks

-- `case h.broadcast <- requestBytes`: `none` while the buffer is full.
unfoldable pub send_broadcast : Text → Hub → Option Hub
send_broadcast request h =
    if ltb (length h.broadcast) channel_size
    then some (record h { broadcast = h.broadcast ++ request ∷ [] })
    else none

unfoldable pub send_topic : TopicRequest → Hub → Option Hub
send_topic r h =
    if ltb (length h.topic_push) channel_size
    then some (record h { topic_push = h.topic_push ++ r ∷ [] })
    else none

-- The connections that get something.
abbrev pub receivers : List (ℕ × Text) → List ℕ
receivers sends = map (λ (s : ℕ × Text). s.0) sends

receivers-broadcast_sends :
    (request : Text) (cs : List ℕ) → receivers (broadcast_sends request cs) ≡ cs
unfolding broadcast_sends
receivers-broadcast_sends request [] = refl
receivers-broadcast_sends request (c ∷ cs) = rw (receivers-broadcast_sends request cs)

contains-receivers_topic :
    (ct : ℕ → ℕ) (r : TopicRequest) (cs : List ℕ) (c : ℕ)
    → contains (receivers (topic_sends ct r cs)) c ≡ (leb (ct c) r.subscribe_ts && contains cs c)
unfolding topic_sends contains
contains-receivers_topic ct r [] c = ground arith
contains-receivers_topic ct r (d ∷ cs) c = ground (arith, contains-receivers_topic ct r cs c)

-- A round of `run` that takes a topic push removes it from the channel, and hands its request to a
-- connection exactly if the hub holds the connection and it was made no later than the
-- subscription.
pub run_round-topic :
    (ct : ℕ → ℕ) (h : Hub) (r : TopicRequest) (rest : List TopicRequest) (c : ℕ)
    → h.topic_push ≡ r ∷ rest
    → (sends : List (ℕ × Text)) × (run_round ct on_topic_push h
        ≡ delivers (record h { topic_push = rest }) sends)
      × (contains (receivers sends) c ≡ (leb (ct c) r.subscribe_ts && contains h.conns c))
unfolding run_round
run_round-topic ct h r rest c e =
    (topic_sends ct r h.conns, ground (arith, e), contains-receivers_topic ct r h.conns c)

-- A round of `run` that takes a broadcast removes it from the channel, and hands it once to each
-- connection of the hub.
pub run_round-broadcast :
    (ct : ℕ → ℕ) (h : Hub) (request : Text) (rest : List Text)
    → h.broadcast ≡ request ∷ rest
    → (sends : List (ℕ × Text)) × (run_round ct on_broadcast h
        ≡ delivers (record h { broadcast = rest }) sends)
      × (receivers sends ≡ h.conns)
unfolding run_round
run_round-broadcast ct h request rest e =
    (broadcast_sends request h.conns, ground (arith, e), receivers-broadcast_sends request h.conns)
