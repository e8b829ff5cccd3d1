-- ===== src/Broker/Hub/History.antt =====
-- broker/hub.go: what may happen to a hub whose goroutine `run` runs, in any order, and what its
-- connections are handed.
use mathlib.Core.List.{append_assoc, append-nil}
use longcom.Base.{
  ℕ, ◌≤◌, ◌≡◌, refl, sym, ap, ◌∙◌, List, [], ◌∷◌, ◌++◌, map, none, some, arith, Text, length,
  length-append, leb, if◌then◌else◌, nat_eq, List-cases, inl, inr,
}
use longcom.Broker.Hub.{Hub, TopicRequest, channel_size, register, unregister, close}
use longcom.Broker.Hub.Delivery.{
  Branch, on_broadcast, on_topic_push, on_exit, Round, delivers, broadcast_sends, topic_sends,
  run_round, send_broadcast, send_topic,
}

-- What may happen to a hub whose goroutine runs, in any order.
pub data HubEvent : Type 0 where
  sends_broadcast : Text → HubEvent
  sends_topic : TopicRequest → HubEvent
  runs : Branch → HubEvent
  registers unregisters : ℕ → HubEvent
  closes : HubEvent

-- A request that left its channel, with the connections that the hub had then.
pub data Taken : Type 0 where
  takes_broadcast : (request : Text) (conns : List ℕ) → Taken
  takes_topic : (r : TopicRequest) (conns : List ℕ) → Taken

-- A history: what went into the channels, which requests left them, and what the rounds of `run`
-- handed out in all.
pub record Played : Type 0 where
  pub hub : Hub
  pub accepted : List Text
  pub accepted_topics : List TopicRequest
  pub taken : List Taken
  pub handed_out : List (ℕ × Text)

taken_by : Branch → Hub → List Taken
taken_by on_broadcast h = elim h.broadcast [ [] ↦ [] | r ∷ rest ↦ takes_broadcast r h.conns ∷ [] ]
taken_by on_topic_push h = elim h.topic_push [ [] ↦ [] | r ∷ rest ↦ takes_topic r h.conns ∷ [] ]
taken_by on_exit h = []

abbrev after_round : Hub → Round → Hub
after_round h (delivers h' sends) = h'
after_round h _ = h

abbrev sends_of : Round → List (ℕ × Text)
sends_of (delivers h sends) = sends
sends_of _ = []

unfoldable pub play : (ℕ → ℕ) → HubEvent → Played → Played
unfolding send_broadcast send_topic run_round register unregister close taken_by
play ct (sends_broadcast r) s = elim (send_broadcast r s.hub) [
  | none ↦ s
  | some h ↦ record s { hub = h; accepted = s.accepted ++ r ∷ [] }
]
play ct (sends_topic r) s = elim (send_topic r s.hub) [
  | none ↦ s
  | some h ↦ record s { hub = h; accepted_topics = s.accepted_topics ++ r ∷ [] }
]
play ct (runs b) s =
    let round = run_round ct b s.hub in
    record s {
      hub = after_round s.hub round;
      taken = s.taken ++ taken_by b s.hub;
      handed_out = s.handed_out ++ sends_of round;
    }
play ct (registers c) s = record s { hub = register c s.hub }
play ct (unregisters c) s = record s { hub = unregister c s.hub }
play ct closes s = record s { hub = close s.hub }

unfoldable pub play_all : (ℕ → ℕ) → List HubEvent → Played → Played
play_all ct [] s = s
play_all ct (e ∷ es) s = play_all ct es (play ct e s)

abbrev pub broadcasts_of : List Taken → List Text
broadcasts_of [] = []
broadcasts_of (takes_broadcast r cs ∷ ts) = r ∷ broadcasts_of ts
broadcasts_of (takes_topic r cs ∷ ts) = broadcasts_of ts

abbrev pub topics_of : List Taken → List TopicRequest
topics_of [] = []
topics_of (takes_broadcast r cs ∷ ts) = topics_of ts
topics_of (takes_topic r cs ∷ ts) = r ∷ topics_of ts

-- The connections that were made at that time or before.
abbrev pub made_by : (ℕ → ℕ) → ℕ → List ℕ → List ℕ
made_by ct ts [] = []
made_by ct ts (c ∷ cs) = if leb (ct c) ts then c ∷ made_by ct ts cs else made_by ct ts cs

abbrev pub each : Text → List ℕ → List (ℕ × Text)
each request cs = map (λ c. (c, request)) cs

-- What `run` owes: a broadcast goes to each connection, a topic push to those that are as old as
-- the subscription.
abbrev pub owed : (ℕ → ℕ) → List Taken → List (ℕ × Text)
owed ct [] = []
owed ct (takes_broadcast r cs ∷ ts) = each r cs ++ owed ct ts
owed ct (takes_topic r cs ∷ ts) = each r.request (made_by ct r.subscribe_ts cs) ++ owed ct ts

pub record IsFifo (ct : ℕ → ℕ) (s : Played) : Type 0 where
  pub broadcasts : s.accepted ≡ broadcasts_of s.taken ++ s.hub.broadcast
  pub pushes : s.accepted_topics ≡ topics_of s.taken ++ s.hub.topic_push
  pub delivered : s.handed_out ≡ owed ct s.taken
  pub broadcast_bounded : length s.hub.broadcast ≤ channel_size
  pub topic_bounded : length s.hub.topic_push ≤ channel_size

broadcasts_of-append :
    (ts us : List Taken) → broadcasts_of (ts ++ us) ≡ broadcasts_of ts ++ broadcasts_of us
broadcasts_of-append [] us = refl
broadcasts_of-append (takes_broadcast r cs ∷ ts) us = ap (◌∷◌ r) (broadcasts_of-append ts us)
broadcasts_of-append (takes_topic r cs ∷ ts) us = broadcasts_of-append ts us

topics_of-append : (ts us : List Taken) → topics_of (ts ++ us) ≡ topics_of ts ++ topics_of us
topics_of-append [] us = refl
topics_of-append (takes_broadcast r cs ∷ ts) us = topics_of-append ts us
topics_of-append (takes_topic r cs ∷ ts) us = ap (◌∷◌ r) (topics_of-append ts us)

owed-append : (ct : ℕ → ℕ) (ts us : List Taken) → owed ct (ts ++ us) ≡ owed ct ts ++ owed ct us
owed-append ct [] us = refl
owed-append ct (takes_broadcast r cs ∷ ts) us =
    ap (◌++◌ (each r cs)) (owed-append ct ts us) ∙ sym (append_assoc (each r cs) _ _)
owed-append ct (takes_topic r cs ∷ ts) us =
    let sent = each r.request (made_by ct r.subscribe_ts cs) in
    ap (◌++◌ sent) (owed-append ct ts us) ∙ sym (append_assoc sent _ _)

broadcast_sends-each : (r : Text) (cs : List ℕ) → broadcast_sends r cs ≡ each r cs
unfolding broadcast_sends
broadcast_sends-each r [] = refl
broadcast_sends-each r (c ∷ cs) = ap (◌∷◌ (c, r)) (broadcast_sends-each r cs)

topic_sends-each :
    (ct : ℕ → ℕ) (r : TopicRequest) (cs : List ℕ)
    → topic_sends ct r cs ≡ each r.request (made_by ct r.subscribe_ts cs)
unfolding topic_sends
topic_sends-each ct r [] = refl
topic_sends-each ct r (c ∷ cs) = ground (arith, topic_sends-each ct r cs)

module _ (ct : ℕ → ℕ) (h : Hub) where
  run_round-broadcasts :
      (b : Branch)
      → h.broadcast ≡ broadcasts_of (taken_by b h) ++ (after_round h (run_round ct b h)).broadcast
  unfolding run_round taken_by
  run_round-broadcasts on_broadcast = elim (List-cases h.broadcast) [
    | inl e ↦ ground (arith, e)
    | inr (r, rest, e) ↦ ground (arith, e)
  ]
  run_round-broadcasts on_topic_push = elim (List-cases h.topic_push) [
    | inl e ↦ ground (arith, e)
    | inr (r, rest, e) ↦ ground (arith, e)
  ]
  run_round-broadcasts on_exit = ground arith

  run_round-pushes :
      (b : Branch)
      → h.topic_push ≡ topics_of (taken_by b h) ++ (after_round h (run_round ct b h)).topic_push
  unfolding run_round taken_by
  run_round-pushes on_broadcast = elim (List-cases h.broadcast) [
    | inl e ↦ ground (arith, e)
    | inr (r, rest, e) ↦ ground (arith, e)
  ]
  run_round-pushes on_topic_push = elim (List-cases h.topic_push) [
    | inl e ↦ ground (arith, e)
    | inr (r, rest, e) ↦ ground (arith, e)
  ]
  run_round-pushes on_exit = ground arith

  run_round-owed : (b : Branch) → sends_of (run_round ct b h) ≡ owed ct (taken_by b h)
  unfolding run_round taken_by
  run_round-owed on_broadcast = elim (List-cases h.broadcast) [
    | inl e ↦ ground (arith, e)
    | inr (r, rest, e) ↦
        ground (arith, e, broadcast_sends-each r h.conns, append-nil (each r h.conns))
  ]
  run_round-owed on_topic_push = elim (List-cases h.topic_push) [
    | inl e ↦ ground (arith, e)
    | inr (r, rest, e) ↦ ground (
      arith,
      e,
      topic_sends-each ct r h.conns,
      append-nil (each r.request (made_by ct r.subscribe_ts h.conns)),
    )
  ]
  run_round-owed on_exit = ground arith

module _ (ct : ℕ → ℕ) (s : Played) (v : IsFifo ct s) where
  runs-IsFifo : (b : Branch) → IsFifo ct (play ct (runs b) s)
  unfolding play
  runs-IsFifo b =
      let t = taken_by b s.hub in
      let h = after_round s.hub (run_round ct b s.hub) in
      let p = run_round-broadcasts ct s.hub b in
      let q = run_round-pushes ct s.hub b in
      record {
        broadcasts = ground (
          arith,
          v,
          p,
          broadcasts_of-append s.taken t,
          append_assoc (broadcasts_of s.taken) (broadcasts_of t) h.broadcast,
        );
        pushes = ground (
          arith,
          v,
          q,
          topics_of-append s.taken t,
          append_assoc (topics_of s.taken) (topics_of t) h.topic_push,
        );
        delivered = ground (arith, v, run_round-owed ct s.hub b, owed-append ct s.taken t);
        broadcast_bounded =
            ground
              (arith, v, ap (length {A = Text}) p, length-append (broadcasts_of t) h.broadcast);
        topic_bounded =
            ground (
              arith,
              v,
              ap (length {A = TopicRequest}) q,
              length-append (topics_of t) h.topic_push,
            );
      }

  play-IsFifo : (e : HubEvent) → IsFifo ct (play ct e s)
  unfolding play
  play-IsFifo (sends_broadcast r) = ground (
    arith,
    v,
    length-append s.hub.broadcast (r ∷ []),
    append_assoc (broadcasts_of s.taken) s.hub.broadcast (r ∷ []),
  )
  play-IsFifo (sends_topic r) = ground (
    arith,
    v,
    length-append s.hub.topic_push (r ∷ []),
    append_assoc (topics_of s.taken) s.hub.topic_push (r ∷ []),
  )
  play-IsFifo (runs b) = runs-IsFifo b
  play-IsFifo (registers c) = ground arith
  play-IsFifo (unregisters c) = ground arith
  play-IsFifo closes = ground arith

-- In every history of a hub that starts so, each of its two channels is emptied in the order in
-- which it was filled, and does not outgrow its buffer; and what the rounds of `run` have handed
-- out in all is, request after request that left a channel, a broadcast to each connection that the
-- hub had then, and a topic push to those of them that were made no later than the subscription.
pub play_all-IsFifo :
    (ct : ℕ → ℕ) (es : List HubEvent) (s : Played) → IsFifo ct s → IsFifo ct (play_all ct es s)
unfolding play_all
play_all-IsFifo ct [] s v = v
play_all-IsFifo ct (e ∷ es) s v = play_all-IsFifo ct es (play ct e s) (play-IsFifo ct s v e)
