-- ===== src/Mq/Consumer.antt =====
-- repo/mq/kafka/consumer.go, and the consumers of messageQueue.go. What the handlers of the broker
-- leave behind is a server and the tasks that they have made, oldest first.
use longcom.Base.{ℕ, suc, Bool, true, false, List, [], ◌∷◌, ◌++◌, Option, none, some, Text, bytes}
use longcom.Errors.{Error, other}
use longcom.Broker.Server.{Server}
use longcom.Broker.Push.{
  PushMessage, PushTask, Pushed, push_by_alias_message_handler, push_all_message_handler,
  push_by_topic_message_handler,
}

-- `sarama.ConsumerMessage`
pub record ConsumerMessage : Type 0 where
  pub offset : ℕ
  pub value : Text

pub record Node : Type 0 where
  pub server : Server
  pub tasks : List PushTask

abbrev pub unmarshal_error : Error
unmarshal_error = other (bytes "unmarshal")

-- The error of the handler is only logged.
unfoldable pub handle_push : (PushMessage → Server → Pushed) → PushMessage → Node → Node
handle_push handler m n =
    let (s, tasks, e) = handler m n.server in record { server = s; tasks = n.tasks ++ tasks }

-- `Unmarshal` of the JSON library is the parameter.
module _ (unmarshal : Text → Option PushMessage) where
  unfoldable pub consume_strictly :
      (PushMessage → Server → Pushed) → ConsumerMessage → Node → Node × Option Error
  unfolding handle_push
  consume_strictly handler message n = elim (unmarshal message.value) [
    | none ↦ (n, some unmarshal_error)
    | some m ↦ (handle_push handler m n, none)
  ]

  -- The handlers that `StartPushByAliasMessageConsumerSync` and the other two pass on. A message of
  -- the alias topic that cannot be read is passed over.
  unfoldable pub consume_by_alias : ConsumerMessage → Node → Node × Option Error
  unfolding handle_push push_by_alias_message_handler
  consume_by_alias message n = elim (unmarshal message.value) [
    | none ↦ (n, none)
    | some m ↦ (handle_push push_by_alias_message_handler m n, none)
  ]

  unfoldable pub consume_all : ConsumerMessage → Node → Node × Option Error
  unfolding consume_strictly push_all_message_handler
  consume_all = consume_strictly push_all_message_handler

  unfoldable pub consume_by_topic : ConsumerMessage → Node → Node × Option Error
  unfolding consume_strictly push_by_topic_message_handler
  consume_by_topic = consume_strictly push_by_topic_message_handler

-- The state of a claim: the node, and the messages that were marked, oldest first.
pub record Claim : Type 0 where
  pub node : Node
  pub marked : List ℕ

abbrev pub mark_unless : Option Error → ConsumerMessage → List ℕ → List ℕ
mark_unless none message marked = marked ++ message.offset ∷ []
mark_unless (some e) message marked = marked

-- `ConsumeClaim`, on the messages that the claim has until it ends.
unfoldable pub consume_claim :
    (ConsumerMessage → Node → Node × Option Error) → List ConsumerMessage → Claim → Claim
consume_claim handler [] c = c
consume_claim handler (message ∷ messages) c =
    let (n, e) = handler message c.node in
    consume_claim handler messages (record { node = n; marked = mark_unless e message c.marked })

-- The loop of `StartConsume`. A round is a call of `Consume`; it may end before sarama has called
-- `Setup`, which closes the channel `ready` of the round. `none` is a channel that is open.
pub record Rounds : Type 0 where
  pub ready : ℕ
  pub closed : List ℕ

unfoldable pub consume_round : (set_up : Bool) → Rounds → Rounds
consume_round true r = record { ready = suc r.ready; closed = r.closed ++ r.ready ∷ [] }
consume_round false r = record { ready = suc r.ready; closed = r.closed }

unfoldable pub consume_rounds : List Bool → Rounds → Rounds
unfolding consume_round
consume_rounds [] r = r
consume_rounds (set_up ∷ rest) r = consume_rounds rest (consume_round set_up r)

unfoldable pub first_round : Rounds
first_round = record { ready = 0; closed = [] }
