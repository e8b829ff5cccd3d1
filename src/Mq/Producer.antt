-- ===== src/Mq/Producer.antt =====
-- repo/mq/kafka/producer.go, and the producers of messageQueue.go. What the cluster answers to a
-- message depends on all that were handed to sarama so far, this one last.
use longcom.Base.{List, [], ◌∷◌, ◌++◌, Option, none, some, Text, bytes}
use longcom.Errors.{Error, other}
use longcom.Broker.Push.{PushMessage}
use longcom.Mq.Config.{TopicNames}

-- `sarama.ProducerMessage`
pub record ProducerMessage : Type 0 where
  pub topic : Text
  pub key : Text
  pub value : Text

pub data Answer : Type 0 where
  delivered : Answer
  failed : Error → Answer
  panics : Answer

abbrev pub panic_error : Error
panic_error = other (bytes "panic")

-- `Marshal` of the JSON library is the first parameter.
module _ (marshal : PushMessage → Option Text) (answer : List ProducerMessage → Answer) where
  abbrev pub outcome : Answer → Option Error
  outcome delivered = none
  outcome (failed e) = some e
  outcome panics = some panic_error

  -- The second and last attempt is for an error, not for a panic.
  abbrev pub after_first :
      ProducerMessage → List ProducerMessage → Answer → List ProducerMessage × Option Error
  after_first m sent (failed e) = let again = sent ++ m ∷ [] in (again, outcome (answer again))
  after_first m sent delivered = (sent, none)
  after_first m sent panics = (sent, some panic_error)

  unfoldable pub send_twice :
      ProducerMessage → List ProducerMessage → List ProducerMessage × Option Error
  send_twice m sent = let once = sent ++ m ∷ [] in after_first m once (answer once)

  -- The two differ in the encoder of the value.
  unfoldable pub send_msg :
      (topic key msg : Text) → List ProducerMessage → List ProducerMessage × Option Error
  unfolding send_twice
  send_msg topic key msg sent = send_twice (record { topic = topic; key = key; value = msg }) sent

  unfoldable pub send_bytes_msg :
      (topic key msg : Text) → List ProducerMessage → List ProducerMessage × Option Error
  unfolding send_twice
  send_bytes_msg topic key msg sent =
      send_twice (record { topic = topic; key = key; value = msg }) sent

  abbrev marshal_error : Error
  marshal_error = other (bytes "marshal")

  unfoldable pub produce :
      (topic key : Text) → PushMessage → List ProducerMessage → List ProducerMessage × Option Error
  unfolding send_bytes_msg
  produce topic key m sent = elim (marshal m) [
    | none ↦ (sent, some marshal_error)
    | some text ↦ send_bytes_msg topic key text sent
  ]

  -- All three go through the producer of the alias topic.
  module _ (names : TopicNames) where
    unfoldable pub push_by_alias_message_producer :
        (key : Text) → PushMessage → List ProducerMessage → List ProducerMessage × Option Error
    unfolding produce
    push_by_alias_message_producer key m sent = produce names.push_by_alias key m sent

    unfoldable pub push_by_topic_message_producer :
        (key : Text) → PushMessage → List ProducerMessage → List ProducerMessage × Option Error
    unfolding produce
    push_by_topic_message_producer key m sent = produce names.push_by_topic key m sent

    unfoldable pub push_all_message_producer :
        (key : Text) → PushMessage → List ProducerMessage → List ProducerMessage × Option Error
    unfolding produce
    push_all_message_producer key m sent = produce names.push_all key m sent

    -- broker/trpc_handler.go: `SendMessageByUser` and `SendMessageByTopic`.
    unfoldable pub send_message_by_user :
        (app_name topic user_id message : Text)
        → List ProducerMessage
        → List ProducerMessage × Option Error
    unfolding push_by_alias_message_producer
    send_message_by_user app_name topic user_id message =
        push_by_alias_message_producer user_id
          (record { app_name = app_name; topic = topic; user_id = user_id; message = message })

    unfoldable pub send_message_by_topic :
        (app_name topic message : Text) → List ProducerMessage → List ProducerMessage × Option Error
    unfolding push_by_topic_message_producer
    send_message_by_topic app_name topic message =
        push_by_topic_message_producer topic
          (record { app_name = app_name; topic = topic; user_id = []; message = message })
