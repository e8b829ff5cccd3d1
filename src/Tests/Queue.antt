-- ===== src/Tests/Queue.antt =====
-- The queue with messages for the topic of the connection of Tests/Servers.
use longcom.Base.{
  ◌≡◌, ◌≢◌, ◌↔◌, refl, true, false, List, [], ◌∷◌, Option, none, some, Text, bytes, arith, contains,
  text_beq, text_eq, if◌then◌else◌, ◌==◌, ◌&&◌,
}
use longcom.Base.Utf8.{is_utf8, valid_after}
use longcom.Errors.{other}
use longcom.Broker.Push.{PushMessage, push_by_topic_message_handler}
use longcom.Mq.Client.{KafkaConsumerConfig, KafkaProducerConfig, Sarama}
use longcom.Mq.Config.{
  KafkaMessageQueueConfig, KafkaMessageQueue, TopicNames, default_topic_names,
  new_kafka_message_queue,
}
use longcom.Mq.Clients.{groups, new_kafka_message_queue-disjoint}
use longcom.Mq.Producer.{
  ProducerMessage, Answer, delivered, failed, send_bytes_msg, send_message_by_topic,
}
use longcom.Mq.Consumer.{ConsumerMessage, Claim, consume_strictly, consume_by_topic, consume_claim}
use longcom.Mq.Consuming.{after_pushes, readable, readable_offsets, consume_claim-strictly}
use longcom.Mq.Delivery.{
  ReadsBack, Attempts, WasDelivered, Pushes, topic_push, send_bytes_msg-Attempts,
  send_message_by_topic-Pushes,
}
use longcom.Tests.{app, news, hello, ann_session}
use longcom.Tests.Servers.{authed, authed-IsSound, authed-IsRegistered}

abbrev consumer_config : KafkaConsumerConfig
consumer_config = record {
  user = [];
  password = [];
  client_id = [];
  group_id = [];
  broker_addr = bytes "kafka:9092";
  assignor = bytes "Sticky";
  sasl_enable = false;
  topic = [];
  clients = 0;
}

abbrev producer_config : KafkaProducerConfig
producer_config = record {
  user = [];
  password = [];
  client_id = [];
  broker_addr = bytes "kafka:9092";
  partitioner = bytes "Hash";
  max_retry = 3;
  keep_alive = 1000;
  sasl_enable = false;
  topic = [];
}

abbrev config : KafkaMessageQueueConfig
config = record {
  alias_consumer = consumer_config;
  all_consumer = consumer_config;
  topic_consumer = consumer_config;
  alias_producer = producer_config;
  all_producer = producer_config;
  topic_producer = producer_config;
}

abbrev takes_all : Sarama
takes_all = record { consumer_accepted = λ c. true; producer_accepted = λ p. true }

abbrev Made : Text → Type 0
Made node_id =
    (named : TopicNames) × (q : KafkaMessageQueue) × (new_kafka_message_queue takes_all config
        node_id default_topic_names
      ≡ some (named, q))

unfoldable made : (node_id : Text) → Made node_id
unfolding new_kafka_message_queue
made node_id = (_, _, refl)

nodes_differ : bytes "a" ≢ bytes "b"
nodes_differ e = ground (arith, e)

new_kafka_message_queue-disjoint_example :
    contains (groups (made (bytes "b")).1) (bytes "all_a") ≡ false
unfolding made groups contains text_beq new_kafka_message_queue
new_kafka_message_queue-disjoint_example =
    new_kafka_message_queue-disjoint takes_all takes_all config config (bytes "a") (bytes "b")
      (bytes "all_a") default_topic_names (made (bytes "a")).0 default_topic_names
      (made (bytes "b")).0 (made (bytes "a")).1 (made (bytes "b")).1 nodes_differ
      (made (bytes "a")).2 (made (bytes "b")).2 refl

-- The text of a message for the one topic of the one business is what it says.
abbrev marshal : PushMessage → Option Text
marshal m =
    if m.app_name == app && (m.topic == news && m.user_id == []) then some m.message else none

abbrev unmarshal : Text → Option PushMessage
unmarshal text =
    if text == []
    then none
    else some (record { app_name = app; topic = news; user_id = []; message = text })

abbrev marshal_some : PushMessage → Option Text
marshal_some m = if m.message == [] then none else marshal m

-- The first attempt of all fails.
abbrev second_time : List ProducerMessage → Answer
second_time (m ∷ []) = failed (other (bytes "no leader"))
second_time sent = delivered

marshal-unmarshal : ReadsBack marshal_some second_time unmarshal
marshal-unmarshal m t app_utf8 topic_utf8 user_utf8 e = ground (
  arith,
  e,
  text_eq.beq_iff m.message [],
  text_eq.beq_iff m.app_name app,
  text_eq.beq_iff m.topic news,
  text_eq.beq_iff m.user_id [],
)

send_bytes_msg-Attempts_example :
    let (sent, e) = send_bytes_msg marshal_some second_time news app hello [] in
    Attempts marshal_some second_time news app hello [] sent
    × ((e ≡ none) ↔ (second_time sent ≡ delivered))
send_bytes_msg-Attempts_example = send_bytes_msg-Attempts marshal_some second_time news app hello []

abbrev claim : Claim
claim = record { node = record { server = authed; tasks = [] }; marked = [] }

abbrev two_messages : List ConsumerMessage
two_messages = record { offset = 4; value = [] } ∷ record { offset = 5; value = hello } ∷ []

consume_claim-strictly_example :
    consume_claim (consume_strictly unmarshal push_by_topic_message_handler) two_messages claim
    ≡ record {
      node =
          after_pushes push_by_topic_message_handler (readable unmarshal two_messages) claim.node;
      marked = readable_offsets unmarshal two_messages;
    }
consume_claim-strictly_example =
    consume_claim-strictly unmarshal push_by_topic_message_handler two_messages claim

app_there : app ≢ []
app_there e = ground arith

news_there : news ≢ []
news_there e = ground arith

abbrev both_sent : List ProducerMessage
both_sent =
    record { topic = bytes "push_topic_topic"; key = news; value = hello }
    ∷ record { topic = bytes "push_topic_topic"; key = news; value = hello }
    ∷ []

was_sent :
    send_message_by_topic marshal_some second_time default_topic_names app news hello []
    ≡ (both_sent, none)
unfolding send_message_by_topic text_beq default_topic_names
was_sent = refl

send_message_by_topic-Pushes_example :
    (w : WasDelivered marshal_some second_time
      (bytes "push_topic_topic")
      news
      (topic_push marshal_some second_time unmarshal marshal-unmarshal default_topic_names app news
        hello)
      both_sent)
    × Pushes marshal_some second_time unmarshal marshal-unmarshal default_topic_names news hello
        ann_session.alias authed-IsRegistered.group 7 claim
        (consume_claim
          (consume_by_topic unmarshal)
          (record { offset = 7; value = w.value } ∷ [])
          claim)
unfolding ann_session default_topic_names contains text_beq is_utf8 valid_after
send_message_by_topic-Pushes_example =
    send_message_by_topic-Pushes marshal_some second_time unmarshal marshal-unmarshal
      default_topic_names app news hello [] both_sent ann_session 0 (news ∷ []) 7 claim was_sent
      authed-IsSound authed-IsRegistered refl app_there news_there refl refl refl
