-- ===== src/Mq/Config.antt =====
-- repo/mq/kafka/messageQueue.go: how the clients of the queue are made for a node.
use longcom.Base.{ℕ, List, [], ◌++◌, Option, some, Text, bytes, if◌then◌else◌, ◌==◌, text_eq}
use longcom.Base.Optional.{◌>>=◌}
use longcom.Mq.Client.{
  KafkaConsumerConfig, KafkaProducerConfig, KafkaConsumer, KafkaProducer, Sarama,
  new_kafka_consumers, new_kafka_producer,
}

pub record KafkaMessageQueueConfig : Type 0 where
  pub alias_consumer : KafkaConsumerConfig
  pub all_consumer : KafkaConsumerConfig
  pub topic_consumer : KafkaConsumerConfig
  pub alias_producer : KafkaProducerConfig
  pub all_producer : KafkaProducerConfig
  pub topic_producer : KafkaProducerConfig

pub record KafkaMessageQueue : Type 0 where
  pub alias_consumers : List KafkaConsumer
  pub all_consumers : List KafkaConsumer
  pub topic_consumers : List KafkaConsumer
  pub alias_producer : KafkaProducer
  pub all_producer : KafkaProducer
  pub topic_producer : KafkaProducer

-- The three variables with the names of the topics.
pub record TopicNames : Type 0 where
  pub push_by_alias : Text
  pub push_all : Text
  pub push_by_topic : Text

unfoldable pub default_topic_names : TopicNames
default_topic_names = record {
  push_by_alias = bytes "push_alias_topic";
  push_all = bytes "push_all_topic";
  push_by_topic = bytes "push_topic_topic";
}

-- A name that is configured replaces the one of the variable.
unfoldable pub topic_name : KafkaConsumerConfig → Text → Text
topic_name cfg name = if cfg.topic == [] then name else cfg.topic

-- The node gets a group of its own, so that every node reads every message of the topic.
unfoldable pub consumer_for :
    (kind node_id : Text) (clients : ℕ) → KafkaConsumerConfig → KafkaConsumerConfig
consumer_for kind node_id clients cfg = record cfg {
  client_id = kind ++ node_id;
  group_id = kind ++ node_id;
  clients = clients;
}

unfoldable pub producer_for : (node_id topic : Text) → KafkaProducerConfig → KafkaProducerConfig
producer_for node_id topic cfg = record cfg { client_id = node_id; topic = topic }

unfoldable pub topic_names : KafkaMessageQueueConfig → TopicNames → TopicNames
unfolding topic_name
topic_names cfg names = record {
  push_by_alias = topic_name cfg.alias_consumer names.push_by_alias;
  push_all = topic_name cfg.all_consumer names.push_all;
  push_by_topic = topic_name cfg.topic_consumer names.push_by_topic;
}

-- The clients in the order in which they are made, up to the first error.
unfoldable pub assemble :
    TopicNames
    → (by_alias all by_topic : Option (List KafkaConsumer))
    → (alias_out topic_out all_out : Option KafkaProducer) → Option (TopicNames × KafkaMessageQueue)
assemble named by_alias all by_topic alias_out topic_out all_out = do
  a ← by_alias
  b ← all
  c ← by_topic
  d ← alias_out
  e ← topic_out
  f ← all_out
  some (
    named,
    record {
      alias_consumers = a;
      all_consumers = b;
      topic_consumers = c;
      alias_producer = d;
      all_producer = f;
      topic_producer = e;
    },
  )

-- `NewKafkaMessageQueue` with the names that it leaves in the variables when it makes the queue;
-- `none` for an error of a client.
unfoldable pub new_kafka_message_queue :
    Sarama
    → KafkaMessageQueueConfig
    → (node_id : Text) → TopicNames
    → Option (TopicNames × KafkaMessageQueue)
unfolding new_kafka_consumers new_kafka_producer consumer_for producer_for topic_names assemble
new_kafka_message_queue sarama cfg node_id names =
    let named = topic_names cfg names in
    assemble named
      (new_kafka_consumers sarama (consumer_for (bytes "alias_") node_id 3 cfg.alias_consumer))
      (new_kafka_consumers sarama (consumer_for (bytes "all_") node_id 1 cfg.all_consumer))
      (new_kafka_consumers sarama (consumer_for (bytes "topic_") node_id 1 cfg.topic_consumer))
      (new_kafka_producer sarama (producer_for node_id named.push_by_alias cfg.alias_producer))
      (new_kafka_producer sarama (producer_for node_id named.push_by_topic cfg.topic_producer))
      (new_kafka_producer sarama (producer_for node_id named.push_all cfg.all_producer))
