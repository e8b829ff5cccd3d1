-- ===== src/Mq/Client.antt =====
-- repo/mq/kafka/consumer.go, producer.go and messageQueue.go: how one or more clients of the queue are made.
-- Whether sarama takes a client is a field of `Sarama`.
use longcom.Base.{
  ℕ, zero, suc, ◌+◌, Bool, true, List, [], ◌∷◌, ◌++◌, Option, none, some, Text, bytes,
  if◌then◌else◌, ◌==◌, text_eq,
}
use longcom.Base.Decimal.{format_int}

pub record KafkaConsumerConfig : Type 0 where
  pub user : Text
  pub password : Text
  pub client_id : Text
  pub group_id : Text
  pub broker_addr : Text
  pub assignor : Text
  pub sasl_enable : Bool
  pub topic : Text
  pub clients : ℕ

pub record KafkaProducerConfig : Type 0 where
  pub user : Text
  pub password : Text
  pub client_id : Text
  pub broker_addr : Text
  pub partitioner : Text
  pub max_retry : ℕ
  pub keep_alive : ℕ
  pub sasl_enable : Bool
  pub topic : Text

pub data BalanceStrategy : Type 0 where
  balance_sticky balance_round_robin balance_range : BalanceStrategy

pub data Partitioner : Type 0 where
  hash_partitioner round_robin_partitioner random_partitioner : Partitioner

unfoldable pub balance_strategy : Text → BalanceStrategy
balance_strategy assignor =
    if assignor == bytes "Sticky"
    then balance_sticky
    else if assignor == bytes "RoundRobin"
    then balance_round_robin
    else balance_range

unfoldable pub partitioner_of : Text → Partitioner
partitioner_of partitioner =
    if partitioner == bytes "Hash"
    then hash_partitioner
    else if partitioner == bytes "RoundRobin"
    then round_robin_partitioner
    else random_partitioner

pub data InitialOffset : Type 0 where
  offset_newest offset_oldest : InitialOffset

pub data RequiredAcks : Type 0 where
  wait_for_all wait_for_local no_response : RequiredAcks

-- The settings of sarama that both kinds of clients make. `sasl` has the user and the password, with
-- SCRAM and SHA-512; the version is V1_1_1_0.
pub record ClientSettings : Type 0 where
  pub client_id : Text
  pub metadata_full : Bool
  pub sasl : Option (Text × Text)

abbrev sasl_of : Bool → (user password : Text) → Option (Text × Text)
sasl_of enabled user password = if enabled then some (user, password) else none

-- A client, as sarama is asked for it, with the configuration that it was made from.
pub record KafkaConsumer : Type 0 where
  pub config : KafkaConsumerConfig
  pub settings : ClientSettings
  pub initial_offset : InitialOffset
  pub strategy : BalanceStrategy
  pub brokers : List Text
  pub group_id : Text

-- `keep_alive` is in milliseconds.
pub record KafkaProducer : Type 0 where
  pub config : KafkaProducerConfig
  pub settings : ClientSettings
  pub retry_max : ℕ
  pub required_acks : RequiredAcks
  pub return_successes : Bool
  pub max_message_bytes : ℕ
  pub keep_alive : ℕ
  pub partitioner : Partitioner
  pub brokers : List Text

unfoldable pub consumer_of : KafkaConsumerConfig → KafkaConsumer
unfolding balance_strategy
consumer_of cfg = record {
  config = cfg;
  settings = record {
    client_id = cfg.client_id;
    metadata_full = true;
    sasl = sasl_of cfg.sasl_enable cfg.user cfg.password;
  };
  initial_offset = offset_newest;
  strategy = balance_strategy cfg.assignor;
  brokers = cfg.broker_addr ∷ [];
  group_id = cfg.group_id;
}

unfoldable pub producer_of : KafkaProducerConfig → KafkaProducer
unfolding partitioner_of
producer_of cfg = record {
  config = cfg;
  settings = record {
    client_id = cfg.client_id;
    metadata_full = true;
    sasl = sasl_of cfg.sasl_enable cfg.user cfg.password;
  };
  retry_max = cfg.max_retry;
  required_acks = wait_for_all;
  return_successes = true;
  max_message_bytes = 10000000;
  keep_alive = cfg.keep_alive;
  partitioner = partitioner_of cfg.partitioner;
  brokers = cfg.broker_addr ∷ [];
}

-- `sarama.NewConsumerGroup` and `sarama.NewSyncProducer`, with the validation before them.
pub record Sarama : Type 0 where
  pub consumer_accepted : KafkaConsumer → Bool
  pub producer_accepted : KafkaProducer → Bool

module _ (sarama : Sarama) where
  unfoldable pub new_kafka_consumer : KafkaConsumerConfig → Option KafkaConsumer
  unfolding consumer_of
  new_kafka_consumer cfg =
      if sarama.consumer_accepted (consumer_of cfg) then some (consumer_of cfg) else none

  unfoldable pub new_kafka_producer : KafkaProducerConfig → Option KafkaProducer
  unfolding producer_of
  new_kafka_producer cfg =
      if sarama.producer_accepted (producer_of cfg) then some (producer_of cfg) else none

  -- The loop runs on one configuration, whose client id it rewrites in each round.
  unfoldable pub consumers_from : (rounds i : ℕ) → KafkaConsumerConfig → Option (List KafkaConsumer)
  unfolding new_kafka_consumer format_int
  consumers_from zero i cfg = some []
  consumers_from (suc rounds) i cfg =
      let next = record cfg { client_id = cfg.client_id ++ (b'_' ∷ format_int i) } in
      let rest = consumers_from rounds (i + 1) next in
      elim (new_kafka_consumer next) [
        | none ↦ none
        | some consumer ↦ elim rest [ none ↦ none | some consumers ↦ some (consumer ∷ consumers) ]
      ]

  unfoldable pub new_kafka_consumers : KafkaConsumerConfig → Option (List KafkaConsumer)
  unfolding consumers_from
  new_kafka_consumers cfg = consumers_from cfg.clients 0 cfg
