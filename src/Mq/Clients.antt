-- ===== src/Mq/Clients.antt =====
-- repo/mq/kafka/messageQueue.go: the clients that `NewKafkaMessageQueue` has made, and their groups.
use longcom.Base.{
  ℕ, zero, suc, ◌+◌, ◌≡◌, ◌≢◌, refl, sym, ap, ◌∙◌, inl, inr, true, false, List, [], ◌∷◌, ◌++◌, map,
  Option, none, some, Text, bytes, contains, text_eq, arith, Option-cases,
}
use longcom.Base.Decimal.{format_int}
use longcom.Mq.Client.{
  KafkaConsumerConfig, KafkaProducerConfig, KafkaConsumer, KafkaProducer, Sarama,
  new_kafka_consumer, consumers_from, new_kafka_producer, new_kafka_consumers,
}
use longcom.Mq.Config.{
  KafkaMessageQueueConfig, KafkaMessageQueue, TopicNames, topic_names, consumer_for, producer_for,
  assemble, new_kafka_message_queue,
}

abbrev pub group_of : KafkaConsumer → Text
group_of c = c.group_id

unfoldable pub replicate : ℕ → Text → List Text
replicate zero t = []
replicate (suc n) t = t ∷ replicate n t

unfoldable pub groups : KafkaMessageQueue → List Text
groups q =
    map group_of q.alias_consumers
    ++ (map group_of q.all_consumers ++ map group_of q.topic_consumers)

-- The groups of a node: three clients for the alias topic, and one for each of the others.
unfoldable pub groups_of : (node_id : Text) → List Text
unfolding replicate
groups_of node_id =
    replicate 3 (bytes "alias_" ++ node_id)
    ++ ((bytes "all_" ++ node_id) ∷ (bytes "topic_" ++ node_id) ∷ [])

module _ (sarama : Sarama) where
  new_kafka_consumer-group :
      (cfg : KafkaConsumerConfig) (c : KafkaConsumer)
      → new_kafka_consumer sarama cfg ≡ some c
      → c.group_id ≡ cfg.group_id
  unfolding new_kafka_consumer
  new_kafka_consumer-group cfg c e = ground (arith, e)

  consumers_from-groups :
      (rounds i : ℕ) (cfg : KafkaConsumerConfig) (cs : List KafkaConsumer)
      → consumers_from sarama rounds i cfg ≡ some cs
      → map group_of cs ≡ replicate rounds cfg.group_id
  unfolding consumers_from replicate
  consumers_from-groups zero i cfg cs e = ground (arith, e)
  consumers_from-groups (suc rounds) i cfg cs e =
      let next = record cfg { client_id = cfg.client_id ++ (b'_' ∷ format_int i) } in
      elim (Option-cases (new_kafka_consumer sarama next)) [
        | inl n ↦ absurd (ground (arith, n, e))
        | inr (c, n) ↦ elim (Option-cases (consumers_from sarama rounds (i + 1) next)) [
          | inl m ↦ absurd (ground (arith, n, m, e))
          | inr (ds, m) ↦ ground (
            arith,
            n,
            m,
            e,
            new_kafka_consumer-group next c n,
            consumers_from-groups rounds (i + 1) next ds m,
          )
        ]
      ]

  made-groups :
      (kind node_id : Text) (clients : ℕ) (cfg : KafkaConsumerConfig) (cs : List KafkaConsumer)
      → new_kafka_consumers sarama (consumer_for kind node_id clients cfg) ≡ some cs
      → map group_of cs ≡ replicate clients (kind ++ node_id)
  unfolding new_kafka_consumers consumer_for
  made-groups kind node_id clients cfg cs e =
      consumers_from-groups clients 0 (consumer_for kind node_id clients cfg) cs e

  made-topic :
      (node_id topic : Text) (cfg : KafkaProducerConfig) (p : KafkaProducer)
      → new_kafka_producer sarama (producer_for node_id topic cfg) ≡ some p
      → p.config.topic ≡ topic
  unfolding new_kafka_producer producer_for
  made-topic node_id topic cfg p e = ground (arith, e)

  assemble-some :
      (named named' : TopicNames) (a b c : Option (List KafkaConsumer))
      (d e f : Option KafkaProducer) (q : KafkaMessageQueue)
      → assemble named' a b c d e f ≡ some (named, q)
      → (named ≡ named')
        × (a ≡ some q.alias_consumers)
        × (b ≡ some q.all_consumers)
        × (c ≡ some q.topic_consumers)
        × (d ≡ some q.alias_producer)
        × (e ≡ some q.topic_producer)
        × (f ≡ some q.all_producer)
  unfolding assemble
  assemble-some named named' (some a) (some b) (some c) (some d) (some e) (some f) q h =
      ground arith
  assemble-some named named' none b c d e f q h = absurd (cc)
  assemble-some named named' (some a) none c d e f q h = absurd (cc)
  assemble-some named named' (some a) (some b) none d e f q h = absurd (cc)
  assemble-some named named' (some a) (some b) (some c) none e f q h = absurd (cc)
  assemble-some named named' (some a) (some b) (some c) (some d) none f q h = absurd (cc)
  assemble-some named named' (some a) (some b) (some c) (some d) (some e) none q h = absurd (cc)

  -- What a node has when its queue is made: the clients of each topic in a group of the node's own,
  -- and producers for the topics under their final names.
  pub record IsQueueOf (node_id : Text) (named : TopicNames) (q : KafkaMessageQueue) : Type 0 where
    pub in_groups : groups q ≡ groups_of node_id
    pub alias_topic : q.alias_producer.config.topic ≡ named.push_by_alias
    pub all_topic : q.all_producer.config.topic ≡ named.push_all
    pub by_topic : q.topic_producer.config.topic ≡ named.push_by_topic

  pub new_kafka_message_queue-IsQueueOf :
      (cfg : KafkaMessageQueueConfig) (node_id : Text) (names named : TopicNames)
      (q : KafkaMessageQueue)
      → new_kafka_message_queue sarama cfg node_id names ≡ some (named, q)
      → (named ≡ topic_names cfg names) × IsQueueOf node_id named q
  unfolding new_kafka_message_queue groups groups_of
  new_kafka_message_queue-IsQueueOf cfg node_id names named q h =
      let (same, a, b, c, d, e, f) = assemble-some named (topic_names cfg names) _ _ _ _ _ _ q h in
      (
        same,
        record {
          in_groups =
              rw
                (
                  made-groups (bytes "alias_") node_id 3 cfg.alias_consumer q.alias_consumers a,
                  made-groups (bytes "all_") node_id 1 cfg.all_consumer q.all_consumers b,
                  made-groups (bytes "topic_") node_id 1 cfg.topic_consumer q.topic_consumers c,
                )
                refl;
          alias_topic =
              made-topic node_id _ cfg.alias_producer q.alias_producer d
              ∙ sym (ap (λ (t : TopicNames). t.push_by_alias) same);
          all_topic =
              made-topic node_id _ cfg.all_producer q.all_producer f
              ∙ sym (ap (λ (t : TopicNames). t.push_all) same);
          by_topic =
              made-topic node_id _ cfg.topic_producer q.topic_producer e
              ∙ sym (ap (λ (t : TopicNames). t.push_by_topic) same);
        },
      )

-- Two nodes with different ids have no group in common, so that each of them reads every message.
pub groups_of-disjoint :
    (m n g : Text) → m ≢ n → contains (groups_of m) g ≡ true → contains (groups_of n) g ≡ false
unfolding groups_of contains replicate
groups_of-disjoint m n g d e = ground (
  arith,
  d,
  e,
  text_eq.beq_iff (bytes "alias_" ++ m) g,
  text_eq.beq_iff (bytes "all_" ++ m) g,
  text_eq.beq_iff (bytes "topic_" ++ m) g,
  text_eq.beq_iff (bytes "alias_" ++ n) g,
  text_eq.beq_iff (bytes "all_" ++ n) g,
  text_eq.beq_iff (bytes "topic_" ++ n) g,
)

-- The queues that `NewKafkaMessageQueue` makes for two nodes with different ids have no consumer
-- group in common, so that neither keeps a message from the other.
pub new_kafka_message_queue-disjoint :
    (sarama sarama' : Sarama) (cfg cfg' : KafkaMessageQueueConfig) (m n g : Text)
    (names named names' named' : TopicNames) (q q' : KafkaMessageQueue)
    → m ≢ n
    → new_kafka_message_queue sarama cfg m names ≡ some (named, q)
    → new_kafka_message_queue sarama' cfg' n names' ≡ some (named', q')
    → contains (groups q) g ≡ true
    → contains (groups q') g ≡ false
new_kafka_message_queue-disjoint sarama sarama' cfg cfg' m n g names named names' named' q q' d e e'
      h =
    let (_, v) = new_kafka_message_queue-IsQueueOf sarama cfg m names named q e in
    let (_, v') = new_kafka_message_queue-IsQueueOf sarama' cfg' n names' named' q' e' in
    ap (λ gs. contains gs g) v'.in_groups
    ∙ groups_of-disjoint m n g d (sym (ap (λ gs. contains gs g) v.in_groups) ∙ h)
