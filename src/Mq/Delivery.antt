-- ===== src/Mq/Delivery.antt =====
-- repo/mq/kafka and broker/trpc_handler.go: from a request to send, through the topic of the queue,
-- to the tasks of a broker that reads it.
use longcom.Base.{
  subst, ℕ, ◌≡◌, ◌≢◌, ◌↔◌, ◌⊎◌, refl, inl, inr, sym, ap, ◌∙◌, true, List, [], ◌∷◌, ◌++◌, Option,
  none, some, Text, contains, arith, Option-cases, nat_eq, text_eq,
}
use longcom.Base.Dict.{is_some}
use longcom.Base.Utf8.{is_utf8, valid_after}
use longcom.Errors.{Error}
use longcom.Broker.Group.{Group}
use longcom.Broker.Conn.{ConnectionSession}
use longcom.Broker.Server.Registration.{IsSound}
use longcom.Broker.Server.Authentication.{IsRegistered}
use longcom.Broker.Push.{
  PushMessage, PushTask, PushesTopic, task_time, push_by_topic_message_handler,
  push_by_topic_message_handler-IsRegistered,
}
use longcom.Mq.Config.{TopicNames}
use longcom.Mq.Producer.{
  ProducerMessage, Answer, delivered, failed, panics, produce, send_bytes_msg, send_twice, outcome,
  send_message_by_topic, push_by_topic_message_producer,
}
use longcom.Mq.Consumer.{Claim, consume_strictly, handle_push, consume_by_topic, consume_claim}

Answer-cases : (a : Answer) → (a ≡ delivered) ⊎ ((a ≡ panics) ⊎ ((e : Error) × (a ≡ failed e)))
Answer-cases delivered = inl refl
Answer-cases panics = inr (inl refl)
Answer-cases (failed e) = inr (inr (e, refl))

module _ (marshal : PushMessage → Option Text) (answer : List ProducerMessage → Answer) where
  -- The JSON library reads back what it wrote of a message whose names are valid UTF-8.
  abbrev pub ReadsBack : (Text → Option PushMessage) → Type 0
  ReadsBack unmarshal =
      (m : PushMessage) (t : Text)
      → is_utf8 m.app_name ≡ true
      → is_utf8 m.topic ≡ true
      → is_utf8 m.user_id ≡ true
      → marshal m ≡ some t
      → unmarshal t ≡ some m

  abbrev pub message : (topic key value : Text) → ProducerMessage
  message topic key value = record { topic = topic; key = key; value = value }

  -- One attempt, which did not return an error, or two if the first did.
  abbrev pub Attempts : (topic key value : Text) (sent sent' : List ProducerMessage) → Type 0
  Attempts topic key value sent sent' =
      ((sent' ≡ sent ++ message topic key value ∷ [])
        × ((answer (sent ++ message topic key value ∷ []) ≡ delivered)
            ⊎ (answer (sent ++ message topic key value ∷ []) ≡ panics)))
      ⊎ ((sent' ≡ (sent ++ message topic key value ∷ []) ++ message topic key value ∷ [])
          × ((e : Error) × (answer (sent ++ message topic key value ∷ []) ≡ failed e)))

  outcome-none_iff : (a : Answer) → (outcome marshal answer a ≡ none) ↔ (a ≡ delivered)
  outcome-none_iff delivered = ground arith
  outcome-none_iff panics = ground arith
  outcome-none_iff (failed e) = ground arith

  -- `SendBytesMsg` hands its message to sarama once if that is delivered or panics, and exactly
  -- twice if the first attempt returned an error; it returns no error exactly if the last attempt
  -- was delivered.
  pub send_bytes_msg-Attempts :
      (topic key value : Text) (sent : List ProducerMessage)
      → let (sent', e) = send_bytes_msg marshal answer topic key value sent in
        Attempts topic key value sent sent' × ((e ≡ none) ↔ (answer sent' ≡ delivered))
  unfolding send_bytes_msg send_twice
  send_bytes_msg-Attempts topic key value sent =
      let once = sent ++ message topic key value ∷ [] in
      let twice = once ++ message topic key value ∷ [] in
      elim (Answer-cases (answer once)) [
        | inl d ↦ rw (d, send_twice) (inl (refl, inl refl), ground (arith, d))
        | inr (inl d) ↦ rw (d, send_twice) (inl (refl, inr refl), ground (arith, d))
        | inr (inr (e, d)) ↦
            rw (d, send_twice) (inr (refl, (e, refl)), outcome-none_iff (answer twice))
      ]

  -- What was sent last, and is in the topic.
  pub record WasDelivered (topic key : Text) (m : PushMessage) (sent' : List ProducerMessage)
      : Type 0 where
    pub value : Text
    pub written : marshal m ≡ some value
    pub before : List ProducerMessage
    pub last : sent' ≡ before ++ message topic key value ∷ []
    pub accepted : answer sent' ≡ delivered

  attempted :
      (topic key value : Text) (sent sent' : List ProducerMessage)
      → Attempts topic key value sent sent'
      → (before : List ProducerMessage) × (sent' ≡ before ++ message topic key value ∷ [])
  attempted topic key value sent sent' (inl (e, _)) = (sent, e)
  attempted topic key value sent sent' (inr (e, _)) = (sent ++ message topic key value ∷ [], e)

  produce-WasDelivered :
      (topic key : Text) (m : PushMessage) (sent sent' : List ProducerMessage)
      → produce marshal answer topic key m sent ≡ (sent', none)
      → WasDelivered topic key m sent'
  unfolding produce
  produce-WasDelivered topic key m sent sent' h = elim (Option-cases (marshal m)) [
    | inl e ↦ absurd (ground (arith, e, h))
    | inr (value, e) ↦
        let r = send_bytes_msg marshal answer topic key value sent in
        let same : r ≡ (sent', none) = ground (arith, e, h) in
        let (tries, ends) = send_bytes_msg-Attempts topic key value sent in
        let (before, last) = attempted topic key value sent r.0 tries in
        record {
          value = value;
          written = e;
          before = before;
          last = sym (ap (λ (t : List ProducerMessage × Option Error). t.0) same) ∙ last;
          accepted =
              subst (λ t. answer t ≡ delivered)
                (ap (λ (t : List ProducerMessage × Option Error). t.0) same)
                (ends.0 (ap (λ (t : List ProducerMessage × Option Error). t.1) same));
        }
  ]

  module _ (unmarshal : Text → Option PushMessage) (reads_back : ReadsBack unmarshal)
      (names : TopicNames) where
    abbrev pub topic_push : (app_name topic text : Text) → PushMessage
    topic_push app_name topic text = record {
      app_name = app_name;
      topic = topic;
      user_id = [];
      message = text;
    }

    -- What a node does with that message when it reads it: it makes the tasks that push the text
    -- to the aliases of the topic in the group, which the alias is one of, and marks the message.
    pub record Pushes (topic text alias : Text) (g : Group) (offset : ℕ) (c c' : Claim)
        : Type 0 where
      pub new_tasks : List PushTask
      pub same_server : c'.node.server ≡ c.node.server
      pub tasks_added : c'.node.tasks ≡ c.node.tasks ++ new_tasks
      pub pushes : PushesTopic topic text g new_tasks
      pub for_alias : is_some (task_time topic text alias new_tasks) ≡ true
      pub marks : c'.marked ≡ c.marked ++ offset ∷ []

    consumed :
        (m : PushMessage) (value : Text) (offset : ℕ) (c : Claim) (tasks : List PushTask)
        → unmarshal value ≡ some m
        → push_by_topic_message_handler m c.node.server ≡ (c.node.server, tasks, none)
        → consume_claim
            (consume_by_topic unmarshal)
            (record { offset = offset; value = value } ∷ [])
            c
          ≡ record {
            node = record { server = c.node.server; tasks = c.node.tasks ++ tasks };
            marked = c.marked ++ offset ∷ [];
          }
    unfolding consume_claim consume_by_topic consume_strictly handle_push
    consumed m value offset c tasks e h = ground (arith, e, h)

    pub send_message_by_topic-Pushes :
        (app_name topic text : Text) (sent sent' : List ProducerMessage) (ss : ConnectionSession)
        (p : ℕ) (topics : List Text) (offset : ℕ) (c : Claim)
        → send_message_by_topic marshal answer names app_name topic text sent ≡ (sent', none)
        → IsSound c.node.server
        → (reg : IsRegistered ss p topics c.node.server) → app_name ≡ ss.business
        → app_name ≢ []
        → topic ≢ []
        → is_utf8 app_name ≡ true
        → is_utf8 topic ≡ true
        → contains topics topic ≡ true
        → (w : WasDelivered names.push_by_topic topic (topic_push app_name topic text) sent')
          × Pushes topic text ss.alias reg.group offset c (
              consume_claim
                (consume_by_topic unmarshal)
                (record { offset = offset; value = w.value } ∷ [])
                c)
    unfolding send_message_by_topic push_by_topic_message_producer is_utf8 valid_after
    send_message_by_topic-Pushes app_name topic text sent sent' ss p topics offset c h sound reg
          named app asked app_utf8 topic_utf8 has =
        let m = topic_push app_name topic text in
        let w = produce-WasDelivered names.push_by_topic topic m sent sent' h in
        let (tasks, handled, pushed, there) =
          push_by_topic_message_handler-IsRegistered ss p topics c.node.server m sound reg named app
            asked has in
        let read = reads_back m w.value app_utf8 topic_utf8 refl w.written in
        (
          w,
          subst (Pushes topic text ss.alias reg.group offset c)
              (sym (consumed m w.value offset c tasks read handled))
              (record {
                new_tasks = tasks;
                same_server = refl;
                tasks_added = refl;
                pushes = pushed;
                for_alias = there;
                marks = refl;
              }),
        )
