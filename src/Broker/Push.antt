-- ===== src/Broker/Push.antt =====
-- broker/server.go: what the broker does with a message of the queue, which is to make tasks for the
-- pools of a group; and, of broker/trpc_handler.go, `SendMessage`.
use longcom.Base.{
  ℕ, ◌≡◌, ◌≢◌, refl, Bool, true, false, ◌||◌, List, [], ◌∷◌, map, Option, none, some, arith, Text,
  contains, if◌then◌else◌, ◌==◌, ==-refl, ◌&&◌, nat_eq, text_eq,
}
use longcom.Base.Dict.{Dict, load, is_some}
use longcom.Errors.{
  Error, known, new_group_manager, invalid_push_by_alias_message_params,
  parameters_connection_empty, parameters_connection_not_found,
}
use longcom.Broker.Conn.{ConnectionSession, Network, Ready, send_request_bytes}
use longcom.Broker.Group.{Group}
use longcom.Broker.Group.View.{info_of}
use longcom.Broker.Group.Broadcast.{broadcast_tasks, topic_tasks}
use longcom.Broker.Group.Reach.{topic_tasks-subscribed}
use longcom.Broker.Handler.{write_calls}
use longcom.Broker.Server.{Server, get_group_manager, emit}
use longcom.Broker.Server.Registration.{IsSound}
use longcom.Broker.Server.Authentication.{IsRegistered}

-- `mq.PushMessage`
pub record PushMessage : Type 0 where
  pub app_name : Text
  pub topic : Text
  pub user_id : Text
  pub message : Text

-- A task of a pool: one of `BroadcastByAlias`, of `BroadcastByTopic`, or of `Broadcast`.
pub data PushTask : Type 0 where
  alias_task : (alias request : Text) → PushTask
  topic_task : (topic alias : Text) (subscribe_ts : ℕ) (request : Text) → PushTask
  conn_task : (conn : ℕ) (request : Text) → PushTask

-- What a handler leaves: the server, the tasks for the group of the business, and its error.
abbrev pub Pushed : Type 0
Pushed = Server × List PushTask × Option Error

abbrev in_group : (Group → List PushTask) → Server × Option Group → Pushed
in_group tasks (s, none) = (s, [], some (known new_group_manager))
in_group tasks (s, some g) = (s, tasks g, none)

unfoldable pub push_by_alias_message_handler : PushMessage → Server → Pushed
unfolding get_group_manager
push_by_alias_message_handler m s =
    in_group (λ g. alias_task m.user_id m.message ∷ []) (get_group_manager m.app_name s)

unfoldable pub push_all_message_handler : PushMessage → Server → Pushed
unfolding get_group_manager broadcast_tasks
push_all_message_handler m s =
    if m.app_name == []
    then (s, [], some (known invalid_push_by_alias_message_params))
    else in_group (λ g. map (λ c. conn_task c m.message) (broadcast_tasks g))
        (get_group_manager m.app_name s)

unfoldable pub tasks_of_topic : PushMessage → Dict Text ℕ → List PushTask
tasks_of_topic m [] = []
tasks_of_topic m ((alias, ts) ∷ rest) =
    topic_task m.topic alias ts m.message ∷ tasks_of_topic m rest

unfoldable pub push_by_topic_message_handler : PushMessage → Server → Pushed
unfolding get_group_manager topic_tasks tasks_of_topic
push_by_topic_message_handler m s =
    if m.app_name == [] || m.topic == []
    then (s, [], some (known invalid_push_by_alias_message_params))
    else in_group (λ g. tasks_of_topic m (topic_tasks m.topic g)) (get_group_manager m.app_name s)

unfoldable pub send_message :
    Network
    → (context_done : Bool) → Ready
    → (conn_id message : Text) → Server
    → Server × Option Error
unfolding send_request_bytes emit write_calls
send_message net context_done ready conn_id message s =
    if conn_id == []
    then (s, some (known parameters_connection_empty))
    else elim (load conn_id s.connection_id_to_conn) [
      | none ↦ (s, some (known parameters_connection_not_found))
      | some conn ↦
          let sent = send_request_bytes net context_done ready conn message (s.conn_at conn) in
          (emit (write_calls conn sent.0) s, sent.1)
    ]

-- The subscription time of the task that pushes the request for the topic to the alias.
unfoldable pub task_time : (topic request alias : Text) → List PushTask → Option ℕ
task_time topic request alias [] = none
task_time topic request alias (topic_task t a ts r ∷ tasks) =
    let rest = task_time topic request alias tasks in
    if t == topic && (r == request && a == alias) then some ts else rest
task_time topic request alias (alias_task a r ∷ tasks) = task_time topic request alias tasks
task_time topic request alias (conn_task c r ∷ tasks) = task_time topic request alias tasks

-- All tasks push the request for the topic.
unfoldable pub all_push : (topic request : Text) → List PushTask → Bool
all_push topic request [] = true
all_push topic request (topic_task t a ts r ∷ tasks) =
    (t == topic && r == request) && all_push topic request tasks
all_push topic request (_ ∷ tasks) = false

-- The tasks push the request for the topic to the aliases that the group has in its topic map, with
-- the times that stand there.
pub record PushesTopic (topic request : Text) (g : Group) (tasks : List PushTask) : Type 0 where
  pub no_other : all_push topic request tasks ≡ true
  pub times : (a : Text) → task_time topic request a tasks ≡ info_of g.topic_alias_info topic a

task_time-tasks_of_topic :
    (a : Text) (m : PushMessage) (d : Dict Text ℕ)
    → task_time m.topic m.message a (tasks_of_topic m d) ≡ load a d
unfolding task_time tasks_of_topic load
task_time-tasks_of_topic a m [] = refl
task_time-tasks_of_topic a m ((b, ts) ∷ d) =
    ground (arith, task_time-tasks_of_topic a m d, ==-refl m.topic, ==-refl m.message)

all_push-tasks_of_topic :
    (m : PushMessage) (d : Dict Text ℕ) → all_push m.topic m.message (tasks_of_topic m d) ≡ true
unfolding all_push tasks_of_topic
all_push-tasks_of_topic m [] = refl
all_push-tasks_of_topic m ((b, ts) ∷ d) =
    ground (arith, all_push-tasks_of_topic m d, ==-refl m.topic, ==-refl m.message)

topic_tasks-PushesTopic :
    (m : PushMessage) (g : Group)
    → PushesTopic m.topic m.message g (tasks_of_topic m (topic_tasks m.topic g))
unfolding topic_tasks info_of
topic_tasks-PushesTopic m g = record {
  no_other = all_push-tasks_of_topic m _;
  times = λ a. task_time-tasks_of_topic a m _;
}

-- On a sound server, a message of the queue for a topic of a registered connection and its
-- business, where neither name is empty: `PushByTopicMessageHandler` returns no error, leaves the
-- server as it is, and makes the tasks that push the message to the aliases of the topic, which the
-- alias of the connection is one of.
pub push_by_topic_message_handler-IsRegistered :
    (ss : ConnectionSession) (p : ℕ) (topics : List Text) (s : Server) (m : PushMessage)
    → IsSound s
    → (r : IsRegistered ss p topics s) → m.app_name ≡ ss.business
    → m.app_name ≢ []
    → m.topic ≢ []
    → contains topics m.topic ≡ true
    → (tasks : List PushTask) × (push_by_topic_message_handler m s ≡ (s, tasks, none))
      × PushesTopic m.topic m.message r.group tasks
      × (is_some (task_time m.topic m.message ss.alias tasks) ≡ true)
unfolding push_by_topic_message_handler
push_by_topic_message_handler-IsRegistered ss p topics s m v r named app topic asked =
    let g = r.group in
    let coherent = (v.groups_sound ss.business g r.stored).coherent in
    let has = r.subscribes m.topic in
    (
      tasks_of_topic m (topic_tasks m.topic g),
      ground (
        arith,
        named,
        r.stored,
        app,
        topic,
        text_eq.beq_iff m.app_name [],
        text_eq.beq_iff m.topic [],
      ),
      topic_tasks-PushesTopic m g,
      ground (
        arith,
        has,
        asked,
        task_time-tasks_of_topic ss.alias m (topic_tasks m.topic g),
        topic_tasks-subscribed g ss.alias m.topic coherent,
      ),
    )

-- `SendMessage` with the id of a registered connection, which is not empty, sends to that
-- connection, and returns the error of the send.
pub send_message-IsRegistered :
    (net : Network) (ready : Ready) (ss : ConnectionSession) (p : ℕ) (topics : List Text)
    (message : Text) (s : Server)
    → IsRegistered ss p topics s
    → ss.connection_id ≢ []
    → send_message net false ready ss.connection_id message s ≡ (
      emit (write_calls p (send_request_bytes net false ready p message (s.conn_at p)).0) s,
      (send_request_bytes net false ready p message (s.conn_at p)).1,
    )
unfolding send_message
send_message-IsRegistered net ready ss p topics message s r named =
    ground (arith, r.indexed, named, text_eq.beq_iff ss.connection_id [])
