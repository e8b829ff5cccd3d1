-- ===== src/Tests/Groups.antt =====
-- The hubs and the group manager with the connection 7 of one user.
use longcom.Base.{
  ℕ, ◌≡◌, ◌≢◌, refl, true, false, List, [], ◌∷◌, Option, none, some, arith, bytes, contains,
  if◌then◌else◌, ◌==◌, subst, nat_eq, text_eq, text_beq, insert,
}
use longcom.Base.Dict.{load, store}
use longcom.Base.Decimal.{format_int}
use longcom.Base.Run.{Run, ok, panic}
use longcom.Logic.Calls.{StateCall, set_user_state, user_state_field}
use longcom.Broker.Hub.{Hub, TopicRequest, alias_hub_type, closed, subscribe_open}
use longcom.Broker.Hub.Delivery.{on_broadcast, on_topic_push}
use longcom.Broker.Hub.History.{IsFifo, play_all, play_all-IsFifo, runs, sends_broadcast, registers}
use longcom.Broker.Group.{
  Group, new_group_manager, add_alias_conn, remove_alias_conn, then_subscribe_hub, write_hub,
}
use longcom.Broker.Group.View.{hub_of, members, subscribed, info_of}
use longcom.Broker.Group.Coherence.{IsCoherent, new_group_manager-IsCoherent}
use longcom.Broker.Group.Connections.{
  Removed, expiry, add_alias_conn-Added, remove_alias_conn-Removed,
}
use longcom.Broker.Group.Broadcast.{
  by_send, ends, find_hub, broadcast_by_alias, broadcast_by_topic, topic_tasks,
}
use longcom.Broker.Group.Reach.{broadcast_by_alias-reaches, add_alias_conn-topic_push}
use longcom.Broker.Group.Races.{half_way, abandoned, subscribe_leaks, subscribe_panics}
use longcom.Tests.{app, node, ann, bob, news, hello}

abbrev push : TopicRequest
push = record { request = hello; subscribe_ts = 100; topic_name = news }

-- The connections 7 and 8, the requests waiting in both channels.
abbrev full_hub : Hub
full_hub = record {
  name = ann;
  hub_type = alias_hub_type;
  conns = 7 ∷ 8 ∷ [];
  broadcast = hello ∷ [];
  exit_closed = false;
  running = true;
  topic_set = some (news ∷ []);
  topic_push = push ∷ [];
}

abbrev connect_time : ℕ → ℕ
connect_time c = if c == 7 then 90 else 110

play_all-IsFifo_example : IsFifo connect_time (
    play_all connect_time
      (registers 9 ∷ sends_broadcast hello ∷ runs on_broadcast ∷ runs on_topic_push ∷ [])
      (record {
        hub = full_hub;
        accepted = hello ∷ [];
        accepted_topics = push ∷ [];
        taken = [];
        handed_out = [];
      }))
play_all-IsFifo_example =
    play_all-IsFifo connect_time
      (registers 9 ∷ sends_broadcast hello ∷ runs on_broadcast ∷ runs on_topic_push ∷ []) _
      (record {
        broadcasts = refl;
        pushes = refl;
        delivered = refl;
        broadcast_bounded = omega arith;
        topic_bounded = omega arith;
      })

abbrev empty_group : Group
unfolding new_group_manager
empty_group = new_group_manager app

empty_group-IsCoherent : IsCoherent empty_group
unfolding new_group_manager
empty_group-IsCoherent = new_group_manager-IsCoherent app

abbrev group_of : Run (Group × List StateCall) → Group
group_of (ok (g, calls)) = g
group_of panic = empty_group

one_group : Group
unfolding add_alias_conn
one_group = group_of (add_alias_conn app node ann 7 (news ∷ []) 100 empty_group)

one_calls : List StateCall
one_calls =
    set_user_state app [] ann (user_state_field node (bytes "connect")) (format_int 100) ∷ []

one_group_lem :
    add_alias_conn app node ann 7 (news ∷ []) 100 empty_group ≡ ok (one_group, one_calls)
unfolding add_alias_conn one_group one_calls load empty_group store text_beq
one_group_lem = refl

one_group-IsCoherent : IsCoherent one_group
unfolding one_calls
one_group-IsCoherent =
    let (g', returned, added) =
      add_alias_conn-Added ann 7 (news ∷ []) 100 empty_group empty_group-IsCoherent app node in
    let same : g' ≡ one_group = cc one_group_lem in subst IsCoherent same added.coherent

abbrev one_hub : Hub
one_hub = record {
  name = ann;
  hub_type = alias_hub_type;
  conns = 7 ∷ [];
  broadcast = [];
  exit_closed = false;
  running = false;
  topic_set = some (news ∷ []);
  topic_push = [];
}

one_group-hub : hub_of one_group ann ≡ some one_hub
unfolding one_group hub_of load empty_group store text_beq insert
one_group-hub = refl

one_group-members : members one_group ann ≡ 7 ∷ []
unfolding one_group members load empty_group store text_beq insert
one_group-members = refl

remove_alias_conn-Removed_example :
    Removed ann 7 one_group (remove_alias_conn app node ann 7 one_group).0
    × ((remove_alias_conn app node ann 7 one_group).1
        ≡ expiry app node ann 7 one_group one_group-IsCoherent
            (remove_alias_conn app node ann 7 one_group).0)
remove_alias_conn-Removed_example =
    remove_alias_conn-Removed app node ann 7 one_group one_group-IsCoherent

broadcast_by_alias-reaches_example :
    (g' : Group) × (broadcast_by_alias hello false by_send (find_hub ann one_group) one_group
      ≡ ends g')
    × (hub_of g' ann ≡ some (record one_hub { running = true; broadcast = hello ∷ [] }))
broadcast_by_alias-reaches_example =
    broadcast_by_alias-reaches one_group ann hello one_hub one_group-IsCoherent one_group-hub
      (omega arith)

one_group-find : find_hub ann one_group ≡ some 0
unfolding one_group find_hub load empty_group store text_beq
one_group-find = refl

add_alias_conn-topic_push_example :
    (load ann (topic_tasks news one_group) ≡ some 100)
    × (contains {A = ℕ} (7 ∷ []) 7 ≡ true)
    × (g'' : Group) × (broadcast_by_topic news hello 100 false by_send
          (find_hub ann one_group)
          one_group
        ≡ ends g'')
    × (hub_of g'' ann ≡ some (record one_hub { running = true; topic_push = push ∷ [] }))
unfolding one_calls contains text_beq
add_alias_conn-topic_push_example =
    add_alias_conn-topic_push app node ann 7 (news ∷ []) 100 news hello empty_group one_group
      one_calls one_hub empty_group-IsCoherent one_group_lem refl one_group-hub (omega arith)

-- After the task of the alias has run.
abbrev pushed_group : Group
pushed_group =
    write_hub 0 (record one_hub { running = true; broadcast = hello ∷ [] })
      (write_hub 0 (record one_hub { running = true }) one_group)

one_group_hub_at : one_group.hub_at 0 ≡ one_hub
unfolding one_group load empty_group store text_beq insert
one_group_hub_at = refl

pushed_group_lem : broadcast_by_alias hello false by_send (some 0) one_group ≡ ends pushed_group
unfolding broadcast_by_alias write_hub
pushed_group_lem = ground (arith, one_group_hub_at)

ann-≢-bob : (one_group.hub_at 0).name ≢ bob
unfolding one_group load empty_group store text_beq insert
ann-≢-bob e = ground (arith, one_group_hub_at)

abbrev half : Group × Option ℕ
half = half_way app node ann 7 (bob ∷ []) 200 one_group one_group-IsCoherent one_group-members

abbrev left_group : Group
left_group =
    abandoned app node ann 7 (bob ∷ []) 200 one_group one_group-IsCoherent one_group-members

one_group-fresh : subscribed one_group ann bob ≡ false
unfolding one_group subscribed load empty_group store text_beq insert contains
one_group-fresh = refl

subscribe_leaks_example :
    (then_subscribe_hub (bob ∷ []) true (left_group, half.1) ≡ ok left_group)
    × (hub_of left_group ann ≡ none)
    × (info_of left_group.topic_alias_info bob ann ≡ some 200)
unfolding contains text_beq
subscribe_leaks_example =
    subscribe_leaks app node ann 7 (bob ∷ []) 200 one_group one_group-IsCoherent one_group-members
      bob refl one_group-fresh

subscribe_panics_example :
    (closed (half.0.hub_at 0) ≡ false) × (subscribe_open (bob ∷ []) (left_group.hub_at 0) ≡ panic)
unfolding find_hub
subscribe_panics_example =
    subscribe_panics app node ann 7 (bob ∷ []) 200 one_group one_group-IsCoherent one_group-members
      0 bob [] one_group-find
