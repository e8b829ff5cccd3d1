-- ===== src/Broker/Hub.antt =====
-- broker/hub.go: the hub of one alias. It holds the alias's connections, a set of topics, and two
-- buffered channels that the goroutine `run` empties. A connection is the address of its `Conn`.
pub mod Delivery
pub mod History
use longcom.Base.{
  ℕ, ◌≡◌, Bool, true, false, not, ◌&&◌, ◌||◌, List, [], ◌∷◌, Option, none, some, arith, Text,
  length, contains, insert, remove, contains-insert, contains-remove, if◌then◌else◌, nat_eq,
  text_eq, refl,
}
use longcom.Base.Run.{Run, ok, panic}

-- `hubTypeAlias`, `hubTypeGroup`
pub data HubType : Type 0 where
  alias_hub_type group_hub_type : HubType

pub record TopicRequest : Type 0 where
  pub request : Text
  pub subscribe_ts : ℕ
  pub topic_name : Text

-- `exit_closed`: the channel `exit` is closed. `topic_set` is `none` for the nil map.
-- `broadcast` and `topic_push` are the contents of the channels, oldest first.
pub record Hub : Type 0 where
  pub name : Text
  pub hub_type : HubType
  pub conns : List ℕ
  pub broadcast : List Text
  pub exit_closed : Bool
  pub running : Bool
  pub topic_set : Option (List Text)
  pub topic_push : List TopicRequest

-- The capacity of both channels.
abbrev pub channel_size : ℕ
channel_size = 16

unfoldable pub new_hub : Text → HubType → Hub
new_hub name hub_type = record {
  name = name;
  hub_type = hub_type;
  conns = [];
  broadcast = [];
  exit_closed = false;
  running = false;
  topic_set = some [];
  topic_push = [];
}

unfoldable pub register : ℕ → Hub → Hub
register conn h = record h { conns = insert conn h.conns }

unfoldable pub unregister : ℕ → Hub → Hub
unregister conn h = record h { conns = remove conn h.conns }

-- The sync.Once makes a second call do nothing, which is what closing a closed flag does.
unfoldable pub close : Hub → Hub
close h = record h { exit_closed = true }

unfoldable pub closed : Hub → Bool
closed h = h.exit_closed

unfoldable pub len : Hub → ℕ
len h = length h.conns

unfoldable pub started : Hub → Bool
started h = h.running

-- The flag tells whether this call started the goroutine: the CAS succeeds once.
unfoldable pub start : Hub → Hub × Bool
start h = if h.running then (h, false) else (record h { running = true }, true)

unfoldable pub insert_all : List Text → List Text → List Text
insert_all [] s = s
insert_all (t ∷ ts) s = insert_all ts (insert t s)

unfoldable pub remove_all : List Text → List Text → List Text
remove_all [] s = s
remove_all (t ∷ ts) s = remove_all ts (remove t s)

-- A write to the nil map panics.
unfoldable pub store_topics : List Text → Option (List Text) → Run (Option (List Text))
unfolding insert_all
store_topics [] s = ok s
store_topics (t ∷ ts) none = panic
store_topics (t ∷ ts) (some s) = ok (some (insert_all (t ∷ ts) s))

-- A deletion from the nil map does nothing.
unfoldable pub delete_topics : List Text → Option (List Text) → Option (List Text)
unfolding remove_all
delete_topics ts none = none
delete_topics ts (some s) = some (remove_all ts s)

-- The part of `subscribe` behind its test of `closed`.
unfoldable pub subscribe_open : List Text → Hub → Run Hub
unfolding store_topics
subscribe_open ts h = elim (store_topics ts h.topic_set) [
  | ok s ↦ ok (record h { topic_set = s })
  | panic ↦ panic
]

unfoldable pub subscribe : List Text → Hub → Run Hub
unfolding closed subscribe_open
subscribe ts h = if closed h then ok h else subscribe_open ts h

unfoldable pub unsubscribe : List Text → Hub → Hub
unfolding closed delete_topics
unsubscribe ts h = if closed h then h else record h { topic_set = delete_topics ts h.topic_set }

-- The topics over which `range h.topicSet` runs.
abbrev pub topics : Hub → List Text
topics h = elim h.topic_set [ none ↦ [] | some s ↦ s ]

pub contains-insert_all :
    (ts s : List Text) (t : Text) → contains (insert_all ts s) t ≡ (contains ts t || contains s t)
unfolding insert_all contains
contains-insert_all [] s t = ground arith
contains-insert_all (u ∷ ts) s t =
    ground (arith, contains-insert_all ts (insert u s) t, contains-insert u t s)

pub contains-remove_all :
    (ts s : List Text) (t : Text)
    → contains (remove_all ts s) t ≡ (not (contains ts t) && contains s t)
unfolding remove_all contains
contains-remove_all [] s t = ground arith
contains-remove_all (u ∷ ts) s t =
    ground (arith, contains-remove_all ts (remove u s) t, contains-remove u t s)

pub store_topics-some : (ts s : List Text) → store_topics ts (some s) ≡ ok (some (insert_all ts s))
unfolding store_topics
store_topics-some [] s = refl
store_topics-some (t ∷ ts) s = refl
