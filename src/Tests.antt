-- ===== src/Tests.antt =====
-- Broker and logic at concrete inputs: one business with one user, one topic and one connection.
pub mod Groups
pub mod Servers
pub mod Requests
pub mod Timers
pub mod States
pub mod Messages
pub mod Frames
pub mod Upgrades
pub mod Calls
pub mod Queue
use longcom.Base.{ℕ, List, [], ◌∷◌, Text, bytes}
use longcom.Broker.Conn.{ConnectionSession, new_connection_session}

abbrev pub app : Text
app = bytes "app"

abbrev pub node : Text
node = bytes "10.0.0.1"

abbrev pub ann : Text
ann = bytes "ann"

abbrev pub bob : Text
bob = bytes "bob"

abbrev pub news : Text
news = bytes "news"

abbrev pub hello : Text
hello = bytes "hello"

abbrev pub id1 : Text
id1 = bytes "id1"

abbrev pub ann_session : ConnectionSession
unfolding new_connection_session
ann_session = new_connection_session id1 app [] ann [] news 100
