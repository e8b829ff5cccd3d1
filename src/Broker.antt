-- ===== src/Broker.antt =====
-- The broker package.
pub mod Hub
pub mod Group
pub mod Conn
pub mod Callback
pub mod TimerOps
pub mod AuthFailure
pub mod Buffer
pub mod Intervals
pub mod Websocket
pub mod Rpc
pub mod PriorityQueue
pub mod Server
pub mod Gnet
pub mod Handler
pub mod Push
pub mod Heartbeat
