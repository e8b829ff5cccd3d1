-- ===== src/Lib.antt =====
-- longcom: a broker that keeps websocket connections of users and pushes messages to them.
--
-- gnet calls the broker when a connection opens, has data or closes (broker/gnet.go). A connection
-- (broker/conn.go) starts unauthenticated; its upgrade request carries a token (logic/token_logic.go),
-- and with a good one `setAuthed` registers it with the server (broker/server.go): in the table by
-- connection id and in the group manager of its business (broker/group.go), which keeps a hub for
-- each alias, that is user, and a map from topics to aliases. Pushes go to a hub (broker/hub.go),
-- whose goroutine hands them to the connections. `Close` takes the connection out again. A heartbeat
-- timer (broker/heartbeat.go) watches the connections with a priority queue.
--
-- Which file models which part:
--   Base            Go's numbers, maps, slices and panics; `strconv` for integers, valid UTF-8
--   Errors          repo/merrors/errors.go
--   Config          config/config.go
--   AccessLog       repo/accesslog/log.go
--   Request         repo/request: Http (http.go) and Retry (retry_http.go)
--   Logic/Token     logic/token_logic.go
--   Logic/Calls     logic/state_logic.go, what the broker asks of it
--   Logic/UserState, Logic/States
--                   logic/state_logic.go, `GetUserState` and `valueMap`
--   Logic/Redis     logic/state_logic.go on a redis; Script, Sessions and Stays: what is stored of a
--                   user who connects and leaves, and when it expires
--   Message         repo/message: Future (future.go) and Ids (messageids.go)
--   Broker/Hub      broker/hub.go; Delivery: `run` and the sends into its channels,
--                   History: what its connections are handed
--   Broker/Group    broker/group.go; View: what it shows to others, Coherence: its invariant,
--                   Subscriptions and Connections: its operations, Broadcast and Reach: its pushes,
--                   Races: `Subscribe` with a step of another goroutine in between, Presence: the
--                   stay of a user, with redis
--   Broker/Conn     broker/conn.go and broker/conn_session.go, a connection by itself
--   Broker/Callback broker/callback.go and protocols/types.go; Outward: how a callback is sent
--   Broker/Buffer   broker/conn.go, `separateReadWriteBuffer`
--   Broker/AuthFailure
--                   broker/conn.go, `sendAuthFailedAndSetDead`
--   Broker/Intervals
--                   broker/conn_handler.go, `getIntervals`
--   Broker/Rpc      broker/trpc_handler.go, the calls that ask for tokens and states
--   Broker/Server   broker/server.go, with `setAuthed`, `Close` and `protocolError` of
--                   broker/conn.go; Registration: its invariant, Authentication, Closing and Close:
--                   its operations, Lifecycle and Finality: histories of them
--   Broker/Gnet     broker/gnet.go
--   Broker/Handler  broker/conn_handler.go; Inflight: its counter, Requests: requests on a server
--   Broker/Push     broker/server.go, the messages of the queue, and `SendMessage` of
--                   broker/trpc_handler.go
--   Broker/PriorityQueue
--                   the queue of broker/heartbeat.go with Go's container/heap; Swap, Up, Down
--                   and Sink: the moves, Operations: its invariant and `Push`, Removal and Taking:
--                   `Pop` and `Remove`, Changing: `Update`
--   Broker/TimerOps and Broker/Heartbeat
--                   the rest of broker/heartbeat.go; Timer: its invariant, Ops and Checks: on
--                   `Run`, Rounds and Stops: the rounds of `checkTimeoutConn`; Schedule and
--                   Refine: the map of deadlines that it implements; Health, Progress and
--                   Settling: the rounds end
--   Ws              what repo/ws has from this project: Frame, Frames and Unframed (read.go), Http and
--                   Request (server.go and http.go)
--   Broker/Websocket
--                   broker/websocket.go, `WebsocketFrameCodec` and `salmonFrameConn`; Stream: frames
--                   in pieces, Handshake: the upgrade request, React: data frames up to `onFrame`
--   Mq              repo/mq/kafka: Client and Config: how the clients are made, Clients: their groups,
--                   Producer (with the sending half of broker/trpc_handler.go), Consumer and
--                   Consuming: claims, Delivery: from a request to the tasks of a node
--   Tests           all of it at concrete inputs
--
-- A pointer is an address in a heap that is a function, a Go map is an association list, and a
-- method is a function of the state that returns the new one. A method that holds a mutex from start
-- to end is one step; where Go lets the mutex go in between, the parts are functions of their own.
-- `setAuthed` and `Close` hold the mutex of their connection, so the steps of one connection never
-- mix; that the parts of two connections may mix on the tables of the server is not modelled. Times
-- are arguments. What leaves the process is a list of calls.
--
-- Loops are structural, but for the two of container/heap, which run on fuel: `up` moves to a smaller
-- index in each round and has one round more than its index, `down` moves to a larger one below the
-- length and has the length. `checkTimeoutConn` and the search for the configuration count their
-- rounds, which are the fuel.
--
-- Parameters: the commands of redis, the jwt library, the parsers of URLs and of the token in one,
-- the JSON and TOML libraries, net/http and go-retryablehttp, the file system, uuid, sarama's clients,
-- gnet's write and `ShiftN`, and of repo/ws the frame compiler, the upgrade, the reader of messages,
-- the handler of control messages and the parser of the HTTP version.
--
-- Not modelled: the rest of repo/ws (a copy of another project), the generated code of protocols,
-- metrics, the log lines, the retry of repo/backoff, which is one call of a library, and the start
-- and the stop of the process; `websocketTransport` of broker/websocket.go, which nothing makes.
pub mod Base
pub mod Errors
pub mod Message
pub mod Mq
pub mod Ws
pub mod Config
pub mod AccessLog
pub mod Request
pub mod Logic
pub mod Broker
pub mod Tests
