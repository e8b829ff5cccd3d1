-- ===== src/Broker/Server.antt =====
-- broker/server.go with the methods of broker/conn.go that reach the server: the connections, the
-- groups, and `setAuthed` and `Close`, which hold the connection's mutex from start to end and so
-- are one step each; that they mix with those of other connections is not modelled. A `*Conn` is an
-- address in the heap `conn_at`; what leaves the process is listed in `calls`, oldest first. Where
-- Go runs `conn.Close` for a second time it returns an error.
pub mod Registration
pub mod Finality
pub mod Lifecycle
pub mod Close
pub mod Closing
pub mod Authentication
use longcom.Base.{
  ℕ, suc, ◌+◌, ◌-◌, Bool, true, false, List, [], ◌∷◌, ◌++◌, map, Option, none, some, Text, ltb,
  if◌then◌else◌, ◌==◌, nat_eq, text_eq,
}
use longcom.Base.Dict.{Dict, load, store, delete}
use longcom.Base.Run.{Run, ok, panic, ◌>>=◌}
use longcom.Errors.{Error, known, conn_closed, unknown_conn_status, new_group_manager}
use longcom.Logic.Calls.{StateCall}
use longcom.Broker.TimerOps.{TimerOp}
use longcom.Broker.Callback.{CallbackRequest, connect_callback_handler, disconnect_callback_handler}
use longcom.Broker.Conn.{
  Conn, ConnectionSession, conn_state_init, conn_state_authed, conn_state_closing,
  conn_state_closed, update_state, exit, close_network, cancel, set_conn_error,
}
use longcom.Broker.Group.{
  Group, add_alias_conn, remove_alias_conn, add_conn, remove_conn, start_report,
}
use longcom.Broker.Group as G

pub data Call : Type 0 where
  state_call : StateCall → Call
  callback : (url : Text) → CallbackRequest → Call
  writes : (conn : ℕ) → (frame : Text) → Call
  closes_network : (conn : ℕ) → Call

-- `timer_ops` is the channel of the heartbeat timer, which is taken to have room.
-- `pools_fail`: `ants.NewPool` refuses to make a pool.
pub record Server : Type 0 where
  pub next_luid : ℕ
  pub conn_count : ℕ
  pub node_id : Text
  pub conn_at : ℕ → Conn
  pub next_conn : ℕ
  pub connection_id_to_conn : Dict Text ℕ
  pub groups : Dict Text Group
  pub gnet_conn_to_conn : Dict ℕ ℕ
  pub pools_fail : Bool
  pub timer_ops : List TimerOp
  pub calls : List Call

-- A write through the pointer `p`.
unfoldable pub write_conn : ℕ → Conn → Server → Server
write_conn p c s = record s { conn_at = λ q. if p == q then c else s.conn_at q }

unfoldable pub emit : List Call → Server → Server
emit calls s = record s { calls = s.calls ++ calls }

abbrev pub callback_call : Option (Text × CallbackRequest) → List Call
callback_call none = []
callback_call (some (url, request)) = callback url request ∷ []

-- `getGroupManager`: a business that is seen for the first time gets a manager, which reports.
unfoldable pub get_group_manager : Text → Server → Server × Option Group
unfolding start_report
get_group_manager business s = elim (load business s.groups) [
  | some g ↦ (s, some g)
  | none ↦
      if s.pools_fail
      then (s, none)
      else let g = (start_report (G.new_group_manager business)).0 in
        (record s { groups = store business g s.groups }, some g)
]

unfoldable pub write_group : Text → Group → Server → Server
write_group business g s = record s { groups = store business g s.groups }

pub add_to_group :
    ConnectionSession → ℕ → List Text → ℕ → Server × Option Group → Run (Server × Option Error)
unfolding add_alias_conn add_conn emit write_group
add_to_group session conn topic now (s, none) = ok (s, some (known new_group_manager))
add_to_group session conn topic now (s, some g) = do
  (g₁, calls) ← add_alias_conn session.business s.node_id session.alias conn topic now g
  let g₂ = add_conn session.connection_id conn g₁
  let indexed = record s {
    connection_id_to_conn = store session.connection_id conn s.connection_id_to_conn;
  }
  let outward = map state_call calls ++ callback_call (connect_callback_handler session)
  ok (emit outward (write_group session.business g₂ indexed), none)

unfoldable pub add_authed_connection :
    ConnectionSession → ℕ → List Text → ℕ → Server → Run (Server × Option Error)
unfolding get_group_manager add_to_group
add_authed_connection session conn topic now s =
    add_to_group session conn topic now (get_group_manager session.business s)

unfoldable pub remove_from_group :
    ConnectionSession → ℕ → ℕ → Server × Option Group → Server × Option Error
unfolding remove_alias_conn remove_conn emit write_group
remove_from_group session conn now (s, none) = (s, some (known new_group_manager))
remove_from_group session conn now (s, some g) =
    let (g₁, calls) = remove_alias_conn session.business s.node_id session.alias conn g in
    let g₂ = remove_conn session.connection_id g₁ in
    let outward = map state_call calls ++ callback_call (disconnect_callback_handler session now) in
    (emit outward (write_group session.business g₂ s), none)

unfoldable pub remove_authed_connection : ConnectionSession → ℕ → ℕ → Server → Server × Option Error
unfolding get_group_manager remove_from_group
remove_authed_connection session conn now s =
    let unindexed = record s {
      connection_id_to_conn = delete session.connection_id s.connection_id_to_conn;
    } in
    remove_from_group session conn now (get_group_manager session.business unindexed)

-- `setAuthed`. The error of `AddAuthedConnection` is only logged.
unfoldable pub set_authed : ConnectionSession → Text → ℕ → ℕ → Server → Run Server
unfolding update_state write_conn add_authed_connection
set_authed session topic conn now s =
    let c = s.conn_at conn in
    let authed = record (update_state conn_state_authed c) { session = some session } in
    if c.state == conn_state_init
    then (add_authed_connection session conn (topic ∷ []) now (write_conn conn authed s)
        >>= λ (s', e). ok s')
    else ok s

-- What `Close` does to the connection behind the test of its state.
unfoldable pub closed_conn : Conn → Conn
unfolding update_state exit close_network cancel
closed_conn c = cancel (update_state conn_state_closed (close_network (exit c)))

unfoldable pub remove_session : Option ConnectionSession → ℕ → ℕ → Server → Server
unfolding remove_authed_connection
remove_session none conn now s = s
remove_session (some session) conn now s = (remove_authed_connection session conn now s).0

-- `Close`, with the error that it returns. The reason and the caller are only logged.
unfoldable pub close_conn : ℕ → ℕ → Server → Server × Option Error
unfolding closed_conn update_state exit write_conn emit remove_session
close_conn conn now s =
    let c = s.conn_at conn in
    let c₁ = exit (update_state conn_state_closing c) in
    if c.state == conn_state_init
    then (emit (closes_network conn ∷ []) (write_conn conn (closed_conn c) s), none)
    else if c.state == conn_state_authed
    then (let s₁ = remove_session c.session conn now (write_conn conn c₁ s) in
        (
          emit (closes_network conn ∷ []) (write_conn conn (closed_conn (s₁.conn_at conn)) s₁),
          none,
        ))
    else if c.state == conn_state_closing
    then (s, some (known conn_closed))
    else if c.state == conn_state_closed
    then (s, some (known conn_closed))
    else (s, some (known unknown_conn_status))

-- `protocolError`: the first error is kept, and the connection is closed.
unfoldable pub protocol_error : Error → ℕ → ℕ → Server → Server × Option Error
unfolding set_conn_error write_conn close_conn
protocol_error e conn now s =
    close_conn conn now (write_conn conn (set_conn_error e (s.conn_at conn)) s)
