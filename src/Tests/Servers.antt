-- ===== src/Tests/Servers.antt =====
-- A server with one connection, from its opening to its end.
use longcom.Broker.Group.{new_group_manager}
use longcom.Base.{
  ◌≡◌, refl, inr, none, some, arith, nat_eq, text_eq, text_beq, false, inl, ◌∷◌, [], subst,
}
use longcom.Base.Dict.{load, store}
use longcom.Base.Run.{Run, ok, panic}
use longcom.Broker.Conn.{conn_state_init, conn_state_authed, conn_state_closed}
use longcom.Broker.Gnet.{on_opened}
use longcom.Broker.Server.{Server, set_authed, close_conn}
use longcom.Broker.Server.Registration.{IsSound}
use longcom.Broker.Server.Authentication.{Authenticates, set_authed-Authenticates, IsRegistered}
use longcom.Broker.Server.Close.{IsOpen, IsShut, IsAbsent, close_conn-shuts}
use longcom.Broker.Server.Lifecycle.{
  Reach, IsValid, opens, authenticates, closes, here, next, new_server, new_server-IsValid,
  Reach-IsValid,
}
use longcom.Broker.Server.Finality.{Reach-closed}
use longcom.Tests.{node, news, id1, ann_session}

abbrev start : Server
start = new_server node

start-IsValid : IsValid start
start-IsValid = new_server-IsValid node

unfoldable pub opened : Server
opened = (on_opened 5 (some id1) 100 start).0

pub opened-init : (opened.conn_at 0).state ≡ conn_state_init
unfolding opened on_opened new_server
opened-init = refl

to_opened : Reach start opened
unfolding opened
to_opened = next here (opens 5 (some id1) 100)

opened-next : opened.next_conn ≡ 1
unfolding opened on_opened new_server
opened-next = refl

Reach-IsValid_example : IsValid opened
Reach-IsValid_example = Reach-IsValid start-IsValid to_opened

pub opened-IsSound : IsSound opened
opened-IsSound = (Reach-IsValid start-IsValid to_opened).sound

set_authed-Authenticates_example :
    (s' : Server) × (set_authed ann_session news 0 100 opened ≡ ok s')
    × Authenticates ann_session news 0 100 opened opened-IsSound s'
set_authed-Authenticates_example =
    set_authed-Authenticates ann_session news 0 100 opened opened-IsSound opened-init

abbrev server_of : Run Server → Server
server_of (ok s) = s
server_of panic = start

unfoldable pub authed : Server
unfolding set_authed
authed = server_of (set_authed ann_session news 0 100 opened)

authed_lem : set_authed ann_session news 0 100 opened ≡ ok authed
unfolding authed set_authed opened on_opened new_server load store text_beq new_group_manager
    ann_session
authed_lem = refl

authed-state : (authed.conn_at 0).state ≡ conn_state_authed
unfolding authed set_authed opened on_opened new_server load store text_beq new_group_manager
    ann_session
authed-state = refl

authed-next : authed.next_conn ≡ 1
unfolding authed set_authed opened on_opened new_server load store text_beq new_group_manager
    ann_session
authed-next = refl

to_authed : Reach start authed
to_authed =
    next to_opened (authenticates ann_session news 0 100 (omega (arith, opened-next)) authed_lem)

pub authed-IsSound : IsSound authed
authed-IsSound = (Reach-IsValid start-IsValid to_authed).sound

shut : Server
shut = (close_conn 0 150 authed).0

close_conn-shuts_example :
    ((close_conn 0 150 authed).1 ≡ none)
    × IsShut ((close_conn 0 150 authed).0.conn_at 0)
    × IsSound (close_conn 0 150 authed).0
    × IsAbsent 0 (close_conn 0 150 authed).0
close_conn-shuts_example = close_conn-shuts 0 150 authed authed-IsSound (inr authed-state)

shut-state : (shut.conn_at 0).state ≡ conn_state_closed
unfolding shut
shut-state = (close_conn-shuts 0 150 authed authed-IsSound (inr authed-state)).1.final

shut-closed : ¬ IsOpen (shut.conn_at 0)
shut-closed o = ground (arith, shut-state)

shut-IsValid : IsValid shut
unfolding shut
shut-IsValid =
    Reach-IsValid start-IsValid (next to_authed (closes 0 150 (omega (arith, authed-next))))

reopened : Server
reopened = (on_opened 6 (some id1) 170 shut).0

to_reopened : Reach shut reopened
unfolding reopened
to_reopened = next here (opens 6 (some id1) 170)

Reach-closed_example : ((reopened.conn_at 0).state ≡ conn_state_closed) × IsAbsent 0 reopened
Reach-closed_example = Reach-closed 0 shut-IsValid shut-state to_reopened

opened-pools : opened.pools_fail ≡ false
unfolding opened on_opened new_server
opened-pools = refl

authed-same : (s : Server) → set_authed ann_session news 0 100 opened ≡ ok s → s ≡ authed
authed-same s e = cc authed_lem

pub authed-IsRegistered : IsRegistered ann_session 0 (news ∷ []) authed
authed-IsRegistered =
    let (s, returned, a) =
      set_authed-Authenticates ann_session news 0 100 opened opened-IsSound opened-init in
    let (sound, held, reg, same, count) = a in
    elim reg [
      | inl f ↦ absurd (ground (arith, opened-pools))
      | inr r ↦ subst (IsRegistered ann_session 0 (news ∷ [])) (authed-same s returned) r
    ]
