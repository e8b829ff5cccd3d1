-- ===== src/AccessLog.antt =====
-- repo/accesslog/log.go: the two filters around a call. What a handler does and the identifiers of
-- `uuid` are parameters; `zap` gets a list of entries. Bodies are what the JSON library makes of them.
use mathlib.Core.List.{append_assoc}
use longcom.Base.{
  ℕ, map, ap, ◌∙◌, ◌≡◌, refl, Bool, true, false, List, [], ◌∷◌, ◌++◌, Option, none, some, Text,
  bytes, ltb, length, if◌then◌else◌, ◌==◌, text_eq,
}
use longcom.Base.Dict.{Dict}
use longcom.Errors.{Error}

-- The message of trpc's codec, as far as it is read.
pub record Message : Type 0 where
  pub rpc_name : Text
  pub meta_data : Dict Text Text
  pub remote_addr : Option Text
  pub local_addr : Option Text

-- A context: the trace id that it carries.
pub record Context : Type 0 where
  pub trace_id : Option Text
  pub message : Message

pub record Entry : Type 0 where
  pub title : Text
  pub remote_ip : Text
  pub local_ip : Text
  pub method : Text
  pub cost_ms : ℕ
  pub rsp : Text
  pub meta : Dict Text Text
  pub tid : Text
  pub req : Option Text
  pub err : Option Error

abbrev address : Option Text → Text
address none = []
address (some a) = a

-- `getTraceID`, with the identifier that `uuid.New` would return.
unfoldable pub get_trace_id : (fresh : Text) → Context → Context × Text
get_trace_id fresh ctx = elim ctx.trace_id [
  | none ↦ (record ctx { trace_id = some fresh }, fresh)
  | some trace_id ↦ (ctx, trace_id)
]

-- What a handler answers, after the entries that it logs itself.
pub record Answer : Type 0 where
  pub rsp : Text
  pub err : Option Error
  pub logged : List Entry

abbrev entry : Text → Context → Text → ℕ → Option Text → Answer → Entry
entry title ctx trace_id cost req a = record {
  title = title;
  remote_ip = address ctx.message.remote_addr;
  local_ip = address ctx.message.local_addr;
  method = ctx.message.rpc_name;
  cost_ms = cost;
  rsp = a.rsp;
  meta = ctx.message.meta_data;
  tid = trace_id;
  req = req;
  err = a.err;
}

-- `ServerFilter`
unfoldable pub server_filter :
    (fresh : Text) (cost : ℕ) → Context → (req : Text) → (Context → Text → Answer) → Answer
unfolding get_trace_id
server_filter fresh cost ctx req handler =
    let traced = get_trace_id fresh ctx in
    let a = handler traced.0 req in
    if traced.0.message.rpc_name == bytes "/" then a else record a {
      logged =
          a.logged
          ++ entry (bytes "access_log") traced.0 traced.1 cost
              (if ltb (length req) 1000 then some req else none) a
            ∷ [];
    }

-- `ClientFilter`
unfoldable pub client_filter :
    (fresh : Text) (cost : ℕ) → Context → (req : Text) → (Context → Text → Answer) → Answer
unfolding get_trace_id
client_filter fresh cost ctx req handler =
    let traced = get_trace_id fresh ctx in
    let a = handler traced.0 req in
    record a {
      logged = a.logged ++ entry (bytes "rpc_log") traced.0 traced.1 cost (some req) a ∷ [];
    }

abbrev pub tid_of : Entry → Text
tid_of e = e.tid

map_tid-append : (es fs : List Entry) → map tid_of (es ++ fs) ≡ map tid_of es ++ map tid_of fs
map_tid-append [] fs = refl
map_tid-append (e ∷ es) fs = ap (λ l. e.tid ∷ l) (map_tid-append es fs)

logged_once :
    (es : List Entry) (e : Entry) → map tid_of (es ++ e ∷ []) ≡ map tid_of es ++ e.tid ∷ []
logged_once es e = map_tid-append es (e ∷ [])

logged_twice :
    (es : List Entry) (e e' : Entry)
    → map tid_of ((es ++ e ∷ []) ++ e' ∷ []) ≡ map tid_of es ++ e.tid ∷ e'.tid ∷ []
logged_twice es e e' =
    ap (map tid_of) (append_assoc es (e ∷ []) (e' ∷ [])) ∙ map_tid-append es (e ∷ e' ∷ [])

module _ (fresh fresh' : Text) (cost cost' : ℕ) (ctx : Context) (m : Message) (req req' : Text)
    (call : Context → Text → Answer) where
  -- The id of the trace that the filter of the server works in.
  abbrev pub trace : Text
  trace = (get_trace_id fresh ctx).1

  -- A handler that makes a call of its own, with the message of that call.
  abbrev pub calling : Context → Text → Answer
  calling ctx' r = client_filter fresh' cost' (record ctx' { message = m }) req' call

  abbrev pub called : Answer
  called = call (record { trace_id = some trace; message = m }) req'

  abbrev pub IsTraced : Answer → Type 0
  IsTraced a =
      (a.rsp ≡ called.rsp)
      × (a.err ≡ called.err)
      × (map tid_of a.logged
          ≡ map tid_of called.logged
            ++ trace ∷ (if ctx.message.rpc_name == bytes "/" then [] else trace ∷ []))

module _ (fresh fresh' : Text) (cost cost' : ℕ) (n m : Message) (req req' : Text)
    (call : Context → Text → Answer) where
  by_trace_id :
      (o : Option Text) (b : Bool)
      → (n.rpc_name == bytes "/") ≡ b
      → IsTraced fresh fresh' cost cost'
          (record { trace_id = o; message = n })
          m
          req
          req'
          call
          (server_filter fresh cost
            (record { trace_id = o; message = n })
            req
            (calling fresh fresh' cost cost'
              (record { trace_id = o; message = n })
              m
              req
              req'
              call))
  unfolding server_filter client_filter get_trace_id
  by_trace_id none true e = (rw e refl, rw e refl, rw e (logged_once _ _))
  by_trace_id none false e = (rw e refl, rw e refl, rw e (logged_twice _ _ _))
  by_trace_id (some t) true e = (rw e refl, rw e refl, rw e (logged_once _ _))
  by_trace_id (some t) false e = (rw e refl, rw e refl, rw e (logged_twice _ _ _))

-- If a handler makes a call through `ClientFilter`, then the two filters return what is answered to
-- the call, and log after it, each with the same trace id, the one of the context if it has one:
-- the call always, and the request of the handler unless its method is `/`.
pub server_filter-trace :
    (fresh fresh' : Text) (cost cost' : ℕ) (ctx : Context) (m : Message) (req req' : Text)
    (call : Context → Text → Answer)
    → let a =
        server_filter fresh cost ctx req (calling fresh fresh' cost cost' ctx m req req' call) in
      let tid = (get_trace_id fresh ctx).1 in
      let answer = call (record { trace_id = some tid; message = m }) req' in
      (a.rsp ≡ answer.rsp)
      × (a.err ≡ answer.err)
      × (map tid_of a.logged
          ≡ map tid_of answer.logged
            ++ tid ∷ (if ctx.message.rpc_name == bytes "/" then [] else tid ∷ []))
server_filter-trace fresh fresh' cost cost' ctx m req req' call =
    by_trace_id fresh fresh' cost cost' ctx.message m req req' call ctx.trace_id _ refl
