-- ===== src/Mq/Consuming.antt =====
-- repo/mq/kafka/consumer.go and messageQueue.go: what a claim has marked and handled at its end.
use mathlib.Core.List.{append_assoc, append-nil}
use longcom.Base.{
  ℕ, ◌≡◌, refl, sym, ap, ◌∙◌, inl, inr, List, [], ◌∷◌, ◌++◌, Option, none, some, Text, Option-cases,
  nat_eq,
}
use longcom.Broker.Push.{PushMessage, PushTask, push_by_alias_message_handler}
use longcom.Broker.Server.{Server}
use longcom.Broker.Push.{Pushed}
use longcom.Errors.{Error}
use longcom.Mq.Consumer.{
  ConsumerMessage, Node, Claim, handle_push, unmarshal_error, mark_unless, consume_strictly,
  consume_by_alias, consume_claim,
}

-- The server after calls of the handler on one message after another, and the tasks of those calls.
unfoldable pub server_after : (PushMessage → Server → Pushed) → List PushMessage → Server → Server
server_after handler [] s = s
server_after handler (m ∷ ms) s = server_after handler ms (handler m s).0

unfoldable pub tasks_from :
    (PushMessage → Server → Pushed) → List PushMessage → Server → List PushTask
tasks_from handler [] s = []
tasks_from handler (m ∷ ms) s = (handler m s).1 ++ tasks_from handler ms (handler m s).0

-- A node after those calls.
abbrev pub after_pushes : (PushMessage → Server → Pushed) → List PushMessage → Node → Node
after_pushes handler ms n = record {
  server = server_after handler ms n.server;
  tasks = n.tasks ++ tasks_from handler ms n.server;
}

after_pushes-none :
    (handler : PushMessage → Server → Pushed) (n : Node) → n ≡ after_pushes handler [] n
unfolding server_after tasks_from
after_pushes-none handler n =
    ap (λ ts. record { server = n.server; tasks = ts }) (sym (append-nil n.tasks))

-- One message is handed over before the others.
after_pushes-next :
    (handler : PushMessage → Server → Pushed) (m : PushMessage) (ms : List PushMessage) (n : Node)
    → after_pushes handler ms (handle_push handler m n) ≡ after_pushes handler (m ∷ ms) n
unfolding handle_push server_after tasks_from
after_pushes-next handler m ms n =
    ap (λ ts. record { server = server_after handler ms (handler m n.server).0; tasks = ts })
      (append_assoc n.tasks (handler m n.server).1 (tasks_from handler ms (handler m n.server).0))

module _ (unmarshal : Text → Option PushMessage) where
  -- The messages that can be read, and their offsets.
  abbrev push_or : Option PushMessage → List PushMessage → List PushMessage
  push_or none ms = ms
  push_or (some m) ms = m ∷ ms

  abbrev offset_or : Option PushMessage → ℕ → List ℕ → List ℕ
  offset_or none n ns = ns
  offset_or (some m) n ns = n ∷ ns

  unfoldable pub readable : List ConsumerMessage → List PushMessage
  readable [] = []
  readable (c ∷ cs) = push_or (unmarshal c.value) (readable cs)

  unfoldable pub readable_offsets : List ConsumerMessage → List ℕ
  readable_offsets [] = []
  readable_offsets (c ∷ cs) = offset_or (unmarshal c.value) c.offset (readable_offsets cs)

  unfoldable pub offsets : List ConsumerMessage → List ℕ
  offsets [] = []
  offsets (c ∷ cs) = c.offset ∷ offsets cs

  readable_by_alias :
      (m : ConsumerMessage) (push : PushMessage) (n : Node)
      → unmarshal m.value ≡ some push
      → consume_by_alias unmarshal m n ≡ (handle_push push_by_alias_message_handler push n, none)
  unfolding consume_by_alias
  readable_by_alias m push n e = rw (e, consume_by_alias) refl

  unreadable_by_alias :
      (m : ConsumerMessage) (n : Node)
      → unmarshal m.value ≡ none
      → consume_by_alias unmarshal m n ≡ (n, none)
  unfolding consume_by_alias
  unreadable_by_alias m n e = rw (e, consume_by_alias) refl

  reads :
      (handler : PushMessage → Server → Pushed) (m : ConsumerMessage) (push : PushMessage)
      (n : Node)
      → unmarshal m.value ≡ some push
      → consume_strictly unmarshal handler m n ≡ (handle_push handler push n, none)
  unfolding consume_strictly
  reads handler m push n e = rw (e, consume_strictly) refl

  unreadable :
      (handler : PushMessage → Server → Pushed) (m : ConsumerMessage) (n : Node)
      → unmarshal m.value ≡ none
      → consume_strictly unmarshal handler m n ≡ (n, some unmarshal_error)
  unfolding consume_strictly
  unreadable handler m n e = rw (e, consume_strictly) refl

  claim_next :
      (handler : ConsumerMessage → Node → Node × Option Error) (m : ConsumerMessage)
      (messages : List ConsumerMessage) (c : Claim) (n : Node) (e : Option Error)
      → handler m c.node ≡ (n, e)
      → consume_claim handler (m ∷ messages) c
        ≡ consume_claim handler messages (record { node = n; marked = mark_unless e m c.marked })
  unfolding consume_claim
  claim_next handler m messages c n e h = rw h refl

  marked_more :
      (n : Node) (marked : List ℕ) (o : ℕ) (os : List ℕ)
      → ◌≡◌ {A = Claim}
          (record { node = n; marked = (marked ++ o ∷ []) ++ os })
          (record { node = n; marked = marked ++ o ∷ os })
  marked_more n marked o os =
      ap (λ t. record { node = n; marked = t }) (append_assoc marked (o ∷ []) os)

  marked_none : (c : Claim) → ◌≡◌ {A = Claim} c (record { node = c.node; marked = c.marked ++ [] })
  marked_none c = ap (λ t. record { node = c.node; marked = t }) (sym (append-nil c.marked))

  handed_over :
      (handler : PushMessage → Server → Pushed) (m : PushMessage) (ms : List PushMessage) (n : Node)
      (marked : List ℕ)
      → ◌≡◌ {A = Claim}
          (record { node = after_pushes handler ms (handle_push handler m n); marked = marked })
          (record { node = after_pushes handler (m ∷ ms) n; marked = marked })
  handed_over handler m ms n marked =
      ap (λ k. record { node = k; marked = marked }) (after_pushes-next handler m ms n)

  -- A claim of the alias topic marks every message, and hands on those that can be read, in order.
  pub consume_claim-by_alias :
      (messages : List ConsumerMessage) (c : Claim)
      → consume_claim (consume_by_alias unmarshal) messages c ≡ record {
        node = after_pushes push_by_alias_message_handler (readable messages) c.node;
        marked = c.marked ++ offsets messages;
      }
  unfolding consume_claim readable offsets
  consume_claim-by_alias [] c =
      marked_none c
      ∙ ap (λ n. record { node = n; marked = c.marked ++ [] })
          (after_pushes-none push_by_alias_message_handler c.node)
  consume_claim-by_alias (m ∷ messages) c = elim (Option-cases (unmarshal m.value)) [
    | inl e ↦
        claim_next (consume_by_alias unmarshal) m messages c c.node none
          (unreadable_by_alias m c.node e)
        ∙ consume_claim-by_alias messages
            (record { node = c.node; marked = c.marked ++ m.offset ∷ [] })
        ∙ (rw e (marked_more _ c.marked m.offset (offsets messages)))
    | inr (push, e) ↦
        let n = handle_push push_by_alias_message_handler push c.node in
        claim_next (consume_by_alias unmarshal) m messages c n none
          (readable_by_alias m push c.node e)
        ∙ consume_claim-by_alias messages (record { node = n; marked = c.marked ++ m.offset ∷ [] })
        ∙ (rw e (
            marked_more _ c.marked m.offset (offsets messages)
            ∙ handed_over push_by_alias_message_handler push (readable messages) c.node _))
  ]

  -- A claim of the topic for all or of the topic by topic, at its end, has marked exactly the
  -- messages that `Unmarshal` reads, and has called the handler with exactly these, in order: the
  -- server is what the calls leave one after another, and the tasks of each call are added. An
  -- error of the handler changes nothing of it.
  pub consume_claim-strictly :
      (handler : PushMessage → Server → Pushed) (messages : List ConsumerMessage) (c : Claim)
      → consume_claim (consume_strictly unmarshal handler) messages c ≡ record {
        node = after_pushes handler (readable messages) c.node;
        marked = c.marked ++ readable_offsets messages;
      }
  unfolding consume_claim readable readable_offsets
  consume_claim-strictly handler [] c =
      marked_none c
      ∙ ap (λ n. record { node = n; marked = c.marked ++ [] }) (after_pushes-none handler c.node)
  consume_claim-strictly handler (m ∷ messages) c = elim (Option-cases (unmarshal m.value)) [
    | inl e ↦
        claim_next (consume_strictly unmarshal handler) m messages c c.node (some unmarshal_error)
          (unreadable handler m c.node e)
        ∙ consume_claim-strictly handler messages (record { node = c.node; marked = c.marked })
        ∙ (rw e refl)
    | inr (push, e) ↦
        let n = handle_push handler push c.node in
        claim_next (consume_strictly unmarshal handler) m messages c n none
          (reads handler m push c.node e)
        ∙ consume_claim-strictly handler messages
            (record { node = n; marked = c.marked ++ m.offset ∷ [] })
        ∙ (rw e (
            marked_more _ c.marked m.offset (readable_offsets messages)
            ∙ handed_over handler push (readable messages) c.node _))
  ]
