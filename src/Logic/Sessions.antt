-- ===== src/Logic/Sessions.antt =====
-- logic/state_logic.go: what `valueMap` reads of the fields of one node.
use mathlib.Core.Path.{ap}
use longcom.Base.{
  ℕ, zero, suc, ◌+◌, ◌<◌, ◌≤◌, ◌≡◌, refl, ◌∙◌, true, false, [], ◌∷◌, Option, none, some, Text,
  bytes, arith, contains, length, length-append, Bool-cases, inl, inr, ◌==◌, text_eq, text_beq,
  nat_eq,
}
use longcom.Base.Dict.{Dict, load, store}
use longcom.Base.Int.{pos}
use longcom.Base.Decimal.{format_int, parse_int-format_int, max_int}
use longcom.Logic.Calls.{user_state_field}
use longcom.Logic.UserState.{
  UserState, cut_at, set_time, add_time, add_field, add_fields, value_map, cut_at-append,
}
use longcom.Logic.States.{node_key, node_key-plain, add_field-cut}
use longcom.Logic.Redis.{Hash, reply_of, cache_expire_state}

module _ (node : Text) (plain : contains node b'_' ≡ false) where
  abbrev pub connect_field : Text
  connect_field = user_state_field node (bytes "connect")

  abbrev pub disconnect_field : Text
  disconnect_field = user_state_field node (bytes "disconnect")

  pub fields_differ : (connect_field == disconnect_field) ≡ false
  unfolding user_state_field
  fields_differ = elim (Bool-cases (connect_field == disconnect_field)) [
    | inr e ↦ e
    | inl e ↦
        let same = ap (length {A = ℕ}) ((text_eq.beq_iff connect_field disconnect_field).0 e) in
        absurd (
          omega (
            arith,
            same,
            length-append node (bytes "_connect"),
            length-append node (bytes "_disconnect"),
          ))
  ]

  cut_field : (f : Text) → cut_at b'_' (user_state_field node f) ≡ some (node_key node, f)
  unfolding user_state_field
  cut_field f = cut_at-append b'_' (node_key node) f (node_key-plain node plain)

  abbrev pub connect_hash : ℕ → Hash
  connect_hash t₀ = record { fields = (connect_field, format_int t₀) ∷ []; expires = none }

  abbrev pub left_fields : ℕ → ℕ → Dict Text Text
  left_fields t₀ t₁ = (connect_field, format_int t₀) ∷ (disconnect_field, format_int t₁) ∷ []

  abbrev pub left_hash : ℕ → ℕ → Hash
  left_hash t₀ t₁ = record { fields = left_fields t₀ t₁; expires = some (t₁ + cache_expire_state) }

  -- The state of a user that was connected at the one time and left at the other.
  abbrev pub past_state : ℕ → ℕ → UserState
  past_state t₀ t₁ = record { node = node_key node; connect_time = t₀; disconnect_time = t₁ }

  value_map-four :
      (k v k' v' : Option Text)
      → value_map (k ∷ v ∷ k' ∷ v' ∷ []) ≡ add_field k' v' (add_field k v [])
  unfolding value_map add_fields
  value_map-four k v k' v' = refl

  add_connect :
      (t₀ : ℕ)
      → add_time (pos (suc t₀)) (node_key node, bytes "connect") []
        ≡ (node_key node, past_state (suc t₀) 0) ∷ []
  unfolding add_time load store set_time text_beq
  add_connect t₀ = refl

  add_disconnect :
      (t₀ t₁ : ℕ)
      → add_time
          (pos (suc t₁))
          (node_key node, bytes "disconnect")
          ((node_key node, past_state t₀ 0) ∷ [])
        ≡ (node_key node, past_state t₀ (suc t₁)) ∷ []
  unfolding add_time load store set_time text_beq
  add_disconnect t₀ t₁ =
      let same : text_beq node node ≡ true = (text_eq.beq_iff node node).1 refl in rw same refl

  field_read :
      (f : Text) (t : ℕ) (h : Dict Text UserState)
      → t ≤ max_int
      → add_field (some (user_state_field node f)) (some (format_int t)) h
        ≡ add_time (pos t) (node_key node, f) h
  field_read f t h fits =
      add_field-cut (user_state_field node f) (format_int t) (node_key node, f) h (cut_field f)
      ∙ ap (λ n. add_time n (node_key node, f) h) (parse_int-format_int t fits)

  pub value_map-left :
      (t₀ t₁ : ℕ)
      → 0 < t₀
      → 0 < t₁
      → t₀ ≤ max_int
      → t₁ ≤ max_int
      → value_map (reply_of (left_fields t₀ t₁)) ≡ (node_key node, past_state t₀ t₁) ∷ []
  unfolding reply_of
  value_map-left zero t₁ a b c d = absurd (omega arith)
  value_map-left (suc t₀) zero a b c d = absurd (omega arith)
  value_map-left (suc t₀) (suc t₁) a b c d =
      value_map-four _ _ _ _
      ∙ (rw (field_read (bytes "connect") (suc t₀) [] c, add_connect t₀)
          (field_read (bytes "disconnect") (suc t₁) _ d ∙ add_disconnect (suc t₀) t₁))
