-- ===== src/Message/Future.antt =====
-- repo/message/future.go: a result, received from one of two channels with room for one value each.
-- `Terminate` and `Invoke` are one step each: a `Get` that comes in between is not modelled. `none`
-- is Go's nil, for a value as for an error.
use longcom.Base.{
  ◌≡◌, refl, Bool, true, false, ◌&&◌, ◌||◌, ◌⊎◌, inl, inr, List, [], ◌∷◌, Option, none, some, arith,
  if◌then◌else◌, Option-cases,
}
use longcom.Base.Dict.{is_some}

-- `errC` and `valueC` are always closed together.
pub record Future (E V : Type 0) : Type 0 where
  pub terminated : Bool
  pub err_chan : Option E
  pub value_chan : Option V
  pub closed : Bool

-- The branches of the `select` of `Get`.
pub data Branch : Type 0 where
  by_context by_error by_value : Branch

-- The value and the error that `Get` returns.
abbrev pub Got : Type 0 → Type 0 → Type 0
Got E V = Option V × Option E

-- What may happen to a future, in any order: the calls, and receives that a branch was ready for.
pub data Event (E V : Type 0) : Type 0 where
  terminates : E → Event E V
  invokes : E → Option V → Option E → Event E V
  gets : Branch → Bool → E → Event E V

module _ {E V : Type 0} where
  unfoldable pub new_future : Future E V
  new_future = record { terminated = false; err_chan = none; value_chan = none; closed = false }

  -- A receive from a channel that is closed and empty yields nil at once.
  unfoldable pub get :
      Branch
      → (context_done : Bool) (context_error : E) → Future E V
      → Option (Got E V × Future E V)
  get by_context context_done context_error f =
      if context_done then some ((none, some context_error), f) else none
  get by_error context_done context_error f = elim f.err_chan [
    | some e ↦ some ((none, some e), record f { err_chan = none })
    | none ↦ if f.closed then some ((none, none), f) else none
  ]
  get by_value context_done context_error f = elim f.value_chan [
    | some v ↦ some ((some v, none), record f { value_chan = none })
    | none ↦ if f.closed then some ((none, none), f) else none
  ]

  unfoldable pub terminate : E → Future E V → Future E V
  terminate terminated_error f =
      if f.terminated
      then f
      else record f { terminated = true; err_chan = some terminated_error; closed = true }

  unfoldable pub invoke : E → Option V → Option E → Future E V → Future E V × Option E
  invoke again_error value none f =
      if f.terminated
      then (f, some again_error)
      else (record f { terminated = true; value_chan = value; closed = true }, none)
  invoke again_error value (some e) f =
      if f.terminated
      then (f, some again_error)
      else (record f { terminated = true; err_chan = some e; closed = true }, none)

  after_get : Future E V → Option (Got E V × Future E V) → Future E V
  after_get f none = f
  after_get f (some (got, g)) = g

  unfoldable pub happens : Event E V → Future E V → Future E V
  unfolding terminate invoke get after_get
  happens (terminates e) f = terminate e f
  happens (invokes again v e) f = (invoke again v e f).0
  happens (gets b done e) f = after_get f (get b done e f)

  unfoldable pub happen : List (Event E V) → Future E V → Future E V
  happen [] f = f
  happen (e ∷ es) f = happen es (happens e f)

  -- Nothing is in a channel before the future is set, and never a value and an error.
  pub record IsOnce (f : Future E V) : Type 0 where
    pub closing : f.closed ≡ f.terminated
    pub unset : f.terminated ≡ false → (is_some f.err_chan || is_some f.value_chan) ≡ false
    pub single : (is_some f.err_chan && is_some f.value_chan) ≡ false

  happens-IsOnce : (e : Event E V) (f : Future E V) → IsOnce f → IsOnce (happens e f)
  unfolding happens
  happens-IsOnce (terminates e) f v = ground (arith, v)
  happens-IsOnce (invokes again value none) f v = ground (arith, v)
  happens-IsOnce (invokes again value (some e)) f v = ground (arith, v)
  happens-IsOnce (gets by_context done e) f v = ground (arith, v)
  happens-IsOnce (gets by_error done e) f v = elim (Option-cases f.err_chan) [
    | inl n ↦ ground (arith, v, n)
    | inr (x, n) ↦ ground (arith, v, n)
  ]
  happens-IsOnce (gets by_value done e) f v = elim (Option-cases f.value_chan) [
    | inl n ↦ ground (arith, v, n)
    | inr (x, n) ↦ ground (arith, v, n)
  ]

  pub happen-IsOnce : (es : List (Event E V)) (f : Future E V) → IsOnce f → IsOnce (happen es f)
  unfolding happen
  happen-IsOnce [] f v = v
  happen-IsOnce (e ∷ es) f v = happen-IsOnce es (happens e f) (happens-IsOnce e f v)

  -- What is in the channels was put there by the first call: later ones change nothing.
  abbrev pub Comes : Future E V → Future E V → Type 0
  Comes f g =
      (g.terminated ≡ true)
      × ((g.err_chan ≡ f.err_chan) ⊎ (g.err_chan ≡ none))
      × ((g.value_chan ≡ f.value_chan) ⊎ (g.value_chan ≡ none))

  happens-Comes : (e : Event E V) (f : Future E V) → f.terminated ≡ true → Comes f (happens e f)
  unfolding happens
  happens-Comes (terminates e) f t = ground (arith, t)
  happens-Comes (invokes again value none) f t = ground (arith, t)
  happens-Comes (invokes again value (some e)) f t = ground (arith, t)
  happens-Comes (gets by_context done e) f t = ground (arith, t)
  happens-Comes (gets by_error done e) f t = elim (Option-cases f.err_chan) [
    | inl n ↦ ground (arith, t, n)
    | inr (x, n) ↦ ground (arith, t, n)
  ]
  happens-Comes (gets by_value done e) f t = elim (Option-cases f.value_chan) [
    | inl n ↦ ground (arith, t, n)
    | inr (x, n) ↦ ground (arith, t, n)
  ]

  Comes-trans : (f g h : Future E V) → Comes f g → Comes g h → Comes f h
  Comes-trans f g h (t, e, v) (u, d, w) = (u, ground (arith, e, d), ground (arith, v, w))

  pub happen-Comes :
      (es : List (Event E V)) (f : Future E V) → f.terminated ≡ true → Comes f (happen es f)
  unfolding happen
  happen-Comes [] f t = (t, inl refl, inl refl)
  happen-Comes (e ∷ es) f t =
      let first = happens-Comes e f t in
      Comes-trans f (happens e f) (happen es (happens e f)) first
        (happen-Comes es (happens e f) first.0)

  -- `Get` on a future in order that `Invoke` sets to a value for the first time, with no context
  -- done, returns the value if it takes the branch of the values; but the branch of the errors is
  -- ready too, and there it returns neither a value nor an error.
  pub get_after_invoke :
      (again error : E) (value : V) (f : Future E V)
      → IsOnce f
      → f.terminated ≡ false
      → (get by_value false error (invoke again (some value) none f).0
          ≡ some (
            (some value, none),
            record f { terminated = true; closed = true; value_chan = none },
          ))
        × (get by_error false error (invoke again (some value) none f).0
            ≡ some ((none, none), (invoke again (some value) none f).0))
  unfolding get invoke
  get_after_invoke again error value f v t = elim (Option-cases f.err_chan) [
    | inl n ↦ (ground (arith, t, n, v), ground (arith, t, n, v))
    | inr (x, n) ↦ absurd (ground (arith, t, n, v.unset t))
  ]
