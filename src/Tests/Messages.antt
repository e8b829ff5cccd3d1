-- ===== src/Tests/Messages.antt =====
-- Futures and ids at concrete inputs.
use longcom.Base.{ℕ, ◌≡◌, ◌≢◌, refl, true, false, [], ◌∷◌, none, some, arith, nat_eq}
use longcom.Message.Future.{
  Future, IsOnce, Comes, new_future, get, invoke, happen, terminates, invokes, gets, by_error,
  by_value, happen-Comes, get_after_invoke,
}
use longcom.Message.Ids.{MessageIdFuture, nth_id, nth_id-distinct}

abbrev new : Future ℕ ℕ
unfolding new_future
new = new_future

new-IsOnce : IsOnce new
unfolding new_future new
new-IsOnce = record { closing = refl; unset = λ t. refl; single = refl }

-- Errors and values are numbers here; the value 7 is set.
set_once : Future ℕ ℕ
unfolding new invoke
set_once = (invoke 1 (some 7) none new).0

set_once-terminated : set_once.terminated ≡ true
unfolding set_once new_future new invoke
set_once-terminated = refl

happen-Comes_example :
    Comes set_once
      (happen (terminates 2 ∷ invokes 1 (some 8) none ∷ gets by_value false 3 ∷ []) set_once)
happen-Comes_example =
    happen-Comes (terminates 2 ∷ invokes 1 (some 8) none ∷ gets by_value false 3 ∷ []) set_once
      set_once-terminated

get_after_invoke_example :
    (get by_value false 3 (invoke 1 (some 7) none new).0
      ≡ some ((some 7, none), record new { terminated = true; closed = true; value_chan = none }))
    × (get by_error false 3 (invoke 1 (some 7) none new).0
        ≡ some ((none, none), (invoke 1 (some 7) none new).0))
unfolding new new_future
get_after_invoke_example = get_after_invoke 1 3 7 new new-IsOnce refl

abbrev ids : MessageIdFuture
ids = record { current_id = 4294967295; index = [] }

nth_id-distinct_example : nth_id 0 ids ≢ nth_id 5 ids
nth_id-distinct_example = nth_id-distinct 0 5 ids (omega arith) (omega arith) (omega arith)
