-- ===== src/Message/Ids.antt =====
-- repo/message/messageids.go: the ids of a connection's requests, and the futures that they lead to.
-- A future is an address.
use longcom.Base.{
  ℕ, zero, suc, ◌+◌, ◌%◌, ◌<◌, ◌≡◌, ◌≢◌, [], Option, none, some, arith, if◌then◌else◌, ◌==◌, nat_eq,
}
use longcom.Base.Dict.{Dict, load, store, delete, load-store, load-delete}

pub record MessageIdFuture : Type 0 where
  pub current_id : ℕ
  pub index : Dict ℕ ℕ

unfoldable pub new_message_id_future : MessageIdFuture
new_message_id_future = record { current_id = 0; index = [] }

-- The counter is a uint32.
unfoldable pub generate_id : MessageIdFuture → MessageIdFuture × ℕ
generate_id r =
    let sequence_id = (r.current_id + 1) % 4294967296 in
    (record r { current_id = sequence_id }, sequence_id)

unfoldable pub set_future : ℕ → ℕ → MessageIdFuture → MessageIdFuture
set_future sequence_id p r = record r { index = store sequence_id p r.index }

unfoldable pub get_future_and_free_id : ℕ → MessageIdFuture → MessageIdFuture × Option ℕ
get_future_and_free_id i r = elim (load i r.index) [
  | none ↦ (r, none)
  | some p ↦ (record r { index = delete i r.index }, some p)
]

unfoldable pub free_future : ℕ → MessageIdFuture → MessageIdFuture
free_future mid r = record r { index = delete mid r.index }

-- The state before the call of `GenerateID` that so many others preceded, and its id.
unfoldable pub generated : ℕ → MessageIdFuture → MessageIdFuture
unfolding generate_id
generated zero r = r
generated (suc n) r = (generate_id (generated n r)).0

unfoldable pub nth_id : ℕ → MessageIdFuture → ℕ
unfolding generated generate_id
nth_id n r = (generate_id (generated n r)).1

generated_lem :
    (n : ℕ) (r : MessageIdFuture)
    → r.current_id < 4294967296
    → (generated n r).current_id ≡ (r.current_id + n) % 4294967296
unfolding generated generate_id
generated_lem zero r h = omega arith
generated_lem (suc n) r h = let e = generated_lem n r h in omega arith

-- Of the ids that `GenerateID` returns from a counter that fits 32 bits, two that are less than
-- 2^32 calls apart are different.
pub nth_id-distinct :
    (i j : ℕ) (r : MessageIdFuture)
    → r.current_id < 4294967296
    → i < j
    → j < i + 4294967296
    → nth_id i r ≢ nth_id j r
unfolding nth_id generate_id
nth_id-distinct i j r h over under e =
    let d = generated_lem i r h in let f = generated_lem j r h in omega arith

-- `GetFutureAndFreeID` after `SetFuture` with the same id returns that future, and then the id is
-- free; the other ids lead where they led.
pub get_future_and_free_id-set_future :
    (i p : ℕ) (r : MessageIdFuture)
    → ((get_future_and_free_id i (set_future i p r)).1 ≡ some p)
      × ((k : ℕ)
          → load k (get_future_and_free_id i (set_future i p r)).0.index
            ≡ (if i == k then none else load k r.index))
unfolding get_future_and_free_id set_future
get_future_and_free_id-set_future i p r =
    let here = load-store i i p r.index in
    (
      ground (arith, here),
      λ k. ground (arith, here, load-store i k p r.index, load-delete i k (store i p r.index)),
    )
