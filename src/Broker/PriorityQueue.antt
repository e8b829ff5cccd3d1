-- ===== src/Broker/PriorityQueue.antt =====
-- broker/heartbeat.go: the priority queue of the heartbeat timer, a binary min-heap in a slice of
-- pointers, with `Push`, `Pop`, `Remove` and `Fix` of Go's container/heap. A `*PQItem` is an address
-- in the heap `item_at`. Every read of the slice below is at an index under its length, but where
-- `remove` and `update` start, which say what Go does there.
pub mod Swap
pub mod Changing
pub mod Taking
pub mod Removal
pub mod Operations
pub mod Down
pub mod Sink
pub mod Up
use longcom.Base.{
  ℕ, zero, suc, ◌+◌, ◌-◌, ◌*◌, ◌/◌, Bool, true, false, not, ◌&&◌, List, [], ◌∷◌, ◌++◌, Option, none,
  some, length, get_or, set, take, ltb, if◌then◌else◌, ◌==◌, nat_eq,
}
use longcom.Base.Int.{ℤ, ltb_ℤ}
use longcom.Base.Run.{Run, ok, panic}

-- `index` is `none` for the -1 of an item that was popped.
pub record PqItem : Type 0 where
  pub value : ℕ
  pub priority : ℤ
  pub index : Option ℕ

pub record PriorityQueue : Type 0 where
  pub slots : List ℕ
  pub item_at : ℕ → PqItem

abbrev pub len : PriorityQueue → ℕ
len q = length q.slots

abbrev pub slot : PriorityQueue → ℕ → ℕ
slot q i = get_or q.slots i 0

-- The priority of the item in a slot.
abbrev pub key : PriorityQueue → ℕ → ℤ
key q i = (q.item_at (slot q i)).priority

-- `Less`
abbrev pub less : PriorityQueue → ℕ → ℕ → Bool
less q i j = ltb_ℤ (key q i) (key q j)

-- A write of one field through a pointer.
abbrev pub set_index : ℕ → Option ℕ → (ℕ → PqItem) → ℕ → PqItem
set_index a i items b = if a == b then record (items b) { index = i } else items b

abbrev pub set_priority : ℕ → ℤ → (ℕ → PqItem) → ℕ → PqItem
set_priority a p items b = if a == b then record (items b) { priority = p } else items b

-- `Swap`
unfoldable pub swap : ℕ → ℕ → PriorityQueue → PriorityQueue
swap i j q =
    let slots = set (set q.slots i (slot q j)) j (slot q i) in
    record {
      slots = slots;
      item_at =
          set_index (get_or slots j 0) (some j) (set_index (get_or slots i 0) (some i) q.item_at);
    }

abbrev pub parent : ℕ → ℕ
parent j = (j - 1) / 2

-- `up` of container/heap: an index falls in each round, so one more round than it is enough.
unfoldable pub up_loop : ℕ → ℕ → PriorityQueue → PriorityQueue
up_loop zero j q = q
up_loop (suc fuel) j q =
    let i = parent j in
    let rest = up_loop fuel i (swap i j q) in if i == j then q else if less q j i then rest else q

unfoldable pub up : ℕ → PriorityQueue → PriorityQueue
unfolding up_loop swap
up j q = up_loop (j + 1) j q

-- The child that `down` compares: the right one if it is in the heap and less.
unfoldable pub smaller_child : ℕ → ℕ → PriorityQueue → ℕ
smaller_child i n q =
    let j1 = 2 * i + 1 in let j2 = j1 + 1 in if ltb j2 n && less q j2 j1 then j2 else j1

-- `down`: it returns where the item ended too. An index rises in each round, and stays under `n`.
unfoldable pub down_loop : ℕ → ℕ → ℕ → PriorityQueue → PriorityQueue × ℕ
down_loop zero i n q = (q, i)
down_loop (suc fuel) i n q =
    let j = smaller_child i n q in
    let rest = down_loop fuel j n (swap i j q) in
    if ltb (2 * i + 1) n then if less q j i then rest else (q, i) else (q, i)

unfoldable pub down : ℕ → ℕ → PriorityQueue → PriorityQueue × Bool
unfolding down_loop smaller_child swap
down i0 n q = let (q', i) = down_loop n i0 n q in (q', ltb i0 i)

-- The method `Push`: the item goes to the end of the slice.
unfoldable pub append_item : ℕ → PriorityQueue → PriorityQueue
append_item a q = record {
  slots = q.slots ++ a ∷ [];
  item_at = set_index a (some (len q)) q.item_at;
}

-- The method `Pop`, on a slice that is not empty: the last item leaves it.
unfoldable pub take_last : PriorityQueue → PriorityQueue × ℕ
take_last q =
    let n = len q - 1 in
    let a = slot q n in (record { slots = take n q.slots; item_at = set_index a none q.item_at }, a)

unfoldable pub push : ℕ → PriorityQueue → PriorityQueue
unfolding append_item up
push a q = up (len q) (append_item a q)

-- `Pop`: `none` for the nil of an empty queue.
unfoldable pub pop : PriorityQueue → Option (PriorityQueue × ℕ)
unfolding swap down take_last
pop q = if len q == 0 then none else let n = len q - 1 in some (take_last (down 0 n (swap 0 n q)).0)

abbrev pub up_unless : ℕ → PriorityQueue × Bool → PriorityQueue
up_unless i (q, moved) = if moved then q else up i q

-- `heap.Remove` at an index of the slice.
unfoldable pub remove_at : ℕ → PriorityQueue → PriorityQueue × ℕ
unfolding swap down up take_last
remove_at i q =
    let n = len q - 1 in take_last (if n == i then q else up_unless i (down i n (swap i n q)))

-- `Remove`: the index -1, or one past the slice, panics.
unfoldable pub remove : ℕ → PriorityQueue → Run PriorityQueue
unfolding remove_at
remove a q = elim (q.item_at a).index [
  | none ↦ panic
  | some i ↦ if ltb i (len q) then ok (remove_at i q).0 else panic
]

-- `heap.Fix` at an index of the slice.
unfoldable pub fix_at : ℕ → PriorityQueue → PriorityQueue
unfolding down up
fix_at i q = up_unless i (down i (len q) q)

-- `Update`: the priority is written first. At -1, and at 0 in an empty slice, `heap.Fix` reads
-- nothing; at another index past the slice it panics.
unfoldable pub update : ℕ → ℤ → PriorityQueue → Run PriorityQueue
unfolding fix_at
update a p q =
    let q' = record q { item_at = set_priority a p q.item_at } in
    elim (q.item_at a).index [
      | none ↦ ok q'
      | some i ↦ if ltb i (len q) then ok (fix_at i q') else if i == 0 then ok q' else panic
    ]
