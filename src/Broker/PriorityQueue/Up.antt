-- ===== src/Broker/PriorityQueue/Up.antt =====
-- `up` of container/heap on the queue: it repairs the heap order above one slot.
use longcom.Base.{
  ℕ, zero, suc, ◌+◌, ◌<◌, ◌≤◌, ◌≡◌, ◌≢◌, refl, true, arith, if◌then◌else◌, ◌==◌, nat_eq, Bool-cases,
  inl, inr,
}
use longcom.Base.Int.{◌≤ℤ◌}
use longcom.Broker.PriorityQueue.{PriorityQueue, len, slot, key, less, swap, parent, up_loop, up}
use longcom.Broker.PriorityQueue.Swap.{
  IsIndexed, SameItems, SameItems-refl, SameItems-trans, len-swap, key-swap, swap-SameItems,
  swap-IsIndexed, slot-swap,
}

-- Of the first `n` slots, none has a higher priority than its parent.
abbrev pub IsHeap : ℕ → PriorityQueue → Type 0
IsHeap n q = (c : ℕ) → 0 < c → c < n → key q (parent c) ≤ℤ key q c

-- The same, but for the edge above the slot `j`, which the edges around it bridge.
pub record UpHole (j n : ℕ) (q : PriorityQueue) : Type 0 where
  pub edges : (c : ℕ) → 0 < c → c < n → c ≢ j → key q (parent c) ≤ℤ key q c
  pub bridge : (c : ℕ) → 0 < c → c < n → parent c ≡ j → 0 < j → key q (parent j) ≤ℤ key q c

-- What an operation that only moves items keeps.
pub record Moves (q q' : PriorityQueue) : Type 0 where
  pub same_items : SameItems q q'
  pub indexed : IsIndexed q → IsIndexed q'

pub Moves-refl : (q : PriorityQueue) → Moves q q
Moves-refl q = record { same_items = SameItems-refl q; indexed = λ v. v }

pub Moves-trans : {p q r : PriorityQueue} → Moves p q → Moves q r → Moves p r
Moves-trans s t = record {
  same_items = SameItems-trans s.same_items t.same_items;
  indexed = λ v. t.indexed (s.indexed v);
}

pub swap-Moves : (i j : ℕ) (q : PriorityQueue) → i < len q → j < len q → Moves q (swap i j q)
swap-Moves i j q hi hj = record {
  same_items = swap-SameItems i j q hi hj;
  indexed = swap-IsIndexed i j q hi hj;
}

module _ (j n : ℕ) (q : PriorityQueue) (hj : j < n) (hn : n ≤ len q) (above : 0 < j) where
  abbrev raised : PriorityQueue
  raised = swap (parent j) j q

  raised-key :
      (c : ℕ)
      → key raised c
        ≡ (if j == c then key q (parent j) else if parent j == c then key q j else key q c)
  raised-key c = key-swap (parent j) j q (omega arith) (omega arith) c

  raised-UpHole : UpHole j n q → less q j (parent j) ≡ true → UpHole (parent j) n raised
  raised-UpHole v l = record {
    edges = λ c pos_c h n.
        ground
          (arith, raised-key c, raised-key (parent c), v.edges c pos_c h, v.bridge c pos_c h, l);
    bridge = λ c pos_c h e pos_i. ground (
      arith,
      raised-key c,
      raised-key (parent (parent j)),
      v.edges c pos_c h,
      v.edges (parent j),
      l,
    );
  }

pub UpHole-IsHeap :
    (j n : ℕ) (q : PriorityQueue)
    → UpHole j n q
    → (0 < j → j < n → key q (parent j) ≤ℤ key q j)
    → IsHeap n q
UpHole-IsHeap j n q v e c pos_c h = elim (Bool-cases (c == j)) [
  | inl same ↦ ground (arith, same, e)
  | inr other ↦ v.edges c pos_c h (ground (arith, other))
]

-- What `up` and `down` do to a queue whose first `n` slots they order.
abbrev pub Orders : ℕ → PriorityQueue → PriorityQueue → Type 0
Orders n q q' = IsHeap n q' × Moves q q'

up_loop-Orders :
    (fuel j n : ℕ) (q : PriorityQueue)
    → j < fuel
    → j < n
    → n ≤ len q
    → UpHole j n q
    → Orders n q (up_loop fuel j q)
unfolding up_loop
up_loop-Orders zero j n q f hj hn v = absurd (omega arith)
up_loop-Orders (suc fuel) j n q f hj hn v = elim (Bool-cases (parent j == j)) [
  | inl e ↦ rw e (UpHole-IsHeap j n q v (λ pos_j h. absurd (ground (arith, e))), Moves-refl q)
  | inr e ↦ elim (Bool-cases (less q j (parent j))) [
    | inr l ↦ rw (e, l) (UpHole-IsHeap j n q v (λ pos_j h. ground (arith, l)), Moves-refl q)
    | inl l ↦
        let above : 0 < j = ground (arith, e) in
        let moved = swap-Moves (parent j) j q (omega arith) (omega arith) in
        let (heap, moves) =
          up_loop-Orders fuel (parent j) n (raised j n q hj hn above) (omega arith) (omega arith)
            (omega (arith, moved.same_items.same_len)) (raised-UpHole j n q hj hn above v l) in
        rw (e, l) (heap, Moves-trans moved moves)
  ]
]

pub up-Orders :
    (j n : ℕ) (q : PriorityQueue) → j < n → n ≤ len q → UpHole j n q → Orders n q (up j q)
unfolding up
up-Orders j n q hj hn v = up_loop-Orders (j + 1) j n q (omega arith) hj hn v

up_loop-Leaves :
    (fuel j c : ℕ) (q : PriorityQueue) → j < c → c < len q → slot (up_loop fuel j q) c ≡ slot q c
unfolding up_loop
up_loop-Leaves zero j c q h hc = refl
up_loop-Leaves (suc fuel) j c q h hc =
    let i = parent j in
    let same = len-swap i j q (omega arith) (omega arith) in
    let later = up_loop-Leaves fuel i c (swap i j q) (omega arith) (omega arith) in
    ground (arith, later, slot-swap i j q (omega arith) (omega arith) c)

-- `up` reads and writes no slot past the one it starts from.
pub up-Leaves : (j c : ℕ) (q : PriorityQueue) → j < c → c < len q → slot (up j q) c ≡ slot q c
unfolding up
up-Leaves j c q h hc = up_loop-Leaves (j + 1) j c q h hc
