-- ===== src/Broker/PriorityQueue/Down.antt =====
-- `down` of container/heap on the queue: it repairs the heap order below one slot.
use longcom.Base.{
  ℕ, ◌+◌, ◌*◌, ◌<◌, ◌≤◌, ◌≡◌, ◌≢◌, true, false, ◌&&◌, arith, if◌then◌else◌, ◌==◌, nat_eq,
  Bool-cases, inl, inr, ltb,
}
use longcom.Base.Int.{◌≤ℤ◌}
use longcom.Broker.PriorityQueue.{PriorityQueue, len, slot, key, less, swap, parent, smaller_child}
use longcom.Broker.PriorityQueue.Swap.{key-swap, slot-swap}
use longcom.Broker.PriorityQueue.Up.{Moves, swap-Moves}

-- The heap order of the first `n` slots, but for the edges below the slot `i`, which the edges
-- around it bridge.
pub record DownHole (i n : ℕ) (q : PriorityQueue) : Type 0 where
  pub edges : (c : ℕ) → 0 < c → c < n → parent c ≢ i → key q (parent c) ≤ℤ key q c
  pub bridge : (c : ℕ) → 0 < c → c < n → parent c ≡ i → 0 < i → key q (parent i) ≤ℤ key q c

-- And but for all edges of the slot `i`.
pub record Hole (i n : ℕ) (q : PriorityQueue) : Type 0 where
  pub edges : (c : ℕ) → 0 < c → c < n → c ≢ i → parent c ≢ i → key q (parent c) ≤ℤ key q c
  pub bridge : (c : ℕ) → 0 < c → c < n → parent c ≡ i → 0 < i → key q (parent i) ≤ℤ key q c

module _ (i n : ℕ) (q : PriorityQueue) where
  abbrev child : ℕ
  child = smaller_child i n q

  pub child_lem :
      2 * i + 1 < n
      → (child < n)
        × (parent child ≡ i)
        × (i < child)
        × ((c : ℕ) → 0 < c → c < n → parent c ≡ i → key q child ≤ℤ key q c)
  unfolding smaller_child
  child_lem h = elim (Bool-cases (ltb (2 * i + 1 + 1) n && less q (2 * i + 1 + 1) (2 * i + 1))) [
    | inl e ↦ rw e (
      ground (arith, e),
      ground arith,
      ground arith,
      λ c pos_c below p. elim (Bool-cases (c == 2 * i + 1)) [
        | inl s ↦ ground (arith, e, s)
        | inr s ↦ let s' : c ≡ 2 * i + 1 + 1 = ground (arith, s) in ground (arith, s')
      ],
    )
    | inr e ↦ rw e (
      h,
      ground arith,
      ground arith,
      λ c pos_c below p. elim (Bool-cases (c == 2 * i + 1)) [
        | inl s ↦ ground (arith, s)
        | inr s ↦ let s' : c ≡ 2 * i + 1 + 1 = ground (arith, s) in ground (arith, e, s')
      ],
    )
  ]

  module _ (hn : n ≤ len q) (inside : 2 * i + 1 < n) (l : less q child i ≡ true) where
    abbrev pub lowered : PriorityQueue
    lowered = swap i child q

    lowered-key :
        (c : ℕ)
        → key lowered c ≡ (if child == c then key q i else if i == c then key q child else key q c)
    lowered-key c =
        let (below, _, over, _) = child_lem inside in
        key-swap i child q (omega arith) (omega arith) c

    pub lowered-Moves : Moves q lowered
    lowered-Moves =
        let (below, _, over, _) = child_lem inside in
        swap-Moves i child q (omega arith) (omega arith)

    pub lowered-slot : (c : ℕ) → n ≤ c → slot lowered c ≡ slot q c
    lowered-slot c h =
        let (below, _, over, _) = child_lem inside in
        ground (arith, slot-swap i child q (omega arith) (omega arith) c)

    lowered-bridge :
        ((c : ℕ) → 0 < c → c < n → parent c ≡ child → key q child ≤ℤ key q c)
        → (c : ℕ) → 0 < c
        → c < n
        → parent c ≡ child
        → 0 < child
        → key lowered (parent child) ≤ℤ key lowered c
    lowered-bridge under c pos_c h e pos_j =
        let (below, up, over, _) = child_lem inside in
        ground (arith, lowered-key c, lowered-key (parent child), under c pos_c h e)

    lowered-edges :
        ((c : ℕ) → 0 < c → c < n → c ≢ i → parent c ≢ i → key q (parent c) ≤ℤ key q c)
        → (0 < i → key q (parent i) ≤ℤ key q child)
        → (c : ℕ) → 0 < c
        → c < n
        → parent c ≢ child
        → key lowered (parent c) ≤ℤ key lowered c
    lowered-edges edges top c pos_c h e =
        let (below, up, over, least) = child_lem inside in
        elim (Bool-cases (c == i)) [
          | inl s ↦ ground (arith, s, lowered-key c, lowered-key (parent c), top)
          | inr s ↦ elim (Bool-cases (parent c == i)) [
            | inl p ↦ ground (arith, s, p, l, lowered-key c, lowered-key (parent c), least c)
            | inr p ↦ ground (arith, s, p, lowered-key c, lowered-key (parent c), edges c pos_c h)
          ]
        ]

    pub DownHole-lowered : DownHole i n q → DownHole child n lowered
    DownHole-lowered v =
        let (below, up, over, least) = child_lem inside in
        record {
          edges =
              lowered-edges (λ c pos_c h _ p. v.edges c pos_c h p)
                (λ pos_i. v.bridge child (omega arith) below up pos_i);
          bridge = lowered-bridge (λ c pos_c h e. ground (arith, v.edges c pos_c h));
        }

    pub Hole-lowered : Hole i n q → DownHole child n lowered
    Hole-lowered v =
        let (below, up, over, least) = child_lem inside in
        record {
          edges = lowered-edges v.edges (λ pos_i. v.bridge child (omega arith) below up pos_i);
          bridge = lowered-bridge (λ c pos_c h e. ground (arith, v.edges c pos_c h));
        }

  -- Where `down` stops, the children are no less.
  pub stops :
      (2 * i + 1 < n → less q child i ≡ false)
      → (c : ℕ) → 0 < c
      → c < n
      → parent c ≡ i
      → key q i ≤ℤ key q c
  stops f c pos_c h e =
      let inside : 2 * i + 1 < n = omega arith in
      let (_, _, _, least) = child_lem inside in ground (arith, f inside, least c pos_c h e)
