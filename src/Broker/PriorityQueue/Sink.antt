-- ===== src/Broker/PriorityQueue/Sink.antt =====
-- `down` of container/heap on the queue: its loop, from a slot whose edges are in doubt.
use longcom.Base.{
  ℕ, zero, suc, ◌+◌, ◌*◌, ◌<◌, ◌≤◌, ◌≡◌, refl, true, false, arith, ◌==◌, nat_eq, Bool-cases, inl,
  inr, ltb, ◌⊎◌, ◌∙◌,
}
use longcom.Broker.PriorityQueue.{
  PriorityQueue, len, slot, less, parent, smaller_child, down_loop, down,
}
use longcom.Broker.PriorityQueue.Up.{IsHeap, UpHole, Moves, Moves-refl, Moves-trans}
use longcom.Broker.PriorityQueue.Down.{
  DownHole, Hole, child_lem, lowered, lowered-Moves, lowered-slot, DownHole-lowered, Hole-lowered,
  stops,
}

-- The slots from `n` on stay as they are.
abbrev pub Leaves : ℕ → PriorityQueue → PriorityQueue → Type 0
Leaves n q q' = (c : ℕ) → n ≤ c → slot q' c ≡ slot q c

pub record Sinks (i n : ℕ) (q : PriorityQueue) (r : PriorityQueue × ℕ) : Type 0 where
  pub heap : IsHeap n r.0
  pub moves : Moves q r.0
  pub falls : i ≤ r.1
  pub leaves : Leaves n q r.0

Sinks-still :
    (i n : ℕ) (q : PriorityQueue)
    → DownHole i n q
    → (2 * i + 1 < n → less q (smaller_child i n q) i ≡ false)
    → Sinks i n q (q, i)
Sinks-still i n q v f = record {
  heap = λ c pos_c h. elim (Bool-cases (parent c == i)) [
    | inl e ↦ ground (arith, e, stops i n q f c pos_c h)
    | inr e ↦ v.edges c pos_c h (ground (arith, e))
  ];
  moves = Moves-refl q;
  falls = omega arith;
  leaves = λ c h. refl;
}

Sinks-lowered :
    (i n : ℕ) (q : PriorityQueue) (r : PriorityQueue × ℕ) (hn : n ≤ len q) (inside : 2 * i + 1 < n)
    (l : less q (smaller_child i n q) i ≡ true)
    → Sinks (smaller_child i n q) n (lowered i n q hn inside l) r
    → Sinks i n q r × (i < r.1)
Sinks-lowered i n q r hn inside l s =
    let (below, up, over, least) = child_lem i n q inside in
    (
      record {
        heap = s.heap;
        moves = Moves-trans (lowered-Moves i n q hn inside l) s.moves;
        falls = omega (arith, s.falls);
        leaves = λ c h. s.leaves c h ∙ lowered-slot i n q hn inside l c h;
      },
      omega (arith, s.falls),
    )

down_loop-Sinks :
    (fuel i n : ℕ) (q : PriorityQueue)
    → n ≤ fuel + i
    → n ≤ len q
    → DownHole i n q
    → Sinks i n q (down_loop fuel i n q)
unfolding down_loop
down_loop-Sinks zero i n q f hn v = Sinks-still i n q v (λ h. absurd (omega arith))
down_loop-Sinks (suc fuel) i n q f hn v = elim (Bool-cases (ltb (2 * i + 1) n)) [
  | inr e ↦ rw e (Sinks-still i n q v (λ h. absurd (ground (arith, e))))
  | inl e ↦
      let inside : 2 * i + 1 < n = ground (arith, e) in
      elim (Bool-cases (less q (smaller_child i n q) i)) [
        | inr l ↦ rw (e, l) (Sinks-still i n q v (λ h. l))
        | inl l ↦
            let (below, up, over, least) = child_lem i n q inside in
            let rest =
              down_loop-Sinks fuel (smaller_child i n q) n (lowered i n q hn inside l) (omega arith)
                (omega (arith, (lowered-Moves i n q hn inside l).same_items.same_len))
                (DownHole-lowered i n q hn inside l v) in
            rw (e, l) (Sinks-lowered i n q _ hn inside l rest).0
      ]
]

-- `down` from a slot whose edges are all in doubt: it moves the item and orders the slots, or it
-- stays, and then no child is less.
pub down_loop-Hole :
    (fuel i n : ℕ) (q : PriorityQueue)
    → n ≤ suc fuel
    → n ≤ len q
    → Hole i n q
    → (Sinks i n q (down_loop (suc fuel) i n q) × (i < (down_loop (suc fuel) i n q).1))
      ⊎ ((down_loop (suc fuel) i n q ≡ (q, i)) × UpHole i n q)
unfolding down_loop
down_loop-Hole fuel i n q f hn v = elim (Bool-cases (ltb (2 * i + 1) n)) [
  | inr e ↦ inr (rw e refl, still (λ h. absurd (ground (arith, e))))
  | inl e ↦
      let inside : 2 * i + 1 < n = ground (arith, e) in
      elim (Bool-cases (less q (smaller_child i n q) i)) [
        | inr l ↦ inr (rw (e, l) refl, still (λ h. l))
        | inl l ↦
            let (below, up, over, least) = child_lem i n q inside in
            let rest =
              down_loop-Sinks fuel (smaller_child i n q) n (lowered i n q hn inside l) (omega arith)
                (omega (arith, (lowered-Moves i n q hn inside l).same_items.same_len))
                (Hole-lowered i n q hn inside l v) in
            rw (e, l) (inl (Sinks-lowered i n q _ hn inside l rest))
      ]
]
  where
    still : (2 * i + 1 < n → less q (smaller_child i n q) i ≡ false) → UpHole i n q
    still f = record {
      edges = λ c pos_c h other. elim (Bool-cases (parent c == i)) [
        | inl e ↦ ground (arith, e, stops i n q f c pos_c h)
        | inr e ↦ v.edges c pos_c h other (ground (arith, e))
      ];
      bridge = v.bridge;
    }

pub down-Hole :
    (i n : ℕ) (q : PriorityQueue)
    → n ≤ len q
    → Hole i n q
    → (Sinks i n q ((down i n q).0, suc i) × ((down i n q).1 ≡ true))
      ⊎ ((down i n q ≡ (q, false)) × UpHole i n q)
unfolding down down_loop
down-Hole i zero q hn v = inr (
  ground arith,
  record { edges = λ c pos_c h. absurd (omega arith); bridge = λ c pos_c h. absurd (omega arith) },
)
down-Hole i (suc n) q hn v = elim (down_loop-Hole n i (suc n) q (omega arith) hn v) [
  | inl (s, moved) ↦ inl (
    record { heap = s.heap; moves = s.moves; falls = omega arith; leaves = s.leaves },
    ground (arith, moved),
  )
  | inr (e, u) ↦ inr (rw e (ground arith), u)
]
