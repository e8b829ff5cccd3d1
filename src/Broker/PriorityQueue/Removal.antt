-- ===== src/Broker/PriorityQueue/Removal.antt =====
-- broker/heartbeat.go: how `Remove` and `Update` of the priority queue move items, and that the root
-- comes first.
use longcom.Base.{
  ℕ, zero, suc, ◌-◌, ◌<◌, ◌≤◌, ◌≡◌, ◌≢◌, refl, arith, if◌then◌else◌, ◌==◌, nat_eq, Bool-cases, inl,
  inr, ◌∙◌, subst,
}
use longcom.Base.Int.{◌≤ℤ◌}
use longcom.Broker.PriorityQueue.{
  PriorityQueue, len, slot, key, swap, parent, down, take_last, remove_at, up_unless,
}
use longcom.Broker.PriorityQueue.Swap.{key-swap, slot-swap}
use longcom.Broker.PriorityQueue.Up.{
  IsHeap, Moves, Moves-trans, swap-Moves, Orders, up-Orders, up-Leaves,
}
use longcom.Broker.PriorityQueue.Down.{Hole}
use longcom.Broker.PriorityQueue.Sink.{down-Hole}
use longcom.Broker.PriorityQueue.Operations.{IsQueue, Extracted, take_last-Extracted, last_lem}

-- The root of a heap has the least priority.
pub least : (fuel c n : ℕ) (q : PriorityQueue) → c < fuel → c < n → IsHeap n q → key q 0 ≤ℤ key q c
least zero c n q f h v = absurd (omega arith)
least (suc fuel) zero n q f h v = omega arith
least (suc fuel) (suc c) n q f h v =
    let above = least fuel (parent (suc c)) n q (omega arith) (omega arith) v in
    let edge = v (suc c) (omega arith) h in omega (arith, above, edge)

-- `down` and, if that did not move the item, `up`.
module _ (i n : ℕ) (q : PriorityQueue) (hi : i < n) (hn : n ≤ len q) (v : Hole i n q) where
  pub settle-Orders : Orders n q (up_unless i (down i n q))
  settle-Orders = elim (down-Hole i n q hn v) [
    | inl (s, moved) ↦ let d = down i n q in ground (arith, moved, s)
    | inr (e, u) ↦ rw e (up-Orders i n q hi hn u)
  ]

  pub settle-Leaves : (c : ℕ) → n ≤ c → c < len q → slot (up_unless i (down i n q)) c ≡ slot q c
  settle-Leaves c h hc = elim (down-Hole i n q hn v) [
    | inl (s, moved) ↦ ground (arith, moved, s.leaves c h)
    | inr (e, u) ↦ rw e (up-Leaves i c q (omega arith) hc)
  ]

-- An item that leaves after the others were moved.
pub moved-Extracted :
    {a : ℕ} {p q r : PriorityQueue} → Moves p q → Extracted a q r → Extracted a p r
moved-Extracted m x =
    let s = m.same_items in
    record {
      queue = x.queue;
      shrunk = x.shrunk ∙ s.same_len;
      had = s.back _ x.had;
      index_gone = x.index_gone;
      kept = λ b h other. x.kept b (s.kept b h) other;
      back = λ b h. let (k, other) = x.back b h in (s.back b k, other);
      priorities = λ b. x.priorities b ∙ s.priorities b;
      values = λ b. x.values b ∙ s.values b;
    }

module _ (q : PriorityQueue) (v : IsQueue q) (i n : ℕ) (size : len q ≡ suc n) (hi : i ≤ n) where
  abbrev pub swapped : PriorityQueue
  swapped = swap i n q

  pub swapped-Moves : Moves q swapped
  swapped-Moves = swap-Moves i n q (omega (arith, size)) (omega (arith, size))

  swapped-key : (c : ℕ) → c < n → i ≢ c → key swapped c ≡ key q c
  swapped-key c h other =
      ground (arith, key-swap i n q (omega (arith, size)) (omega (arith, size)) c)

  pub swapped-slot : slot swapped n ≡ slot q i
  swapped-slot = ground (arith, slot-swap i n q (omega (arith, size)) (omega (arith, size)) n)

  pub swapped-Hole : Hole i n swapped
  swapped-Hole = record {
    edges = λ c pos_c h other above.
        ground (arith, size, swapped-key c h, swapped-key (parent c), v.heap c pos_c);
    bridge = λ c pos_c h e pos_i.
        ground
          (arith, size, swapped-key c h, swapped-key (parent i), v.heap c pos_c, v.heap i pos_i);
  }

  abbrev settled : PriorityQueue
  settled = up_unless i (down i n swapped)

  settled-Extracted :
      i < n → Extracted (slot q i) q (take_last settled).0 × ((take_last settled).1 ≡ slot q i)
  settled-Extracted below =
      let hn : n ≤ len swapped = omega (arith, size, swapped-Moves.same_items.same_len) in
      let (heap, moves) = settle-Orders i n swapped below hn swapped-Hole in
      let last =
        settle-Leaves i n swapped below hn swapped-Hole n (omega arith)
          (omega (arith, size, swapped-Moves.same_items.same_len))
        ∙ swapped-slot in
      let all = Moves-trans swapped-Moves moves in
      let size' : len settled ≡ suc n = all.same_items.same_len ∙ size in
      let x = take_last-Extracted settled n size' (all.indexed v.indexed) heap in
      (
        moved-Extracted all (subst (λ a. Extracted a settled (take_last settled).0) last x),
        last_lem settled n size' (all.indexed v.indexed) heap ∙ last,
      )

  less_one : len q - 1 ≡ n
  less_one = omega (arith, size)

  remove_at_lem : remove_at i q ≡ take_last (if n == i then q else settled)
  unfolding remove_at
  remove_at_lem = rw less_one refl

  pub remove_at-Extracted :
      Extracted (slot q i) q (remove_at i q).0 × ((remove_at i q).1 ≡ slot q i)
  remove_at-Extracted = elim (Bool-cases (n == i)) [
    | inl e ↦
        let same : n ≡ i = ground (arith, e) in
        let heap : IsHeap n q = λ c pos_c h. v.heap c pos_c (omega (arith, size)) in
        let x = take_last-Extracted q n size v.indexed heap in
        let out = last_lem q n size v.indexed heap in
        rw (remove_at_lem, e)
          (subst (λ k. Extracted (slot q k) q (take_last q).0 × ((take_last q).1 ≡ slot q k)) same
            (x, out))
    | inr e ↦ rw (remove_at_lem, e) (settled-Extracted (ground (arith, e)))
  ]
