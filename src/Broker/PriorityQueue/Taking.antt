-- ===== src/Broker/PriorityQueue/Taking.antt =====
-- broker/heartbeat.go: `Pop` and `Remove` of the priority queue.
use longcom.Base.{
  ℕ, suc, ◌-◌, ◌<◌, ◌≤◌, ◌≡◌, refl, true, false, none, some, arith, ◌==◌, nat_eq, inl, inr, ltb,
  ◌∙◌, sym, subst,
}
use longcom.Base.Int.{◌≤ℤ◌}
use longcom.Base.Run.{ok}
use longcom.Broker.PriorityQueue.{
  PriorityQueue, len, slot, key, swap, down, take_last, pop, remove_at, remove,
}
use longcom.Broker.PriorityQueue.Swap.{Holds}
use longcom.Broker.PriorityQueue.Up.{UpHole-IsHeap, Moves, Moves-refl, Moves-trans, Orders}
use longcom.Broker.PriorityQueue.Sink.{down-Hole}
use longcom.Broker.PriorityQueue.Operations.{IsQueue, Extracted, take_last-Extracted, last_lem}
use longcom.Broker.PriorityQueue.Removal.{
  least, moved-Extracted, swapped-Moves, swapped-slot, swapped-Hole, remove_at-Extracted,
}

module _ (q : PriorityQueue) (v : IsQueue q) where
  module _ (n : ℕ) (size : len q ≡ suc n) where
    abbrev sunk : PriorityQueue
    sunk = (down 0 n (swap 0 n q)).0

    abbrev first_swapped : PriorityQueue
    first_swapped = swap 0 n q

    first_Moves : Moves q first_swapped
    first_Moves = swapped-Moves q v 0 n size (omega arith)

    sunk-Orders : Orders n first_swapped sunk × (slot sunk n ≡ slot first_swapped n)
    sunk-Orders =
        let hn : n ≤ len first_swapped = omega (arith, size, first_Moves.same_items.same_len) in
        elim (down-Hole 0 n first_swapped hn (swapped-Hole q v 0 n size (omega arith))) [
          | inl (s, moved) ↦ ((s.heap, s.moves), s.leaves n (omega arith))
          | inr (e, u) ↦
              subst (λ d. Orders n first_swapped d.0 × (slot d.0 n ≡ slot first_swapped n)) (sym e)
                (
                  (
                    UpHole-IsHeap 0 n first_swapped u (λ h. absurd (omega arith)),
                    Moves-refl first_swapped,
                  ),
                  refl,
                )
        ]

    sunk-Extracted : Extracted (slot q 0) q (take_last sunk).0 × ((take_last sunk).1 ≡ slot q 0)
    sunk-Extracted =
        let ((heap, moves), same) = sunk-Orders in
        let last = same ∙ swapped-slot q v 0 n size (omega arith) in
        let all = Moves-trans first_Moves moves in
        let size' : len sunk ≡ suc n = all.same_items.same_len ∙ size in
        let x = take_last-Extracted sunk n size' (all.indexed v.indexed) heap in
        (
          moved-Extracted all (subst (λ a. Extracted a sunk (take_last sunk).0) last x),
          last_lem sunk n size' (all.indexed v.indexed) heap ∙ last,
        )

    less_first : len q - 1 ≡ n
    less_first = omega (arith, size)

    nonempty : (len q == 0) ≡ false
    nonempty = ground (arith, size)

    pop_lem : pop q ≡ some (take_last sunk)
    unfolding pop
    pop_lem = rw (nonempty, less_first) refl

  -- `Pop` on a queue in order that is not empty returns an item of the queue with the least
  -- priority; the queue stays in order and has the other items, and the item has the index -1.
  pub pop-Extracted :
      0 < len q
      → (q' : PriorityQueue) × (a : ℕ) × (pop q ≡ some (q', a))
        × Extracted a q q'
        × ((b : ℕ) → Holds q b → (q.item_at a).priority ≤ℤ (q.item_at b).priority)
  pop-Extracted h =
      let n = len q - 1 in
      let size : len q ≡ suc n = omega arith in
      let (x, out) = sunk-Extracted n size in
      (
        (take_last (sunk n size)).0,
        slot q 0,
        rw (pop_lem n size, out) refl,
        x,
        λ b (c, below, e).
            subst (λ d. key q 0 ≤ℤ (q.item_at d).priority) e
              (least (suc c) c (len q) q (omega arith) below v.heap),
      )

  pub pop-none : len q ≡ 0 → pop q ≡ none
  unfolding pop
  pop-none e = ground (arith, e)

  -- `Remove` of an item of a queue in order does not panic: the queue stays in order and has the
  -- other items, and the item has the index -1.
  pub remove-Extracted :
      (a : ℕ) → Holds q a → (q' : PriorityQueue) × (remove a q ≡ ok q') × Extracted a q q'
  unfolding remove
  remove-Extracted a (i, below, e) =
      let at : (q.item_at a).index ≡ some i = ground (arith, v.indexed i below, e) in
      let inside : ltb i (len q) ≡ true = ground arith in
      let n = len q - 1 in
      let (x, _) = remove_at-Extracted q v i n (omega arith) (omega arith) in
      (
        (remove_at i q).0,
        ground (arith, at, inside),
        subst (λ b. Extracted b q (remove_at i q).0) e x,
      )
