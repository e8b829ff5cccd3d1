-- ===== src/Broker/PriorityQueue/Operations.antt =====
-- broker/heartbeat.go: the invariant of the priority queue, `Push`, and the end of `Pop` and `Remove`.
use longcom.Base.{
  ℕ, suc, ◌+◌, ◌<◌, ◌≤◌, ◌≡◌, ◌≢◌, refl, [], ◌∷◌, none, some, arith, if◌then◌else◌, ◌==◌, nat_eq,
  Bool-cases, inl, inr, ◌⊎◌, ◌∙◌, get_or-append, get_or-take, length-append, length-take_le, sym,
}
use longcom.Broker.PriorityQueue.{
  PriorityQueue, len, slot, key, parent, append_item, take_last, push,
}
use longcom.Broker.PriorityQueue.Swap.{IsIndexed, Holds}
use longcom.Broker.PriorityQueue.Up.{IsHeap, UpHole, Orders, up-Orders}

-- The invariant of the queue: the heap order, and each item knows its slot.
pub record IsQueue (q : PriorityQueue) : Type 0 where
  pub indexed : IsIndexed q
  pub heap : IsHeap (len q) q

-- The item came in; the others, and all priorities and connections, are as they were.
pub record Inserted (a : ℕ) (q q' : PriorityQueue) : Type 0 where
  pub queue : IsQueue q'
  pub grown : len q' ≡ len q + 1
  pub has : Holds q' a
  pub kept : (b : ℕ) → Holds q b → Holds q' b
  pub back : (b : ℕ) → Holds q' b → (a ≡ b) ⊎ Holds q b
  pub priorities : (b : ℕ) → (q'.item_at b).priority ≡ (q.item_at b).priority
  pub values : (b : ℕ) → (q'.item_at b).value ≡ (q.item_at b).value

-- The item left, and has the index -1; the others, and all priorities and connections, are as they
-- were.
pub record Extracted (a : ℕ) (q q' : PriorityQueue) : Type 0 where
  pub queue : IsQueue q'
  pub shrunk : len q' + 1 ≡ len q
  pub had : Holds q a
  pub index_gone : (q'.item_at a).index ≡ none
  pub kept : (b : ℕ) → Holds q b → a ≢ b → Holds q' b
  pub back : (b : ℕ) → Holds q' b → Holds q b × (a ≢ b)
  pub priorities : (b : ℕ) → (q'.item_at b).priority ≡ (q.item_at b).priority
  pub values : (b : ℕ) → (q'.item_at b).value ≡ (q.item_at b).value

module _ (a : ℕ) (q : PriorityQueue) (v : IsQueue q) (new : ¬ Holds q a) where
  abbrev appended : PriorityQueue
  appended = append_item a q

  appended-slot : (c : ℕ) → c ≤ len q → slot appended c ≡ (if len q == c then a else slot q c)
  unfolding append_item
  appended-slot c h = ground (arith, get_or-append q.slots a c 0 h)

  appended-len : len appended ≡ len q + 1
  unfolding append_item
  appended-len = length-append q.slots (a ∷ [])

  appended-priority : (b : ℕ) → (appended.item_at b).priority ≡ (q.item_at b).priority
  unfolding append_item
  appended-priority b = ground arith

  appended-value : (b : ℕ) → (appended.item_at b).value ≡ (q.item_at b).value
  unfolding append_item
  appended-value b = ground arith

  appended-index :
      (b : ℕ) → (appended.item_at b).index ≡ (if a == b then some (len q) else (q.item_at b).index)
  unfolding append_item
  appended-index b = ground arith

  appended-key : (c : ℕ) → c < len q → key appended c ≡ key q c
  appended-key c h = ground (arith, appended-slot c, appended-priority (slot q c))

  appended-IsIndexed : IsIndexed appended
  appended-IsIndexed c h = elim (Bool-cases (len q == c)) [
    | inl e ↦ ground (arith, e, appended-slot c, appended-index a)
    | inr e ↦
        let below : c < len q = ground (arith, e, appended-len) in
        let other : a ≢ slot q c = λ s. new (c, below, sym s) in
        ground (arith, e, other, appended-slot c, appended-index (slot q c), v.indexed c below)
  ]

  appended-UpHole : UpHole (len q) (len appended) appended
  appended-UpHole = record {
    edges = λ c pos_c h other.
        ground (arith, appended-len, appended-key c, appended-key (parent c), v.heap c pos_c);
    bridge = λ c pos_c h e pos_j. absurd (omega (arith, appended-len));
  }

  abbrev pushed : PriorityQueue
  pushed = push a q

  pushed-Orders : Orders (len appended) appended pushed
  unfolding push
  pushed-Orders =
      up-Orders (len q) (len appended) appended (omega (arith, appended-len)) (omega arith)
        appended-UpHole

  -- `Push` of an item that is not in a queue in order: the queue stays in order and has that item
  -- besides its own.
  pub push-Inserted : Inserted a q (push a q)
  push-Inserted =
      let (heap, moves) = pushed-Orders in
      let s = moves.same_items in
      record {
        queue = record {
          indexed = moves.indexed appended-IsIndexed;
          heap = λ c pos_c h. heap c pos_c (omega (arith, s.same_len));
        };
        grown = s.same_len ∙ appended-len;
        has = s.kept a (len q, omega (arith, appended-len), ground (arith, appended-slot (len q)));
        kept = λ b (c, h, e).
            s.kept b (c, omega (arith, appended-len), ground (arith, appended-slot c));
        back = λ b h. appended-back b (s.back b h);
        priorities = λ b. s.priorities b ∙ appended-priority b;
        values = λ b. s.values b ∙ appended-value b;
      }
    where
      appended-back : (b : ℕ) → Holds appended b → (a ≡ b) ⊎ Holds q b
      appended-back b (c, h, e) = elim (Bool-cases (len q == c)) [
        | inl s ↦ inl (ground (arith, s, appended-slot c))
        | inr s ↦
            inr
              (c, ground (arith, s, appended-len), ground (arith, s, appended-len, appended-slot c))
      ]

module _ (q : PriorityQueue) (n : ℕ) (size : len q ≡ suc n) (indexed : IsIndexed q)
    (heap : IsHeap n q) where
  abbrev rest : PriorityQueue
  rest = (take_last q).0

  pub last_lem : (take_last q).1 ≡ slot q n
  unfolding take_last
  last_lem = ground (arith, size)

  rest-len : len rest ≡ n
  unfolding take_last
  rest-len = ground (arith, size, length-take_le n q.slots)

  rest-slot : (c : ℕ) → c < n → slot rest c ≡ slot q c
  unfolding take_last
  rest-slot c h = ground (arith, size, get_or-take n q.slots c 0 h)

  rest-item :
      (b : ℕ)
      → rest.item_at b
        ≡ (if slot q n == b then record (q.item_at b) { index = none } else q.item_at b)
  unfolding take_last
  rest-item b = ground (arith, size)

  apart : (c : ℕ) → c < n → slot q n ≢ slot q c
  apart c h e = ground (arith, size, indexed c, indexed n)

  rest-priority : (b : ℕ) → (rest.item_at b).priority ≡ (q.item_at b).priority
  rest-priority b = ground (arith, rest-item b)

  rest-key : (c : ℕ) → c < n → key rest c ≡ key q c
  rest-key c h = ground (arith, rest-slot c h, rest-priority (slot q c))

  pub take_last-Extracted : Extracted (slot q n) q rest
  take_last-Extracted = record {
    queue = record {
      indexed = λ c h.
          ground (arith, rest-len, rest-slot c, rest-item (slot q c), apart c, indexed c, size);
      heap = λ c pos_c h. ground (arith, rest-len, rest-key c, rest-key (parent c), heap c pos_c);
    };
    shrunk = ground (arith, rest-len, size);
    had = (n, omega (arith, size), refl);
    index_gone = ground (arith, rest-item (slot q n));
    kept = λ b (c, h, e) other. elim (Bool-cases (c == n)) [
      | inl s ↦ absurd (other (ground (arith, s, e)))
      | inr s ↦ (c, ground (arith, s, size, rest-len), ground (arith, s, size, rest-slot c, e))
    ];
    back = λ b (c, h, e).
        let below : c < n = omega (arith, rest-len) in
        (
          (c, omega (arith, size), ground (arith, rest-slot c below, e)),
          ground (arith, rest-slot c below, e, apart c below),
        );
    priorities = rest-priority;
    values = λ b. ground (arith, rest-item b);
  }
