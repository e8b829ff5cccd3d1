-- ===== src/Broker/PriorityQueue/Swap.antt =====
-- `Swap` of the priority queue: what it moves, and the index of the items.
use longcom.Base.{
  ℕ, ◌<◌, ◌≡◌, refl, some, arith, length-set, get_or-set, set, if◌then◌else◌, ◌==◌, nat_eq,
  Bool-cases, inl, inr, ◌∙◌,
}
use longcom.Broker.PriorityQueue.{PriorityQueue, len, slot, key, swap}

-- Each item in the slice has the index of its slot; so no item stands in two slots.
abbrev pub IsIndexed : PriorityQueue → Type 0
IsIndexed q = (c : ℕ) → c < len q → (q.item_at (slot q c)).index ≡ some c

-- The item stands in the slice.
abbrev pub Holds : PriorityQueue → ℕ → Type 0
Holds q a = (i : ℕ) × (i < len q) × (slot q i ≡ a)

-- The queues have the same items, with the same connections and priorities.
pub record SameItems (q q' : PriorityQueue) : Type 0 where
  pub same_len : len q' ≡ len q
  pub kept : (a : ℕ) → Holds q a → Holds q' a
  pub back : (a : ℕ) → Holds q' a → Holds q a
  pub priorities : (a : ℕ) → (q'.item_at a).priority ≡ (q.item_at a).priority
  pub values : (a : ℕ) → (q'.item_at a).value ≡ (q.item_at a).value

pub SameItems-refl : (q : PriorityQueue) → SameItems q q
SameItems-refl q = record {
  same_len = refl;
  kept = λ a h. h;
  back = λ a h. h;
  priorities = λ a. refl;
  values = λ a. refl;
}

pub SameItems-trans : {p q r : PriorityQueue} → SameItems p q → SameItems q r → SameItems p r
SameItems-trans s t = record {
  same_len = t.same_len ∙ s.same_len;
  kept = λ a h. t.kept a (s.kept a h);
  back = λ a h. s.back a (t.back a h);
  priorities = λ a. t.priorities a ∙ s.priorities a;
  values = λ a. t.values a ∙ s.values a;
}

module _ (i j : ℕ) (q : PriorityQueue) (hi : i < len q) (hj : j < len q) where
  pub len-swap : len (swap i j q) ≡ len q
  unfolding swap
  len-swap =
      rw (length-set (set q.slots i (slot q j)) j (slot q i), length-set q.slots i (slot q j))

  pub slot-swap :
      (c : ℕ)
      → slot (swap i j q) c ≡ (if j == c then slot q i else if i == c then slot q j else slot q c)
  unfolding swap
  slot-swap c = ground (
    arith,
    get_or-set (set q.slots i (slot q j)) j c (slot q i) 0,
    get_or-set q.slots i c (slot q j) 0,
    length-set q.slots i (slot q j),
  )

  swap-item : (a : ℕ) → ((swap i j q).item_at a).priority ≡ (q.item_at a).priority
  unfolding swap
  swap-item a = ground arith

  swap-value : (a : ℕ) → ((swap i j q).item_at a).value ≡ (q.item_at a).value
  unfolding swap
  swap-value a = ground arith

  pub key-swap :
      (c : ℕ)
      → key (swap i j q) c ≡ (if j == c then key q i else if i == c then key q j else key q c)
  key-swap c = ground (arith, slot-swap c, swap-item (slot (swap i j q) c))

  pub swap-SameItems : SameItems q (swap i j q)
  swap-SameItems = record {
    same_len = len-swap;
    kept = λ a (c, h, e). elim (Bool-cases (j == c)) [
      | inl p ↦ (i, omega (arith, len-swap), ground (arith, p, slot-swap i))
      | inr p ↦ elim (Bool-cases (i == c)) [
        | inl r ↦ (j, omega (arith, len-swap), ground (arith, r, slot-swap j))
        | inr r ↦ (c, omega (arith, len-swap), ground (arith, p, r, slot-swap c))
      ]
    ];
    back = λ a (c, h, e). elim (Bool-cases (j == c)) [
      | inl p ↦ (i, hi, ground (arith, p, slot-swap c))
      | inr p ↦ elim (Bool-cases (i == c)) [
        | inl r ↦ (j, hj, ground (arith, p, r, slot-swap c))
        | inr r ↦ (c, omega (arith, len-swap), ground (arith, p, r, slot-swap c))
      ]
    ];
    priorities = swap-item;
    values = swap-value;
  }

  swap-index :
      (a : ℕ)
      → ((swap i j q).item_at a).index ≡ (
          if slot (swap i j q) j == a
          then some j
          else if slot (swap i j q) i == a
          then some i
          else (q.item_at a).index)
  unfolding swap
  swap-index a = ground arith

  pub swap-IsIndexed : IsIndexed q → IsIndexed (swap i j q)
  swap-IsIndexed v c h = ground (
    arith,
    swap-index (slot (swap i j q) c),
    slot-swap c,
    slot-swap i,
    slot-swap j,
    v c,
    v i,
    v j,
    len-swap,
  )
