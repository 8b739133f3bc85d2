-- ===== src/Spsc/Places.antt =====
-- The invariant of a ring, the items that it holds, and what one store and one step of a position
-- do to them.
use native.Mathlib.Nat.{mod-lt, pow-le-pow_right}
use low_latency_trading_gate.Base.{
  ℕ, suc, ◌+◌, ◌-◌, ◌%◌, ◌^◌, ◌≤◌, ◌<◌, ◌≡◌, refl, sym, ap, ◌∙◌, subst, List, [], ◌∷◌, ◌++◌, some,
  arith, true, false, ltb-false, ==_iff, ◌==◌, length, set, get_or, bit_and, get_elem?,
  get_elem?-eq-get_or, length-set, length-replicate, lt→ltb, get_elem?, ◌⊎◌, ◌↔◌,
}
use low_latency_trading_gate.Base.Bits.{bit_and-mask}
use low_latency_trading_gate.Base.Window.{
  window, length-window, window-Written, set-Written, wrap-cases,
}
use low_latency_trading_gate.Spsc.Queue
use low_latency_trading_gate.Spsc.{Ring, new_ring, increment, store}

-- The two static_asserts, in the range of a size_t.
pub record IsCapacity (capacity : ℕ) : Type 0 where
  pub two : 2 ≤ capacity
  pub exponent : ℕ
  pub power : capacity ≡ 2 ^ exponent
  pub word : exponent < 64

pub capacity-le : {capacity : ℕ} → IsCapacity capacity → capacity ≤ 2 ^ 63
capacity-le c =
    let small =
      pow-le-pow_right {n = 2} (omega arith) {i = c.exponent} {j = 63} (omega (arith, c.word)) in
    omega (arith, c.power, small)

pub increment-eq-mod :
    {capacity : ℕ} (index : ℕ)
    → IsCapacity capacity
    → index < capacity
    → increment capacity index ≡ (index + 1) % capacity
unfolding increment
increment-eq-mod {capacity} index c small =
    subst (λ t. bit_and ((index + 1) % 2 ^ 64) (t - 1) ≡ (index + 1) % 2 ^ 64 % t) (sym c.power)
      (bit_and-mask c.exponent ((index + 1) % 2 ^ 64))
    ∙ ap (λ k. k % capacity) {x = (index + 1) % 2 ^ 64} {y = index + 1}
        (omega (arith, capacity-le c))

-- The number of places from `tail` round to `head`.
abbrev pub distance : ℕ → ℕ → ℕ → ℕ
distance capacity tail head = (head + capacity - tail) % capacity

pub distance-cases :
    (capacity tail head : ℕ)
    → tail < capacity
    → head < capacity
    → ((tail ≤ head) × (distance capacity tail head + tail ≡ head))
      ⊎ ((head < tail) × (distance capacity tail head + tail ≡ head + capacity))
distance-cases capacity tail head t h =
    ground (arith, wrap-cases (head + capacity - tail) capacity (omega arith))

-- How the distance changes when one end moves on.
module _ (capacity tail head : ℕ) (two : 2 ≤ capacity) (t : tail < capacity)
    (h : head < capacity) where
  pub distance-zero_iff : (distance capacity tail head ≡ 0) ↔ (tail ≡ head)
  distance-zero_iff = (
    λ e. ground (arith, distance-cases capacity tail head t h),
    λ e. ground (arith, distance-cases capacity tail head t h),
  )

  pub distance-full_iff :
      (distance capacity tail head ≡ capacity - 1) ↔ ((head + 1) % capacity ≡ tail)
  distance-full_iff = (
    λ e. ground (
      arith,
      distance-cases capacity tail head t h,
      wrap-cases (head + 1) capacity (omega arith),
    ),
    λ e. ground (
      arith,
      distance-cases capacity tail head t h,
      wrap-cases (head + 1) capacity (omega arith),
    ),
  )

  pub distance-push :
      distance capacity tail head + 1 < capacity
      → distance capacity tail ((head + 1) % capacity) ≡ distance capacity tail head + 1
  distance-push room =
      let next = mod-lt (head + 1) {m = capacity} (omega arith) in
      ground (
        arith,
        distance-cases capacity tail head t h,
        distance-cases capacity tail ((head + 1) % capacity) t next,
        wrap-cases (head + 1) capacity (omega arith),
      )

  pub distance-pop :
      1 ≤ distance capacity tail head
      → distance capacity ((tail + 1) % capacity) head + 1 ≡ distance capacity tail head
  distance-pop some_left =
      let next = mod-lt (tail + 1) {m = capacity} (omega arith) in
      ground (
        arith,
        distance-cases capacity tail head t h,
        distance-cases capacity ((tail + 1) % capacity) head next h,
        wrap-cases (tail + 1) capacity (omega arith),
      )

  pub place-distance : (tail + distance capacity tail head) % capacity ≡ head
  place-distance = ground (
    arith,
    distance-cases capacity tail head t h,
    wrap-cases (tail + distance capacity tail head) capacity
        (omega (arith, mod-lt (head + capacity - tail) {m = capacity} (omega arith))),
  )

pub record IsValid {ℓ} {A : Type ℓ} (capacity : ℕ) (q : Ring A) : Type ℓ where
  pub sized : length q.buffer ≡ capacity
  pub head : q.head < capacity
  pub tail : q.tail < capacity

abbrev pub used {ℓ} : {A : Type ℓ} → ℕ → Ring A → ℕ
used capacity q = distance capacity q.tail q.head

module _ {ℓ} {A : Type ℓ} (d : A) where
  -- The items that were pushed and not yet popped, oldest first.
  abbrev pub contents : ℕ → Ring A → List A
  contents capacity q = window d q.buffer capacity q.tail (used capacity q)

  pub length-contents : (capacity : ℕ) (q : Ring A) → length (contents capacity q) ≡ used capacity q
  length-contents capacity q = length-window d q.buffer capacity q.tail (used capacity q)

module _ {ℓ} {A : Type ℓ} (d : A) {capacity : ℕ} (c : IsCapacity capacity) where
  pub new_ring-IsValid : IsValid capacity (new_ring capacity d)
  new_ring-IsValid = record {
    sized = length-replicate capacity d;
    head = omega (arith, c.two);
    tail = omega (arith, c.two);
  }

  pub contents-new_ring : contents d capacity (new_ring capacity d) ≡ []
  contents-new_ring =
      ap (window d (new_ring capacity d).buffer capacity 0) {y = 0} (
        (distance-zero_iff capacity 0 0 c.two (omega (arith, c.two)) (omega (arith, c.two))).1 refl)

  module _ {q : Ring A} (v : IsValid capacity q) where
    -- A ring with an item stored at the head, and the head moved on.
    abbrev pub pushed : A → Ring A
    pushed value = record q { buffer = set q.buffer q.head value; head = increment capacity q.head }

    pub store-pushed : (value : A) → store q.buffer q.head value ≡ some (set q.buffer q.head value)
    unfolding store
    store-pushed value = rw (lt→ltb q.head (length q.buffer) (omega (arith, v.sized, v.head)))

    pub pushed-IsValid : (value : A) → IsValid capacity (pushed value)
    pushed-IsValid value = record {
      sized = length-set q.buffer q.head value ∙ v.sized;
      head =
          subst (λ k. k < capacity) (sym (increment-eq-mod q.head c v.head))
            (mod-lt (q.head + 1) (omega (arith, c.two)));
      tail = v.tail;
    }

    pub used-pushed :
        (value : A)
        → used capacity q + 1 < capacity
        → used capacity (pushed value) ≡ used capacity q + 1
    used-pushed value room =
        ap (distance capacity q.tail) (increment-eq-mod q.head c v.head)
        ∙ distance-push capacity q.tail q.head c.two v.tail v.head room

    pub contents-pushed :
        (value : A)
        → used capacity q + 1 < capacity
        → contents d capacity (pushed value) ≡ contents d capacity q ++ (value ∷ [])
    contents-pushed value room =
        ap (window d (set q.buffer q.head value) capacity q.tail) (used-pushed value room)
        ∙ window-Written d q.buffer (set q.buffer q.head value) capacity q.tail (used capacity q)
            q.head (value ∷ []) v.tail (omega arith)
            (sym (place-distance capacity q.tail q.head c.two v.tail v.head))
            (set-Written d q.buffer capacity q.head value v.head (omega (arith, v.sized)))

    -- A ring with the tail moved on.
    abbrev pub popped : Ring A
    popped = record q { tail = increment capacity q.tail }

    pub load-front : get_elem? q.buffer q.tail ≡ some (get_or q.buffer q.tail d)
    load-front = get_elem?-eq-get_or q.buffer q.tail d (omega (arith, v.sized, v.tail))

    pub popped-IsValid : IsValid capacity popped
    popped-IsValid = record {
      sized = v.sized;
      head = v.head;
      tail =
          subst (λ k. k < capacity) (sym (increment-eq-mod q.tail c v.tail))
            (mod-lt (q.tail + 1) (omega (arith, c.two)));
    }

    pub used-popped : 1 ≤ used capacity q → used capacity popped + 1 ≡ used capacity q
    used-popped left =
        ap (λ t. distance capacity t q.head + 1) (increment-eq-mod q.tail c v.tail)
        ∙ distance-pop capacity q.tail q.head c.two v.tail v.head left

    pub contents-popped :
        1 ≤ used capacity q
        → contents d capacity q ≡ get_or q.buffer q.tail d ∷ contents d capacity popped
    contents-popped left =
        ap (window d q.buffer capacity q.tail) {y = suc (used capacity popped)}
          (omega (arith, used-popped left))
        ∙ ap (λ t. get_or q.buffer q.tail d ∷ window d q.buffer capacity t (used capacity popped))
            (sym (increment-eq-mod q.tail c v.tail))

-- What the two tests of a queue say of the number of its items.
module _ {ℓ} {A : Type ℓ} {capacity : ℕ} {q : Ring A} (c : IsCapacity capacity)
    (v : IsValid capacity q) where
  pub used-lt : used capacity q < capacity
  used-lt = mod-lt (q.head + capacity - q.tail) (omega (arith, c.two))

  pub used-full : (increment capacity q.head == q.tail) ≡ true → used capacity q + 1 ≡ capacity
  used-full e =
      let full = (distance-full_iff capacity q.tail q.head c.two v.tail v.head).1 (
        sym (increment-eq-mod q.head c v.head) ∙ (==_iff (increment capacity q.head) q.tail).0 e) in
      omega (arith, full, c.two)

  pub used-room : (increment capacity q.head == q.tail) ≡ false → used capacity q + 1 < capacity
  used-room e =
      let full = distance-full_iff capacity q.tail q.head c.two v.tail v.head in
      let test = ==_iff (increment capacity q.head) q.tail in
      let next = increment-eq-mod q.head c v.head in
      ground (arith, full, test, next, used-lt, c.two)

  pub used-empty : (q.tail == q.head) ≡ true → used capacity q ≡ 0
  used-empty e =
      (distance-zero_iff capacity q.tail q.head c.two v.tail v.head).1 ((==_iff q.tail q.head).0 e)

  pub used-left : (q.tail == q.head) ≡ false → 1 ≤ used capacity q
  used-left e =
      ground
        (arith, distance-zero_iff capacity q.tail q.head c.two v.tail v.head, ==_iff q.tail q.head)

module _ {ℓ} {A : Type ℓ} (d : A) {capacity : ℕ} {q : Ring A} (c : IsCapacity capacity)
    (v : IsValid capacity q) where
  -- What the promise says of a ring in each case.
  pub push-full :
      (value : A)
      → used capacity q + 1 ≡ capacity
      → Queue.push (capacity - 1) (contents d capacity q) value ≡ (false, contents d capacity q)
  unfolding Queue.push
  push-full value full = rw (
      ltb-false (length (contents d capacity q)) (capacity - 1)
        (omega (arith, length-contents d capacity q)))

  pub push-room :
      (value : A)
      → used capacity q + 1 < capacity
      → Queue.push (capacity - 1) (contents d capacity q) value
        ≡ (true, contents d capacity (pushed d c v value))
  unfolding Queue.push
  push-room value room = rw (
    lt→ltb (length (contents d capacity q)) (capacity - 1)
        (omega (arith, length-contents d capacity q)),
    contents-pushed d c v value room,
  )

  pub pop-empty :
      (out : A)
      → used capacity q ≡ 0
      → Queue.pop (contents d capacity q) out ≡ (false, contents d capacity q, out)
  unfolding Queue.pop
  pop-empty out none_left = rw (ap (window d q.buffer capacity q.tail) none_left)

  pub pop-left :
      (out : A)
      → 1 ≤ used capacity q
      → Queue.pop (contents d capacity q) out
        ≡ (true, contents d capacity (popped d c v), get_or q.buffer q.tail d)
  unfolding Queue.pop
  pop-left out left = rw (contents-popped d c v left)
