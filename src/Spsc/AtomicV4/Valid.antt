-- ===== src/Spsc/AtomicV4/Valid.antt =====
-- The invariant of the queue with counters, and what a push and a pop do to its items.
use native.Mathlib.Nat.{mod-lt, mod-mod_of_dvd, mod-add-mod}
use low_latency_trading_gate.Base.{
  ℕ, ◌+◌, ◌-◌, ◌%◌, ◌^◌, ◌≤◌, ◌<◌, ◌≡◌, refl, sym, ap, ◌∙◌, subst, List, [], ◌∷◌, ◌++◌, arith,
  length, set, length-set, bit_and,
}
use Prim.Native.Nat.{◌∣◌}
use low_latency_trading_gate.Base.Bits.{bit_and-mask, two_pow_dvd}
use low_latency_trading_gate.Base.Window.{window, length-window, window-Written, set-Written}
use low_latency_trading_gate.Spsc.Places.{IsCapacity, capacity-le}
use low_latency_trading_gate.Spsc.AtomicV4.{Counters, idx_of, minus, next_counter, used}

-- Between calls the counters of the threads are the shared ones, and a copy is a position that the
-- other thread once had.
pub record IsValid {A : Type 0} (capacity : ℕ) (q : Counters A) : Type 0 where
  pub sized : length q.buffer ≡ capacity
  pub head_in : q.head < 2 ^ 64
  pub tail_in : q.tail < 2 ^ 64
  pub tail_copy_in : q.producer_tail < 2 ^ 64
  pub head_copy_in : q.consumer_head < 2 ^ 64
  pub own_head : q.producer_head ≡ q.head
  pub own_tail : q.consumer_tail ≡ q.tail
  pub fits : minus q.head q.producer_tail ≤ capacity
  pub room : used q ≤ minus q.head q.producer_tail
  pub items : minus q.consumer_head q.tail ≤ used q

module _ {A : Type 0} (d : A) {capacity : ℕ} (c : IsCapacity capacity) where
  abbrev pub contents : Counters A → List A
  contents q = window d q.buffer capacity (q.tail % capacity) (used q)

  pub length-contents : (q : Counters A) → length (contents q) ≡ used q
  length-contents q = length-window d q.buffer capacity (q.tail % capacity) (used q)

  capacity-dvd : capacity ∣ 2 ^ 64
  capacity-dvd =
      subst (λ t. t ∣ 2 ^ 64) (sym c.power) (two_pow_dvd c.exponent 64 (omega (arith, c.word)))

  pub idx_of-eq-mod : (counter : ℕ) → idx_of capacity counter ≡ counter % capacity
  unfolding idx_of
  idx_of-eq-mod counter =
      subst (λ t. bit_and counter (t - 1) ≡ counter % t) (sym c.power)
        (bit_and-mask c.exponent counter)

  pub idx_of-lt : (counter : ℕ) → idx_of capacity counter < capacity
  idx_of-lt counter =
      subst (λ k. k < capacity) (sym (idx_of-eq-mod counter))
        (mod-lt counter (omega (arith, c.two)))

  -- A place moves on with its counter, also where that wraps.
  pub place_add :
      (counter n : ℕ) → (counter + n) % 2 ^ 64 % capacity ≡ (counter % capacity + n) % capacity
  place_add counter n =
      mod-mod_of_dvd capacity (counter + n) capacity-dvd ∙ sym (mod-add-mod counter capacity n)

  module _ {q : Counters A} (v : IsValid capacity q) where
    head-place : idx_of capacity q.producer_head ≡ (q.tail % capacity + used q) % capacity
    head-place =
        idx_of-eq-mod q.producer_head
        ∙ (ap (λ k. k % capacity) {x = q.producer_head} {y = (q.tail + used q) % 2 ^ 64}
              (omega (arith, v.own_head, v.head_in, v.tail_in))
            ∙ place_add q.tail (used q))

    unfoldable pub pushed : A → Counters A
    pushed value = record q {
      buffer = set q.buffer (idx_of capacity q.producer_head) value;
      producer_head = next_counter q.producer_head;
      head = next_counter q.producer_head;
    }

    pub used-pushed : (value : A) → used q < capacity → used (pushed value) ≡ used q + 1
    unfolding pushed
    used-pushed value room = omega (arith, v.own_head, v.head_in, v.tail_in, capacity-le c)

    pub pushed-IsValid :
        (value : A) → minus q.head q.producer_tail < capacity → IsValid capacity (pushed value)
    unfolding pushed
    pushed-IsValid value room = record {
      sized = length-set q.buffer (idx_of capacity q.producer_head) value ∙ v.sized;
      head_in = omega arith;
      tail_in = v.tail_in;
      tail_copy_in = v.tail_copy_in;
      head_copy_in = v.head_copy_in;
      own_head = refl;
      own_tail = v.own_tail;
      fits = omega (arith, v.own_head, v.head_in, v.tail_copy_in, capacity-le c);
      room = omega (arith, v.own_head, v.head_in, v.tail_in, v.tail_copy_in, v.room, capacity-le c);
      items =
          omega (
            arith,
            v.own_head,
            v.head_in,
            v.tail_in,
            v.head_copy_in,
            v.items,
            v.room,
            capacity-le c,
          );
    }

    pub contents-pushed :
        (value : A) → used q < capacity → contents (pushed value) ≡ contents q ++ (value ∷ [])
    unfolding pushed
    contents-pushed value room =
        ap
          (window d (set q.buffer (idx_of capacity q.producer_head) value) capacity
            (q.tail % capacity))
          (used-pushed value room)
        ∙ window-Written d q.buffer (set q.buffer (idx_of capacity q.producer_head) value) capacity
            (q.tail % capacity) (used q) (idx_of capacity q.producer_head) (value ∷ [])
            (mod-lt q.tail (omega (arith, c.two))) (omega arith) head-place
            (set-Written d q.buffer capacity (idx_of capacity q.producer_head) value
              (idx_of-lt q.producer_head) (omega (arith, v.sized)))

    unfoldable pub popped : Counters A
    popped = record q {
      consumer_tail = next_counter q.consumer_tail;
      tail = next_counter q.consumer_tail;
    }

    pub used-popped : 1 ≤ used q → used popped + 1 ≡ used q
    unfolding popped
    used-popped left = omega (arith, v.own_tail, v.head_in, v.tail_in)

    pub popped-IsValid : 1 ≤ minus q.consumer_head q.tail → IsValid capacity popped
    unfolding popped
    popped-IsValid left = record {
      sized = v.sized;
      head_in = v.head_in;
      tail_in = omega arith;
      tail_copy_in = v.tail_copy_in;
      head_copy_in = v.head_copy_in;
      own_head = v.own_head;
      own_tail = refl;
      fits = v.fits;
      room = omega (arith, v.own_tail, v.head_in, v.tail_in, v.room, v.items);
      items = omega (arith, v.own_tail, v.head_in, v.tail_in, v.head_copy_in, v.items);
    }
