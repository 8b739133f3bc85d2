-- ===== src/Spsc/AtomicV3/Items.antt =====
-- What a property of all items in the queue comes to under `push` and `pop`.
use low_latency_trading_gate.Base.{
  ℕ, ◌-◌, ◌≡◌, ap, sym, ◌∙◌, some, subst, List, [], ◌∷◌, ◌++◌, Bool, true, false, ltb,
  if◌then◌else◌, length, All, All-append, Returns,
}
use low_latency_trading_gate.Spsc.Queue
use low_latency_trading_gate.Spsc.Places.{IsCapacity, contents}
use low_latency_trading_gate.Spsc.AtomicV3.{Cached, push, pop}
use low_latency_trading_gate.Spsc.AtomicV3.Refine.{IsValid, push_refines, pop_refines}

module _ {A : Type 0} (P : A → Type 0) where
  push-All :
      (bound : ℕ) (items : List A) (value : A)
      → All P items
      → P value
      → All P (Queue.push bound items value).1
  unfolding Queue.push
  push-All bound items value all p =
      elim (ltb (length items) bound)
        as (λ b. All P (
          let r : Bool × List A = if b then (true, items ++ (value ∷ [])) else (false, items) in
          r.1)) [ true ↦ All-append P items (value ∷ []) all (p, tt) | false ↦ all ]

  -- What a pop gives, if it gives an item.
  abbrev pub Popped : Bool → A → Type 0
  Popped true value = P value
  Popped false value = Unit {0}

  pop-All :
      (items : List A) (out : A)
      → All P items
      → let r = Queue.pop items out in All P r.1 × Popped r.0 r.2
  unfolding Queue.pop
  pop-All [] out all = (tt, tt)
  pop-All (item ∷ items) out all = (all.1, all.0)

  module _ (d : A) {capacity : ℕ} (c : IsCapacity capacity) where
    -- A valid queue all of whose items have the property.
    pub record Holds (q : Cached A) : Type 0 where
      pub valid : IsValid capacity q
      pub all : All P (contents d capacity q.ring)

    pub push-Holds :
        (q : Cached A) (value : A)
        → Holds q
        → P value
        → Returns (push capacity q value) (λ (r : Bool × Cached A).
          Holds r.1
          × ((r.0, contents d capacity r.1.ring)
              ≡ Queue.push (capacity - 1) (contents d capacity q.ring) value))
    push-Holds q value h p =
        let (ok, q', e, v, k) = push_refines d c q value h.valid in
        (
          (ok, q'),
          e,
          (
            record {
              valid = v;
              all =
                  subst (λ (r : Bool × List A). All P r.1) (sym k)
                    (push-All (capacity - 1) (contents d capacity q.ring) value h.all p);
            },
            k,
          ),
        )

    pop-Holds :
        (q : Cached A) (out : A)
        → Holds q
        → Returns (pop capacity q out) (λ (r : Bool × Cached A × A).
          Holds r.1
          × Popped r.0 r.2
          × ((r.0, contents d capacity r.1.ring, r.2) ≡ Queue.pop (contents d capacity q.ring) out))
    pop-Holds q out h =
        let (ok, q', value, e, v, k) = pop_refines d c q out h.valid in
        let rest =
          subst (λ (r : Bool × List A × A). All P r.1 × Popped r.0 r.2) (sym k)
            (pop-All (contents d capacity q.ring) out h.all) in
        ((ok, q', value), e, (record { valid = v; all = rest.0 }, rest.1, k))

    -- The same, for a queue of known items.
    pub pop_items :
        (items : List A) (q : Cached A) (out : A)
        → Holds q
        → contents d capacity q.ring ≡ items
        → let r = Queue.pop items out in
          (q' : Cached A) × (pop capacity q out ≡ some (r.0, q', r.2))
          × Holds q'
          × (contents d capacity q'.ring ≡ r.1)
          × Popped r.0 r.2
    pop_items items q out h same =
        let ((ok, q', value), e, (h', p, k)) = pop-Holds q out h in
        let said = k ∙ ap (λ (items : List A). Queue.pop items out) same in
        (
          q',
          e ∙ ap (λ (r : Bool × List A × A). some (r.0, q', r.2)) said,
          h',
          ap (λ (r : Bool × List A × A). r.1) said,
          subst (λ (r : Bool × List A × A). Popped r.0 r.2) said p,
        )
