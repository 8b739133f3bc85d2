-- ===== src/Spsc/Run.antt =====
-- A queue against its promise, over any sequence of pushes and pops.
use low_latency_trading_gate.Base.{ℕ, ◌≡◌, refl, List, [], ◌∷◌, Option, some, Bool, ◌>>=◌}
use low_latency_trading_gate.Spsc.Queue

pub data Call (A : Type 0) : Type 0 where
  push : A → Call A
  pop : A → Call A

pub data Answer (A : Type 0) : Type 0 where
  pushed : Bool → Answer A
  popped : Bool → A → Answer A

pub run :
    {A S : Type 0}
    → (S → A → Option (Bool × S))
    → (S → A → Option (Bool × S × A))
    → S
    → List (Call A)
    → Option (List (Answer A) × S)
run do_push do_pop q [] = some ([], q)
run do_push do_pop q (push value ∷ calls) = do
  (ok, q) ← do_push q value
  (answers, q) ← run do_push do_pop q calls
  some (pushed ok ∷ answers, q)
run do_push do_pop q (pop out ∷ calls) = do
  (ok, q, out) ← do_pop q out
  (answers, q) ← run do_push do_pop q calls
  some (popped ok out ∷ answers, q)

-- The same calls on a list of items.
unfoldable pub run_items : {A : Type 0} → ℕ → List A → List (Call A) → List (Answer A) × List A
run_items bound items [] = ([], items)
run_items bound items (push value ∷ calls) =
    let (ok, items) = Queue.push bound items value in
    let (answers, items) = run_items bound items calls in (pushed ok ∷ answers, items)
run_items bound items (pop out ∷ calls) =
    let (ok, items, out) = Queue.pop items out in
    let (answers, items) = run_items bound items calls in (popped ok out ∷ answers, items)

-- What makes a pair of functions a queue of at most `bound` items.
pub record IsQueue {A S : Type 0} (bound : ℕ) (do_push : S → A → Option (Bool × S))
    (do_pop : S → A → Option (Bool × S × A)) : Type 1 where
  pub IsValid : S → Type 0
  pub contents : S → List A
  pub push_refines :
      (q : S) (value : A)
      → IsValid q
      → (ok : Bool) × (q' : S) × (do_push q value ≡ some (ok, q'))
        × IsValid q'
        × ((ok, contents q') ≡ Queue.push bound (contents q) value)
  pub pop_refines :
      (q : S) (out : A)
      → IsValid q
      → (ok : Bool) × (q' : S) × (value : A) × (do_pop q out ≡ some (ok, q', value))
        × IsValid q'
        × ((ok, contents q', value) ≡ Queue.pop (contents q) out)

module _ {A S : Type 0} {bound : ℕ} {do_push : S → A → Option (Bool × S)}
    {do_pop : S → A → Option (Bool × S × A)} (queue : IsQueue bound do_push do_pop) where
  pub run_refines_queue :
      (calls : List (Call A)) {q : S}
      → queue.IsValid q
      → (answers : List (Answer A)) × (q' : S) × (run do_push do_pop q calls ≡ some (answers, q'))
        × queue.IsValid q'
        × ((answers, queue.contents q') ≡ run_items bound (queue.contents q) calls)
  unfolding run run_items
  run_refines_queue [] {q} v = ([], q, refl, v, refl)
  run_refines_queue (push value ∷ calls) {q} v =
      let (ok, q', e, w, k) = queue.push_refines q value v in
      let (answers, q'', e', w', k') = run_refines_queue calls w in
      (pushed ok ∷ answers, q'', rw (e, e'), w', rw (← k, ← k'))
  run_refines_queue (pop out ∷ calls) {q} v =
      let (ok, q', value, e, w, k) = queue.pop_refines q out v in
      let (answers, q'', e', w', k') = run_refines_queue calls w in
      (popped ok value ∷ answers, q'', rw (e, e'), w', rw (← k, ← k'))
