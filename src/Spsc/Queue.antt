-- ===== src/Spsc/Queue.antt =====
-- What a queue promises: the items in the order they were pushed, at most `bound` of them.
use low_latency_trading_gate.Base.{
  ℕ, List, [], ◌∷◌, ◌++◌, Bool, true, false, ltb, if◌then◌else◌, length,
}

unfoldable pub push {ℓ} : {A : Type ℓ} → ℕ → List A → A → Bool × List A
push bound items value =
    if ltb (length items) bound then (true, items ++ (value ∷ [])) else (false, items)

-- `out` is as it was where there is no item.
unfoldable pub pop {ℓ} : {A : Type ℓ} → List A → A → Bool × List A × A
pop [] out = (false, [], out)
pop (item ∷ items) out = (true, items, item)
