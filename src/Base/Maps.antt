-- ===== src/Base/Maps.antt =====
-- Maps with number keys, as association lists: what the sources call of std::unordered_map.
use Prim.Native.Nat.{ℕ, ◌+◌}
use mathlib.Core.Path.{◌≡◌, refl}
use mathlib.Core.Option.{Option, none, some}
use mathlib.Core.List.{List, [], ◌∷◌}
use native.Mathlib.Omega.{arith}
use low_latency_trading_gate.Base.Tests.{◌==◌, if◌then◌else◌}
use low_latency_trading_gate.Base.Lists.{length}

module _ {V : Type 0} where
  unfoldable pub find : ℕ → List (ℕ × V) → Option V
  find k [] = none
  find k ((j, h) ∷ m) = if j == k then some h else find k m

  -- Inserts unless the key is there.
  unfoldable pub emplace : ℕ → V → List (ℕ × V) → List (ℕ × V)
  emplace k h [] = (k, h) ∷ []
  emplace k h ((j, g) ∷ m) = if j == k then (j, g) ∷ m else (j, g) ∷ emplace k h m

  -- erase(it), for the iterator of the entry at the key
  unfoldable pub erase : ℕ → List (ℕ × V) → List (ℕ × V)
  erase k [] = []
  erase k ((j, g) ∷ m) = if j == k then m else (j, g) ∷ erase k m

  -- it->second = h, for the iterator of the entry at the key
  unfoldable pub assign : ℕ → V → List (ℕ × V) → List (ℕ × V)
  assign k h [] = []
  assign k h ((j, g) ∷ m) = if j == k then (j, h) ∷ m else (j, g) ∷ assign k h m

  unfoldable pub count : List (ℕ × V) → ℕ
  count m = length m

  -- Each key stands once: a map.
  abbrev pub Distinct : List (ℕ × V) → Type 0
  Distinct [] = Unit {0}
  Distinct ((j, g) ∷ m) = (find j m ≡ none) × Distinct m

  pub find-emplace :
      (k : ℕ) (h : V) (j : ℕ) (m : List (ℕ × V))
      → find k m ≡ none
      → find j (emplace k h m) ≡ (if k == j then some h else find j m)
  unfolding find emplace
  find-emplace k h j [] fresh = refl
  find-emplace k h j ((i, g) ∷ m) fresh = ground (arith, find-emplace k h j m)

  -- A key that is there keeps its value.
  pub emplace_old :
      (k : ℕ) (h : V) (m : List (ℕ × V)) (old : V) → find k m ≡ some old → emplace k h m ≡ m
  unfolding find emplace
  emplace_old k h [] old there = cc
  emplace_old k h ((i, g) ∷ m) old there = ground (arith, emplace_old k h m old)

  pub find-erase :
      (k j : ℕ) (m : List (ℕ × V))
      → Distinct m
      → find j (erase k m) ≡ (if k == j then none else find j m)
  unfolding find erase
  find-erase k j [] d = ground arith
  find-erase k j ((i, g) ∷ m) d = ground (arith, find-erase k j m d.1)

  pub find-assign :
      (k : ℕ) (h : V) (j : ℕ) (m : List (ℕ × V)) (old : V)
      → find k m ≡ some old
      → find j (assign k h m) ≡ (if k == j then some h else find j m)
  unfolding find assign
  find-assign k h j [] old there = cc
  find-assign k h j ((i, g) ∷ m) old there = ground (arith, find-assign k h j m old)

  pub find-assign_none :
      (k : ℕ) (h : V) (j : ℕ) (m : List (ℕ × V)) → find j m ≡ none → find j (assign k h m) ≡ none
  unfolding find assign
  find-assign_none k h j [] gone = refl
  find-assign_none k h j ((i, g) ∷ m) gone = ground (arith, find-assign_none k h j m)

  pub emplace-Distinct :
      (k : ℕ) (h : V) (m : List (ℕ × V)) → find k m ≡ none → Distinct m → Distinct (emplace k h m)
  unfolding find emplace
  emplace-Distinct k h [] fresh d = (refl, tt)
  emplace-Distinct k h ((i, g) ∷ m) fresh d =
      ground (arith, emplace-Distinct k h m, find-emplace k h i m)

  pub erase-Distinct : (k : ℕ) (m : List (ℕ × V)) → Distinct m → Distinct (erase k m)
  unfolding find erase
  erase-Distinct k [] d = tt
  erase-Distinct k ((i, g) ∷ m) d = ground (arith, erase-Distinct k m d.1, find-erase k i m d.1)

  pub assign-Distinct : (k : ℕ) (h : V) (m : List (ℕ × V)) → Distinct m → Distinct (assign k h m)
  unfolding find assign
  assign-Distinct k h [] d = tt
  assign-Distinct k h ((i, g) ∷ m) d =
      ground (arith, assign-Distinct k h m d.1, find-assign_none k h i m)

  pub count-emplace :
      (k : ℕ) (h : V) (m : List (ℕ × V)) → find k m ≡ none → count (emplace k h m) ≡ count m + 1
  unfolding find emplace count
  count-emplace k h [] fresh = omega arith
  count-emplace k h ((i, g) ∷ m) fresh = ground (arith, count-emplace k h m)

  pub count-erase :
      (k : ℕ) (m : List (ℕ × V)) (h : V) → find k m ≡ some h → count (erase k m) + 1 ≡ count m
  unfolding find erase count
  count-erase k [] h found = cc
  count-erase k ((i, g) ∷ m) h found = ground (arith, count-erase k m h)
