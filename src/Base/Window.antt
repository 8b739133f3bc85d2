-- ===== src/Base/Window.antt =====
-- A circular buffer of `cap` places, seen as the list of its items: shared by the frame parser and
-- by the SPSC queues.
use native.Mathlib.Nat.{mod-add-mod, mod-eq_of_lt, mod-eq-sub-mod, mod-lt}
use native.Mathlib.Decide.{dec_lt}
use Prim.Native.Nat.{ℕ, zero, suc, ◌+◌, ◌-◌, ◌%◌, ◌≤◌, ◌<◌}
use mathlib.Core.Path.{◌≡◌, refl, sym, ap, ap₂, ◌∙◌}
use mathlib.Core.Logic.{◌≢◌, ◌⊎◌, inl, inr}
use mathlib.Core.List.{List, [], ◌∷◌, ◌++◌}
use native.Mathlib.Omega.{arith}
use low_latency_trading_gate.Base.Lists.{
  length, get_or, set, splice, slice, take, drop, get_or-set_self, get_or-set_ne,
}

-- One round at most.
pub wrap-cases :
    (x cap : ℕ) → x < cap + cap → ((x < cap) × (x % cap ≡ x)) ⊎ ((cap ≤ x) × (x % cap ≡ x - cap))
wrap-cases x cap h = elim (dec_lt x cap) [
  | yes p ↦ inl (p, mod-eq_of_lt p)
  | no p ↦ inr (omega arith, mod-eq-sub-mod (omega arith) ∙ mod-eq_of_lt (omega arith))
]

-- Places at different distances below `cap` are different.
pub place-ne : (cap h i j : ℕ) → h < cap → i < cap → j < cap → i ≢ j → (h + i) % cap ≢ (h + j) % cap
place-ne cap h i j hh hi hj ne =
    ground (arith, wrap-cases (h + i) cap (omega arith), wrap-cases (h + j) cap (omega arith))

module _ {ℓ} {A : Type ℓ} (d : A) where
  -- The `n` items from place `h` on, going round at `cap`.
  abbrev pub window : List A → ℕ → ℕ → ℕ → List A
  window buf cap h zero = []
  window buf cap h (suc n) = get_or buf h d ∷ window buf cap ((h + 1) % cap) n

  pub length-window : (buf : List A) (cap h n : ℕ) → length (window buf cap h n) ≡ n
  length-window buf cap h zero = refl
  length-window buf cap h (suc n) = ap suc (length-window buf cap ((h + 1) % cap) n)

  next-place : (cap h i : ℕ) → ((h + 1) % cap + i) % cap ≡ (h + suc i) % cap
  next-place cap h i = mod-add-mod (h + 1) cap i ∙ ap (λ k. k % cap) (omega arith)

  here-place : (cap h : ℕ) → h < cap → (h + 0) % cap ≡ h
  here-place cap h hh = ap (λ k. k % cap) {x = h + 0} {y = h} (omega arith) ∙ mod-eq_of_lt hh

  pub window-append :
      (buf : List A) (cap h n m : ℕ)
      → h < cap
      → window buf cap h (n + m) ≡ window buf cap h n ++ window buf cap ((h + n) % cap) m
  window-append buf cap h zero m hh =
      ap (window buf cap h) {x = zero + m} {y = m} (omega arith)
      ∙ ap (λ k. window buf cap k m) (sym (here-place cap h hh))
  window-append buf cap h (suc n) m hh =
      ap (window buf cap h) {x = suc n + m} {y = suc (n + m)} (omega arith)
      ∙ ap (◌∷◌ (get_or buf h d)) (
          window-append buf cap ((h + 1) % cap) n m (mod-lt (h + 1) (omega arith))
          ∙ ap (λ k. window buf cap ((h + 1) % cap) n ++ window buf cap k m) (next-place cap h n))

  -- Two buffers that agree on the places of a window have the same window.
  pub window-congr :
      (buf buf' : List A) (cap h n : ℕ)
      → h < cap
      → ((i : ℕ) → i < n → get_or buf' ((h + i) % cap) d ≡ get_or buf ((h + i) % cap) d)
      → window buf' cap h n ≡ window buf cap h n
  window-congr buf buf' cap h zero hh same = refl
  window-congr buf buf' cap h (suc n) hh same =
      ap₂ ◌∷◌
        (ap (λ k. get_or buf' k d) (sym (here-place cap h hh))
          ∙ (same 0 (omega arith) ∙ ap (λ k. get_or buf k d) (here-place cap h hh)))
        (window-congr buf buf' cap ((h + 1) % cap) n (mod-lt (h + 1) (omega arith)) λ i hi.
          ap (λ k. get_or buf' k d) (next-place cap h i)
          ∙ (same (suc i) (omega arith) ∙ ap (λ k. get_or buf k d) (sym (next-place cap h i))))

  -- A window that holds a list's items is that list.
  pub window-eq :
      (buf : List A) (cap h : ℕ) (xs : List A)
      → h < cap
      → ((i : ℕ) → i < length xs → get_or buf ((h + i) % cap) d ≡ get_or xs i d)
      → window buf cap h (length xs) ≡ xs
  window-eq buf cap h [] hh held = refl
  window-eq buf cap h (x ∷ xs) hh held =
      ap₂ ◌∷◌ (ap (λ k. get_or buf k d) (sym (here-place cap h hh)) ∙ held 0 (omega arith)) (
        window-eq buf cap ((h + 1) % cap) xs (mod-lt (h + 1) (omega arith))
          λ i hi. ap (λ k. get_or buf k d) (next-place cap h i) ∙ held (suc i) (omega arith))

  -- `xs` written round the buffer from place `t` on: its items stand at their places, and every
  -- other place is as it was.
  pub record Written (buf buf' : List A) (cap t : ℕ) (xs : List A) : Type ℓ where
    pub new : (i : ℕ) → i < length xs → get_or buf' ((t + i) % cap) d ≡ get_or xs i d
    pub old :
        (j : ℕ)
        → j < cap
        → ((i : ℕ) → i < length xs → j ≢ (t + i) % cap)
        → get_or buf' j d ≡ get_or buf j d

  -- What is written right behind a window extends it.
  pub window-Written :
      (buf buf' : List A) (cap h n t : ℕ) (xs : List A)
      → h < cap
      → n + length xs ≤ cap
      → t ≡ (h + n) % cap
      → Written buf buf' cap t xs
      → window buf' cap h (n + length xs) ≡ window buf cap h n ++ xs
  window-Written buf buf' cap h n t xs hh room e w =
      window-append buf' cap h n (length xs) hh
      ∙ ap₂ ◌++◌ (window-congr buf buf' cap h n hh kept) (
          ap (λ k. window buf' cap k (length xs)) (sym e)
          ∙ window-eq buf' cap t xs (omega (arith, mod-lt (h + n) {m = cap} (omega arith))) w.new)
    where
      place : (i : ℕ) → (t + i) % cap ≡ (h + (n + i)) % cap
      place i =
          ap (λ k. (k + i) % cap) e ∙ (mod-add-mod (h + n) cap i ∙ ap (λ k. k % cap) (omega arith))

      kept : (i : ℕ) → i < n → get_or buf' ((h + i) % cap) d ≡ get_or buf ((h + i) % cap) d
      kept i hi = w.old ((h + i) % cap) (mod-lt (h + i) (omega arith)) λ k hk same.
          place-ne cap h i (n + k) hh (omega arith) (omega arith) (omega arith) (same ∙ place k)

  slice-cons :
      (h n : ℕ) (xs : List A)
      → h < length xs
      → slice h (suc n) xs ≡ get_or xs h d ∷ slice (suc h) n xs
  slice-cons h n [] hh = absurd (omega arith)
  slice-cons zero n (x ∷ xs) hh = refl
  slice-cons (suc h) n (x ∷ xs) hh = slice-cons h n xs (omega arith)

  -- A window that does not go round is a slice.
  pub window-slice :
      (buf : List A) (cap h n : ℕ)
      → h + n ≤ cap
      → cap ≤ length buf
      → window buf cap h n ≡ slice h n buf
  window-slice buf cap h zero fits size = refl
  window-slice buf cap h (suc zero) fits size = sym (slice-cons h 0 buf (omega arith))
  window-slice buf cap h (suc (suc n)) fits size =
      ap (◌∷◌ (get_or buf h d)) (
        ap (λ k. window buf cap k (suc n))
          (mod-eq_of_lt {n = h + 1} {m = cap} (omega arith) ∙ omega arith)
        ∙ window-slice buf cap (suc h) (suc n) (omega arith) size)
      ∙ sym (slice-cons h (suc n) buf (omega arith))

  -- One item written at its place.
  pub set-Written :
      (buf : List A) (cap t : ℕ) (x : A)
      → t < cap
      → cap ≤ length buf
      → Written buf (set buf t x) cap t (x ∷ [])
  set-Written buf cap t x ht room = record {
    new = λ i hi.
        ap (λ k. get_or (set buf t x) k d) (place i hi)
        ∙ (get_or-set_self buf t x d (omega arith)
            ∙ ap (λ k. get_or (x ∷ []) k d) {x = 0} {y = i} (omega arith));
    old = λ j hj ne.
        get_or-set_ne buf x d (λ e. ne 0 (omega arith) (sym e ∙ sym (place 0 (omega arith))));
  }
    where
      place : (i : ℕ) → i < 1 → (t + i) % cap ≡ t
      place i hi = ap (λ k. k % cap) {x = t + i} {y = t} (omega arith) ∙ mod-eq_of_lt ht

  pub get_or-splice :
      (bs xs : List A) (off j : ℕ)
      → off ≤ j
      → j < off + length bs
      → j < length xs
      → get_or (splice off bs xs) j d ≡ get_or bs (j - off) d
  get_or-splice bs [] off j lo hi h = absurd (omega arith)
  get_or-splice bs (x ∷ xs) (suc off) zero lo hi h = absurd (omega arith)
  get_or-splice bs (x ∷ xs) (suc off) (suc j) lo hi h =
      get_or-splice bs xs off j (omega arith) (omega arith) (omega arith)
      ∙ ap (λ k. get_or bs k d) (omega arith)
  get_or-splice [] (x ∷ xs) zero j lo hi h = absurd (omega arith)
  get_or-splice (b ∷ bs) (x ∷ xs) zero zero lo hi h = refl
  get_or-splice (b ∷ bs) (x ∷ xs) zero (suc j) lo hi h =
      get_or-splice bs xs zero j (omega arith) (omega arith) (omega arith)
      ∙ ap (λ k. get_or (b ∷ bs) k d) {x = suc (j - 0)} {y = suc j - 0} (omega arith)

  pub get_or-splice_ne :
      (bs xs : List A) (off j : ℕ)
      → (j < off) ⊎ (off + length bs ≤ j)
      → get_or (splice off bs xs) j d ≡ get_or xs j d
  get_or-splice_ne bs [] off j out = refl
  get_or-splice_ne bs (x ∷ xs) (suc off) zero out = refl
  get_or-splice_ne bs (x ∷ xs) (suc off) (suc j) out = get_or-splice_ne bs xs off j (omega arith)
  get_or-splice_ne [] (x ∷ xs) zero j out = refl
  get_or-splice_ne (b ∷ bs) (x ∷ xs) zero zero out = absurd (omega arith)
  get_or-splice_ne (b ∷ bs) (x ∷ xs) zero (suc j) out =
      get_or-splice_ne bs xs zero j (inr (omega arith))

  pub get_or-take : (n : ℕ) (xs : List A) (i : ℕ) → i < n → get_or (take n xs) i d ≡ get_or xs i d
  get_or-take zero xs i h = absurd (omega arith)
  get_or-take (suc n) [] i h = refl
  get_or-take (suc n) (x ∷ xs) zero h = refl
  get_or-take (suc n) (x ∷ xs) (suc i) h = get_or-take n xs i (omega arith)

  pub get_or-drop : (n : ℕ) (xs : List A) (i : ℕ) → get_or (drop n xs) i d ≡ get_or xs (n + i) d
  get_or-drop zero xs i = ap (λ k. get_or xs k d) (omega arith)
  get_or-drop (suc n) [] i = refl
  get_or-drop (suc n) (x ∷ xs) i =
      get_or-drop n xs i
      ∙ ap (λ k. get_or (x ∷ xs) k d) {x = suc (n + i)} {y = suc n + i} (omega arith)
