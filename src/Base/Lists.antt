-- ===== src/Base/Lists.antt =====
-- Lists measured and indexed by native numbers, under the library's names: C++ arrays and spans.
use Prim.Native.Nat.{ℕ, zero, suc, ◌+◌, ◌-◌, ◌≤◌, ◌<◌, min}
use mathlib.Core.Path.{◌≡◌, refl, ap, ◌∙◌}
use mathlib.Core.Logic.{◌≢◌}
use mathlib.Core.List.{List, [], ◌∷◌, ◌++◌}
use mathlib.Core.Option.{Option, none, some}
use native.Mathlib.Omega.{arith}

module _ {ℓ} {A : Type ℓ} where
  abbrev pub length : List A → ℕ
  length [] = 0
  length (x ∷ xs) = suc (length xs)

  abbrev pub get_elem? : List A → ℕ → Option A
  get_elem? [] i = none
  get_elem? (x ∷ xs) zero = some x
  get_elem? (x ∷ xs) (suc i) = get_elem? xs i

  abbrev pub get_or : List A → ℕ → A → A
  get_or [] i d = d
  get_or (x ∷ xs) zero d = x
  get_or (x ∷ xs) (suc i) d = get_or xs i d

  -- A write out of range changes nothing.
  abbrev pub set : List A → ℕ → A → List A
  set [] i v = []
  set (x ∷ xs) zero v = v ∷ xs
  set (x ∷ xs) (suc i) v = x ∷ set xs i v

  abbrev pub take : ℕ → List A → List A
  take zero xs = []
  take (suc n) [] = []
  take (suc n) (x ∷ xs) = x ∷ take n xs

  abbrev pub drop : ℕ → List A → List A
  drop zero xs = xs
  drop (suc n) [] = []
  drop (suc n) (x ∷ xs) = drop n xs

  abbrev pub replicate : ℕ → A → List A
  replicate zero a = []
  replicate (suc n) a = a ∷ replicate n a

  -- The items from `off` on overwritten by `bs`, as far as there are any.
  abbrev pub splice : ℕ → List A → List A → List A
  splice off bs [] = []
  splice (suc off) bs (x ∷ xs) = x ∷ splice off bs xs
  splice zero [] (x ∷ xs) = x ∷ xs
  splice zero (b ∷ bs) (x ∷ xs) = b ∷ splice zero bs xs

  -- The `n` items from `off` on.
  abbrev pub slice : ℕ → ℕ → List A → List A
  slice off n xs = take n (drop off xs)

  abbrev pub All {κ} : (A → Type κ) → List A → Type κ
  All P [] = Unit
  All P (x ∷ xs) = P x × All P xs

module _ {ℓ} {A : Type ℓ} where
  pub length-append : (xs ys : List A) → length (xs ++ ys) ≡ length xs + length ys
  length-append [] ys = omega arith
  length-append (x ∷ xs) ys = omega (arith, length-append xs ys)

  pub length-drop : (n : ℕ) (xs : List A) → length (drop n xs) ≡ length xs - n
  length-drop zero xs = omega arith
  length-drop (suc n) [] = omega arith
  length-drop (suc n) (x ∷ xs) = omega (arith, length-drop n xs)

  pub length-take : (n : ℕ) (xs : List A) → length (take n xs) ≡ min n (length xs)
  length-take zero xs = omega arith
  length-take (suc n) [] = omega arith
  length-take (suc n) (x ∷ xs) = omega (arith, length-take n xs)

  pub length-replicate : (n : ℕ) (a : A) → length (replicate n a) ≡ n
  length-replicate zero a = refl
  length-replicate (suc n) a = ap suc (length-replicate n a)

  pub length-set : (xs : List A) (i : ℕ) (v : A) → length (set xs i v) ≡ length xs
  length-set [] i v = refl
  length-set (x ∷ xs) zero v = refl
  length-set (x ∷ xs) (suc i) v = ap suc (length-set xs i v)

  pub length-splice : (off : ℕ) (bs xs : List A) → length (splice off bs xs) ≡ length xs
  length-splice off bs [] = refl
  length-splice (suc off) bs (x ∷ xs) = ap suc (length-splice off bs xs)
  length-splice zero [] (x ∷ xs) = refl
  length-splice zero (b ∷ bs) (x ∷ xs) = ap suc (length-splice zero bs xs)

  pub get_elem?-drop :
      (n : ℕ) (xs : List A) (i : ℕ) → get_elem? xs (n + i) ≡ get_elem? (drop n xs) i
  get_elem?-drop zero xs i = ap (get_elem? xs) (omega arith)
  get_elem?-drop (suc n) [] i = refl
  get_elem?-drop (suc n) (x ∷ xs) i =
      ap (get_elem? (x ∷ xs)) {x = suc n + i} {y = suc (n + i)} (omega arith)
      ∙ get_elem?-drop n xs i

  pub get_elem?-eq-get_or :
      (xs : List A) (i : ℕ) (d : A) → i < length xs → get_elem? xs i ≡ some (get_or xs i d)
  get_elem?-eq-get_or [] i d h = absurd (omega arith)
  get_elem?-eq-get_or (x ∷ xs) zero d h = refl
  get_elem?-eq-get_or (x ∷ xs) (suc i) d h = get_elem?-eq-get_or xs i d (omega arith)

  pub get_or-set_self :
      (xs : List A) (i : ℕ) (v d : A) → i < length xs → get_or (set xs i v) i d ≡ v
  get_or-set_self [] i v d h = absurd (omega arith)
  get_or-set_self (x ∷ xs) zero v d h = refl
  get_or-set_self (x ∷ xs) (suc i) v d h = get_or-set_self xs i v d (omega arith)

  pub get_or-set_ne :
      (xs : List A) {i j : ℕ} (v d : A) → i ≢ j → get_or (set xs i v) j d ≡ get_or xs j d
  get_or-set_ne [] v d h = refl
  get_or-set_ne (x ∷ xs) {i = zero} {j = zero} v d h = absurd (h refl)
  get_or-set_ne (x ∷ xs) {i = zero} {j = suc j} v d h = refl
  get_or-set_ne (x ∷ xs) {i = suc i} {j = zero} v d h = refl
  get_or-set_ne (x ∷ xs) {i = suc i} {j = suc j} v d h = get_or-set_ne xs v d (λ e. h (ap suc e))

  -- One write is a splice of one item.
  pub set-eq-splice : (xs : List A) (i : ℕ) (v : A) → set xs i v ≡ splice i (v ∷ []) xs
  set-eq-splice [] i v = refl
  set-eq-splice (x ∷ []) zero v = refl
  set-eq-splice (x ∷ y ∷ xs) zero v = refl
  set-eq-splice (x ∷ xs) (suc i) v = ap (◌∷◌ x) (set-eq-splice xs i v)

  -- Adjacent splices are one.
  pub splice-append :
      (off : ℕ) (bs cs xs : List A)
      → splice (off + length bs) cs (splice off bs xs) ≡ splice off (bs ++ cs) xs
  splice-append off bs cs [] = refl
  splice-append (suc off) bs cs (x ∷ xs) =
      ap (λ n. splice n cs (x ∷ splice off bs xs)) {x = suc off + length bs}
        {y = suc (off + length bs)} (omega arith)
      ∙ ap (◌∷◌ x) (splice-append off bs cs xs)
  splice-append zero [] cs (x ∷ xs) = refl
  splice-append zero (b ∷ bs) cs (x ∷ xs) =
      ap (λ n. splice n cs (b ∷ splice zero bs xs)) {x = zero + suc (length bs)}
        {y = suc (zero + length bs)} (omega arith)
      ∙ ap (◌∷◌ b) (splice-append zero bs cs xs)

  pub splice-zero :
      (bs xs : List A) → length bs ≤ length xs → splice zero bs xs ≡ bs ++ drop (length bs) xs
  splice-zero [] [] h = refl
  splice-zero [] (x ∷ xs) h = refl
  splice-zero (b ∷ bs) [] h = absurd (omega arith)
  splice-zero (b ∷ bs) (x ∷ xs) h = ap (◌∷◌ b) (splice-zero bs xs (omega arith))

  pub All-drop {κ} : (P : A → Type κ) (n : ℕ) (xs : List A) → All P xs → All P (drop n xs)
  All-drop P zero xs h = h
  All-drop P (suc n) [] h = h
  All-drop P (suc n) (x ∷ xs) h = All-drop P n xs h.1

  pub All-take {κ} : (P : A → Type κ) (n : ℕ) (xs : List A) → All P xs → All P (take n xs)
  All-take P zero xs h = tt
  All-take P (suc n) [] h = tt
  All-take P (suc n) (x ∷ xs) h = (h.0, All-take P n xs h.1)

  pub All-append {κ} : (P : A → Type κ) (xs ys : List A) → All P xs → All P ys → All P (xs ++ ys)
  All-append P [] ys hx hy = hy
  All-append P (x ∷ xs) ys hx hy = (hx.0, All-append P xs ys hx.1 hy)

  pub All-splice {κ} :
      (P : A → Type κ) (off : ℕ) (bs xs : List A) → All P bs → All P xs → All P (splice off bs xs)
  All-splice P off bs [] hb hx = tt
  All-splice P (suc off) bs (x ∷ xs) hb hx = (hx.0, All-splice P off bs xs hb hx.1)
  All-splice P zero [] (x ∷ xs) hb hx = hx
  All-splice P zero (b ∷ bs) (x ∷ xs) hb hx = (hb.0, All-splice P zero bs xs hb.1 hx.1)

  pub take-append : (xs ys : List A) → take (length xs) (xs ++ ys) ≡ xs
  take-append [] ys = refl
  take-append (x ∷ xs) ys = ap (◌∷◌ x) (take-append xs ys)

  pub drop-append : (xs ys : List A) → drop (length xs) (xs ++ ys) ≡ ys
  drop-append [] ys = refl
  drop-append (x ∷ xs) ys = drop-append xs ys

  pub take-take : (n m : ℕ) (xs : List A) → n ≤ m → take n (take m xs) ≡ take n xs
  take-take zero m xs h = refl
  take-take (suc n) zero xs h = absurd (omega arith)
  take-take (suc n) (suc m) [] h = refl
  take-take (suc n) (suc m) (x ∷ xs) h = ap (◌∷◌ x) (take-take n m xs (omega arith))

  pub slice-take :
      (off n m : ℕ) (xs : List A) → off + n ≤ m → slice off n (take m xs) ≡ slice off n xs
  slice-take zero n m xs h = take-take n m xs (omega arith)
  slice-take (suc off) n zero xs h = absurd (omega arith)
  slice-take (suc off) n (suc m) [] h = refl
  slice-take (suc off) n (suc m) (x ∷ xs) h = slice-take off n m xs (omega arith)

  pub take-length : (xs : List A) → take (length xs) xs ≡ xs
  take-length [] = refl
  take-length (x ∷ xs) = ap (◌∷◌ x) (take-length xs)

  pub drop-length : (xs : List A) → drop (length xs) xs ≡ []
  drop-length [] = refl
  drop-length (x ∷ xs) = drop-length xs
