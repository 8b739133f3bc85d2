-- ===== src/FrameParser/Append.antt =====
-- `FrameParser::append`: the bytes that arrive go behind the contents, in one copy or in two.
use native.Mathlib.Nat.{mod-lt, mod-eq_of_lt, add-mod_right}
use native.Mathlib.Decide.{dec_le, dec_lt}
use low_latency_trading_gate.Base.{
  ℕ, ◌+◌, ◌-◌, ◌%◌, ◌≤◌, ◌<◌, ◌≡◌, ◌≢◌, ◌⊎◌, inl, inr, refl, sym, ap, ap₂, ◌∙◌, List, [], ◌∷◌, ◌++◌,
  some, true, false, arith, length, get_or, splice, take, drop, All-splice, leb-true, leb-false,
  ltb-false, lt→ltb, length-splice, length-take, length-drop, All-drop, All-take, append-nil,
}
use low_latency_trading_gate.Base.Bytes.{IsByte, IsBytes}
use low_latency_trading_gate.Base.Window.{
  window, Written, window-Written, wrap-cases, get_or-splice, get_or-splice_ne, get_or-take,
  get_or-drop,
}
use low_latency_trading_gate.FrameParser.{
  FrameParser, sub_size, size, free_slots, copy_in, store_bytes, move_write_pos, append,
}
use low_latency_trading_gate.FrameParser.Valid.{
  IsCapacity, capacity_bounds, buffer_idx-eq-mod, IsValid, contents, free_slots-eq-sub,
  size-move_write_pos, write-place,
}

-- A place where none of `n` bytes from `t` on falls lies before or behind them.
place_outside :
    (cap t n j : ℕ) → j < cap → ((i : ℕ) → i < n → j ≢ (t + i) % cap) → (j < t) ⊎ (t + n ≤ j)
place_outside cap t n j hj ne = elim (dec_lt j t) [
  | yes before ↦ inl before
  | no from ↦ elim (dec_le (t + n) j) [
    | yes behind ↦ inr behind
    | no within ↦ absurd (
        ne (j - t) (omega arith)
          (sym (ap (λ k. k % cap) {x = t + (j - t)} {y = j} (omega arith) ∙ mod-eq_of_lt hj)))
  ]
]

-- Nor does it lie at the front, where the bytes that go round stand.
place_not_front :
    (cap t n j : ℕ)
    → t < cap
    → n ≤ cap
    → j < cap
    → ((i : ℕ) → i < n → j ≢ (t + i) % cap)
    → n - (cap - t) ≤ j
place_not_front cap t n j ht hn hj ne = elim (dec_le (n - (cap - t)) j) [
  | yes behind ↦ behind
  | no within ↦ absurd (
      ne (j + cap - t) (omega arith) (
        sym (
          ap (λ k. k % cap) {x = t + (j + cap - t)} {y = j + cap} (omega arith)
          ∙ (add-mod_right j cap ∙ mod-eq_of_lt hj))))
]

module _ (buf : List ℕ) (cap t : ℕ) (xs : List ℕ) (sized : length buf ≡ cap) where
  one_piece-Written : t + length xs ≤ cap → Written 0 buf (splice t xs buf) cap t xs
  one_piece-Written fits = record {
    new = λ i hi. elim (wrap-cases (t + i) cap (omega arith)) [
      | inl (_, place) ↦
          ap (λ k. get_or (splice t xs buf) k 0) place
          ∙ (get_or-splice 0 xs buf t (t + i) (omega arith) (omega arith) (omega arith)
              ∙ ap (λ k. get_or xs k 0) {x = t + i - t} {y = i} (omega arith))
      | inr (over, _) ↦ absurd (omega arith)
    ];
    old = λ j hj ne. get_or-splice_ne 0 xs buf t j (place_outside cap t (length xs) j hj ne);
  }

  head : List ℕ
  head = take (cap - t) xs

  tail : List ℕ
  tail = drop (cap - t) xs

  two_pieces-Written :
      t < cap
      → length xs ≤ cap
      → cap < t + length xs
      → Written 0 buf (splice 0 tail (splice t head buf)) cap t xs
  unfolding head tail
  two_pieces-Written ht small over = record {
    new = λ i hi. elim (wrap-cases (t + i) cap (omega arith)) [
      | inl (below, place) ↦
          ap (λ k. get_or both k 0) place
          ∙ (get_or-splice_ne 0 tail (splice t head buf) 0 (t + i)
                (inr (omega (arith, tail_length)))
              ∙ (get_or-splice 0 head buf t (t + i) (omega arith) (omega (arith, head_length))
                    (omega arith)
                  ∙ (ap (λ k. get_or head k 0) {x = t + i - t} {y = i} (omega arith)
                      ∙ get_or-take 0 (cap - t) xs i (omega arith))))
      | inr (round, place) ↦
          ap (λ k. get_or both k 0) place
          ∙ (get_or-splice 0 tail (splice t head buf) 0 (t + i - cap) (omega arith)
                (omega (arith, tail_length)) (omega (arith, length-splice t head buf))
              ∙ (get_or-drop 0 (cap - t) xs (t + i - cap - 0)
                  ∙ ap (λ k. get_or xs k 0) {x = cap - t + (t + i - cap - 0)} {y = i}
                      (omega arith)))
    ];
    old = λ j hj ne.
        get_or-splice_ne 0 tail (splice t head buf) 0 j
          (inr (omega (arith, tail_length, place_not_front cap t (length xs) j ht small hj ne)))
        ∙ get_or-splice_ne 0 head buf t j
            (inl (omega (arith, place_outside cap t (length xs) j hj ne)));
  }
    where
      both : List ℕ
      both = splice 0 tail (splice t head buf)

      head_length : length head ≡ cap - t
      head_length = omega (arith, length-take (cap - t) xs)

      tail_length : length tail ≡ length xs - (cap - t)
      tail_length = length-drop (cap - t) xs

-- What the copy of `append` leaves: the bytes at their places, and nothing else changed.
record Stored (capacity : ℕ) (p q : FrameParser) (xs : List ℕ) : Type 0 where
  written : Written 0 p.buffer q.buffer capacity (p.write_pos % capacity) xs
  sized : length q.buffer ≡ capacity
  bytes : IsBytes q.buffer
  read_pos : q.read_pos ≡ p.read_pos
  write_pos : q.write_pos ≡ p.write_pos

store_bytes-Stored :
    {capacity : ℕ} {p : FrameParser} (xs : List ℕ)
    → IsCapacity capacity
    → IsValid capacity p
    → IsBytes xs
    → length xs ≤ capacity
    → (q : FrameParser) × (store_bytes capacity p xs ≡ some q) × Stored capacity p q xs
unfolding store_bytes copy_in head tail
store_bytes-Stored {capacity} {p} xs c v b room = elim (dec_le (t + length xs) capacity) [
  | yes fits ↦ (
    record p { buffer = splice t xs p.buffer },
    rw (
      buffer_idx-eq-mod c p.write_pos,
      leb-true (t + length xs) capacity fits,
      leb-true (t + length xs) (length p.buffer) (omega (arith, v.sized)),
    ),
    record {
      written = one_piece-Written p.buffer capacity t xs v.sized fits;
      sized = omega (arith, length-splice t xs p.buffer, v.sized);
      bytes = All-splice IsByte t xs p.buffer b v.bytes;
      read_pos = refl;
      write_pos = refl;
    },
  )
  | no over ↦ (
    record p { buffer = splice 0 xs1 (splice t xs0 p.buffer) },
    rw (
      buffer_idx-eq-mod c p.write_pos,
      leb-false (t + length xs) capacity (omega arith),
      leb-true (t + length xs0) (length p.buffer)
          (omega (arith, v.sized, t-lt, length-take (capacity - t) xs)),
      leb-true (0 + length xs1) (length (splice t xs0 p.buffer)) (
          omega
            (arith, v.sized, t-lt, length-drop (capacity - t) xs, length-splice t xs0 p.buffer)),
    ),
    record {
      written = two_pieces-Written p.buffer capacity t xs v.sized t-lt room (omega arith);
      sized = omega (
        arith,
        length-splice 0 xs1 (splice t xs0 p.buffer),
        length-splice t xs0 p.buffer,
        v.sized,
      );
      bytes =
          All-splice IsByte 0 xs1 (splice t xs0 p.buffer) (All-drop IsByte (capacity - t) xs b)
            (All-splice IsByte t xs0 p.buffer (All-take IsByte (capacity - t) xs b) v.bytes);
      read_pos = refl;
      write_pos = refl;
    },
  )
]
  where
    t : ℕ
    t = p.write_pos % capacity

    t-lt : t < capacity
    t-lt = mod-lt p.write_pos (omega (arith, capacity_bounds c))

    xs0 : List ℕ
    xs0 = take (capacity - t) xs

    xs1 : List ℕ
    xs1 = drop (capacity - t) xs

module _ {capacity : ℕ} {p q : FrameParser} {xs : List ℕ} (c : IsCapacity capacity)
    (v : IsValid capacity p) (s : Stored capacity p q xs) where
  size-stored : size q ≡ size p
  unfolding size
  size-stored = ap₂ sub_size s.write_pos s.read_pos

  stored-IsValid : IsValid capacity q
  stored-IsValid = record {
    sized = s.sized;
    bytes = s.bytes;
    aligned = omega (arith, s.read_pos, v.aligned);
    read_in = omega (arith, s.read_pos, v.read_in);
    write_in = omega (arith, s.write_pos, v.write_in);
    fits = omega (arith, size-stored, v.fits);
  }

  size-moved :
      size p + length xs ≤ capacity → size (move_write_pos q (length xs)) ≡ size p + length xs
  size-moved room =
      size-move_write_pos c stored-IsValid (length xs) (omega (arith, size-stored))
      ∙ ap (λ n. n + length xs) size-stored

  moved-IsValid : size p + length xs ≤ capacity → IsValid capacity (move_write_pos q (length xs))
  unfolding move_write_pos
  moved-IsValid room =
      let w = stored-IsValid in
      record {
        sized = w.sized;
        bytes = w.bytes;
        aligned = w.aligned;
        read_in = w.read_in;
        write_in = omega arith;
        fits = omega (arith, size-moved room);
      }

  contents-moved :
      size p + length xs ≤ capacity
      → contents capacity (move_write_pos q (length xs)) ≡ contents capacity p ++ xs
  unfolding move_write_pos
  contents-moved room =
      ap (window 0 q.buffer capacity (q.read_pos % capacity)) (size-moved room)
      ∙ (ap (λ r. window 0 q.buffer capacity (r % capacity) (size p + length xs)) s.read_pos
          ∙ window-Written 0 p.buffer q.buffer capacity (p.read_pos % capacity) (size p)
              (p.write_pos % capacity) xs (mod-lt p.read_pos (omega (arith, capacity_bounds c)))
              room (write-place c v) s.written)

-- With room for the bytes, `append` makes no access outside the buffer, returns true, keeps the
-- invariant, and puts the bytes behind the contents, whether or not the copy goes round the end.
pub append_lem :
    {capacity : ℕ} {p : FrameParser} (xs : List ℕ)
    → IsCapacity capacity
    → IsValid capacity p
    → IsBytes xs
    → size p + length xs ≤ capacity
    → (q : FrameParser) × (append capacity p xs ≡ some (true, q))
      × IsValid capacity q
      × (contents capacity q ≡ contents capacity p ++ xs)
unfolding append
append_lem {capacity} {p} [] c v b room = (p, refl, v, sym (append-nil (contents capacity p)))
append_lem {capacity} {p} (x ∷ xs) c v b room =
    let (q, e, s) = store_bytes-Stored (x ∷ xs) c v b (omega arith) in
    (
      move_write_pos q (length (x ∷ xs)),
      rw (
        ltb-false (free_slots capacity p) (length (x ∷ xs)) (omega (arith, free_slots-eq-sub c v)),
        e,
      ),
      moved-IsValid c v s room,
      contents-moved c v s room,
    )

-- Without room for the bytes, `append` returns false and changes nothing.
pub append-refused :
    {capacity : ℕ} {p : FrameParser} (xs : List ℕ)
    → IsCapacity capacity
    → IsValid capacity p
    → capacity < size p + length xs
    → append capacity p xs ≡ some (false, p)
unfolding append
append-refused [] c v full = absurd (omega (arith, v.fits))
append-refused {capacity} {p} (x ∷ xs) c v full = rw (
    lt→ltb (free_slots capacity p) (length (x ∷ xs)) (omega (arith, free_slots-eq-sub c v, v.fits)))
