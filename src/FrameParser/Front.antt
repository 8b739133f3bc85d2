-- ===== src/FrameParser/Front.antt =====
-- Where the frames of a valid parser stand: the first one is contiguous, and is what is read.
use native.Mathlib.Nat.{mod-lt, mod-mod_of_dvd, dvd_of_mod-eq-zero}
use low_latency_trading_gate.Base.{
  ℕ, ◌+◌, ◌-◌, ◌%◌, ◌≤◌, ◌≡◌, sym, ap, ap₂, ◌∙◌, subst, List, ◌++◌, some, arith, length, take, drop,
  leb-true, All-drop, All-take, take-append, drop-append,
}
use low_latency_trading_gate.Base.Bytes.{IsByte, IsBytes}
use low_latency_trading_gate.Base.Window.{window, length-window, window-append, window-slice}
use low_latency_trading_gate.Protocol.{frame_size}
use low_latency_trading_gate.FrameParser.{FrameParser, size, readable_span, move_read_pos}
use low_latency_trading_gate.FrameParser.Valid.{
  IsCapacity, capacity_bounds, buffer_idx-eq-mod, IsValid, contents, size-move_read_pos, read-place,
}

module _ {capacity : ℕ} {p : FrameParser} (c : IsCapacity capacity) (v : IsValid capacity p) (n : ℕ)
    (n_in : n ≤ size p) where
  -- The contents are the first `n` bytes and what is left when they are consumed.
  pub contents-split :
      contents capacity p
      ≡ window 0 p.buffer capacity (p.read_pos % capacity) n
        ++ contents capacity (move_read_pos p n)
  unfolding move_read_pos
  contents-split =
      ap (window 0 p.buffer capacity (p.read_pos % capacity)) {x = size p} {y = n + (size p - n)}
        (omega arith)
      ∙ (window-append 0 p.buffer capacity (p.read_pos % capacity) n (size p - n)
            (mod-lt p.read_pos (omega (arith, capacity_bounds c)))
          ∙ ap₂
              (λ h k.
                window 0 p.buffer capacity (p.read_pos % capacity) n
                ++ window 0 p.buffer capacity h k)
              (sym (read-place c v n)) (sym (size-move_read_pos c v n n_in)))

  pub take-contents :
      take n (contents capacity p) ≡ window 0 p.buffer capacity (p.read_pos % capacity) n
  take-contents =
      ap (take n) contents-split
      ∙ (ap (λ k. take k (first ++ contents capacity (move_read_pos p n))) (sym first-length)
          ∙ take-append first (contents capacity (move_read_pos p n)))
    where
      first : List ℕ
      first = window 0 p.buffer capacity (p.read_pos % capacity) n

      first-length : length first ≡ n
      first-length = length-window 0 p.buffer capacity (p.read_pos % capacity) n

  pub drop-contents : drop n (contents capacity p) ≡ contents capacity (move_read_pos p n)
  drop-contents =
      ap (drop n) contents-split
      ∙ (ap (λ k. drop k (first ++ contents capacity (move_read_pos p n))) (sym first-length)
          ∙ drop-append first (contents capacity (move_read_pos p n)))
    where
      first : List ℕ
      first = window 0 p.buffer capacity (p.read_pos % capacity) n

      first-length : length first ≡ n
      first-length = length-window 0 p.buffer capacity (p.read_pos % capacity) n

module _ {capacity : ℕ} {p : FrameParser} (c : IsCapacity capacity) (v : IsValid capacity p) where
  -- In a valid parser, whose capacity is a power of 2 and a multiple of 64, the next frame starts at
  -- least 64 places before the end of the buffer, so no frame goes round it.
  pub frame_contiguous : p.read_pos % capacity + frame_size ≤ capacity
  frame_contiguous =
      let place =
        mod-mod_of_dvd frame_size {b = capacity} p.read_pos
          (dvd_of_mod-eq-zero frame_size c.aligned) in
      let below = mod-lt p.read_pos {m = capacity} (omega (arith, capacity_bounds c)) in
      omega (arith, place, below, v.aligned, c.aligned)

  -- The span that the parser reads is the first frame of the contents.
  pub readable_span_lem :
      frame_size ≤ size p → readable_span capacity p ≡ some (take frame_size (contents capacity p))
  unfolding readable_span
  readable_span_lem whole =
      rw
        (
          buffer_idx-eq-mod c p.read_pos,
          leb-true (p.read_pos % capacity + frame_size) (length p.buffer)
              (omega (arith, frame_contiguous, v.sized)),
        )
        (ap some (
          sym (
            take-contents c v frame_size whole
            ∙ window-slice 0 p.buffer capacity (p.read_pos % capacity) frame_size frame_contiguous
                (omega (arith, v.sized)))))

  pub frame-IsBytes : frame_size ≤ size p → IsBytes (take frame_size (contents capacity p))
  frame-IsBytes whole =
      subst IsBytes
        (sym (
          take-contents c v frame_size whole
          ∙ window-slice 0 p.buffer capacity (p.read_pos % capacity) frame_size frame_contiguous
              (omega (arith, v.sized))))
        (All-take IsByte frame_size (drop (p.read_pos % capacity) p.buffer)
          (All-drop IsByte (p.read_pos % capacity) p.buffer v.bytes))

  pub move_read_pos-IsValid : frame_size ≤ size p → IsValid capacity (move_read_pos p frame_size)
  unfolding move_read_pos
  move_read_pos-IsValid whole = record {
    sized = v.sized;
    bytes = v.bytes;
    aligned = omega (arith, v.aligned);
    read_in = omega arith;
    write_in = v.write_in;
    fits = omega (arith, v.fits, size-move_read_pos c v frame_size whole);
  }
