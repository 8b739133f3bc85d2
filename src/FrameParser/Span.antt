-- ===== src/FrameParser/Span.antt =====
-- The span that `readable_span` gives, in every state that a parser gets to.
use native.Mathlib.Decide.{dec_lt}
use low_latency_trading_gate.Base.{
  ℕ, zero, suc, ◌+◌, ◌%◌, ◌≤◌, ◌≡◌, refl, sym, ap, ◌∙◌, subst, List, [], ◌∷◌, some, arith, length,
  take, drop, slice, length-take, length-drop, take-take, leb-true, All, Returns,
}
use low_latency_trading_gate.Base.Window.{window-slice}
use low_latency_trading_gate.Protocol.{frame_size}
use low_latency_trading_gate.FrameParser.{FrameParser, fresh, size, readable_span}
use low_latency_trading_gate.FrameParser.Valid.{
  IsCapacity, buffer_idx-eq-mod, IsValid, contents, length-contents, fresh-IsValid,
}
use low_latency_trading_gate.FrameParser.Front.{frame_contiguous, take-contents}
use low_latency_trading_gate.FrameParser.Run.{Op, Reply, HasBytes, run, run_stream, run_refines}

take_all : {A : Type 0} (n : ℕ) (xs : List A) → length xs ≤ n → take n xs ≡ xs
take_all zero [] h = refl
take_all zero (x ∷ xs) h = absurd (omega arith)
take_all (suc n) [] h = refl
take_all (suc n) (x ∷ xs) h = ap (◌∷◌ x) (take_all n xs (omega arith))

module _ {capacity : ℕ} {p : FrameParser} (c : IsCapacity capacity) (v : IsValid capacity p) where
  -- The span behind the read position, whether or not a whole frame is held.
  abbrev span : List ℕ
  span = slice (p.read_pos % capacity) frame_size p.buffer

  readable_span-eq : readable_span capacity p ≡ some span
  unfolding readable_span
  readable_span-eq = rw (
    buffer_idx-eq-mod c p.read_pos,
    leb-true (p.read_pos % capacity + frame_size) (length p.buffer)
        (omega (arith, frame_contiguous c v, v.sized)),
  )

  length-span : length span ≡ frame_size
  length-span = omega (
    arith,
    length-take frame_size (drop (p.read_pos % capacity) p.buffer),
    length-drop (p.read_pos % capacity) p.buffer,
    frame_contiguous c v,
    v.sized,
  )

  -- Its first bytes are the first of the contents.
  span-contents : take (size p) span ≡ take frame_size (contents capacity p)
  span-contents = elim (dec_lt (size p) frame_size) [
    | yes short ↦
        take-take (size p) frame_size (drop (p.read_pos % capacity) p.buffer) (omega arith)
        ∙ sym (
            take_all frame_size (contents capacity p) (omega (arith, length-contents capacity p))
            ∙ window-slice 0 p.buffer capacity (p.read_pos % capacity) (size p)
                (omega (arith, frame_contiguous c v)) (omega (arith, v.sized)))
    | no whole ↦
        take_all (size p) span (omega (arith, length-span))
        ∙ sym (
            take-contents c v frame_size (omega arith)
            ∙ window-slice 0 p.buffer capacity (p.read_pos % capacity) frame_size
                (frame_contiguous c v) (omega (arith, v.sized)))
  ]

-- From a new parser on, whose capacity is a power of 2 and a multiple of 64, after any sequence of
-- reads of bytes and of parses, `readable_span`, which does not go round the end of the buffer,
-- makes no access outside it and gives 64 bytes. As far as the stream of the bytes held reaches,
-- they are its first.
pub run-readable_span :
    {capacity : ℕ} (ops : List Op)
    → IsCapacity capacity
    → All HasBytes ops
    → let stream = (run_stream capacity [] ops).1 in
      Returns (run capacity (fresh capacity) ops) (λ (r : List Reply × FrameParser).
        Returns (readable_span capacity r.1) (λ (span : List ℕ).
          (length span ≡ frame_size) × (take (length stream) span ≡ take frame_size stream)))
run-readable_span {capacity} ops c bytes =
    let (valid, empty) = fresh-IsValid c in
    let (replies, q, e, v, k) = run_refines ops c valid bytes in
    let held : contents capacity q ≡ (run_stream capacity [] ops).1 =
      ap (λ (r : List Reply × List ℕ). r.1) k
      ∙ ap (λ (stream : List ℕ). (run_stream capacity stream ops).1) empty in
    (
      (replies, q),
      e,
      (
        span c v,
        readable_span-eq c v,
        (
          length-span c v,
          subst (λ (stream : List ℕ). take (length stream) (span c v) ≡ take frame_size stream) held
              (ap (λ (n : ℕ). take n (span c v)) (length-contents capacity q) ∙ span-contents c v),
        ),
      ),
    )
