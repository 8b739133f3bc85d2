-- ===== src/BenchClient/Run.antt =====
-- The benchmark client against the gateway: every order that it sends is accepted.
use low_latency_trading_gate.Base.{
  ℕ, zero, suc, ◌+◌, ◌%◌, ◌^◌, ◌<◌, ◌≡◌, refl, sym, ap, ◌∙◌, subst, List, [], ◌∷◌, Option, none,
  some, true, false, ◌==◌, if◌then◌else◌, ◌>>=◌, length, Returns, arith, ==_iff, replicate,
}
use low_latency_trading_gate.Base.Bytes.{IsBytes}
use low_latency_trading_gate.Base.Integers.{pos, times}
use low_latency_trading_gate.Protocol.{
  message_type_code, message_type_of, side_code, side_of, frame_size,
}
use low_latency_trading_gate.Codec.Header.Bytes.{HeaderFits}
use low_latency_trading_gate.Codec.Requests.RoundTrip.NewOrder.{NewOrderFits}
use low_latency_trading_gate.Engine.{EngineResponseType, no_response}
use low_latency_trading_gate.Engine.Frames.{Decodes}
use low_latency_trading_gate.Gateway.{Connection, Limits, Call, sent}
use low_latency_trading_gate.Gateway.Responses.{Send, is_whole}
use low_latency_trading_gate.Gateway.Valid.{IsLimits, IsValid}
use low_latency_trading_gate.Gateway.System.{round, System, take_turns}
use low_latency_trading_gate.Gateway.Journey.{receives, wakes, Ready}
use low_latency_trading_gate.Gateway.OrderAnswered.{order_answered}
use low_latency_trading_gate.BenchClient.{
  Options, bench_header, bench_order, encode_order, SendRecv, round_trips, run_client,
}

-- The frame that was last sent to a descriptor.
abbrev pub last_sent : ℕ → List Call → Option (List ℕ)
last_sent fd [] = none
last_sent fd (sent to frame ∷ calls) = if to == fd then some frame else last_sent fd calls
last_sent fd (call ∷ calls) = last_sent fd calls

-- A round trip to the gateway: its turns on the frame, and what it sent last.
unfoldable pub to_gateway : Send → Limits → (event_fd listen_fd fd : ℕ) → SendRecv System
to_gateway send l event_fd listen_fd fd frame s = do
  s ← take_turns send l event_fd listen_fd (receives fd frame ∷ round ∷ wakes event_fd ∷ []) s
  answer ← last_sent fd s.gateway.calls
  some (answer, s)

-- So many orders from a number on, each with one call that sends its acceptance.
abbrev pub AllAccepted : ℕ → (fd seq : ℕ) → List Call → List Call → Type 0
AllAccepted zero fd seq calls calls' = calls' ≡ calls
AllAccepted (suc n) fd seq calls calls' =
    (answer : List ℕ) × Decodes EngineResponseType.accepted
      (record no_response { client_order_id = seq }) answer
    × AllAccepted n fd ((seq + 1) % 2 ^ 64) (sent fd answer ∷ calls) calls'

bench_header-Fits : (seq : ℕ) → seq < 2 ^ 64 → HeaderFits (bench_header seq)
unfolding message_type_code message_type_of
bench_header-Fits seq small = record {
  magic = omega arith;
  version = omega arith;
  message_type = record { small = omega arith; canonical = refl };
  payload_length = omega arith;
  flags = omega arith;
  sequence_number = small;
  session_id = omega arith;
  reserved = omega arith;
}

bench_order-Fits : (seq : ℕ) → seq < 2 ^ 64 → NewOrderFits (bench_order seq)
unfolding side_code side_of
bench_order-Fits seq small = record {
  client_order_id = small;
  side = record { small = omega arith; canonical = refl };
  price = omega arith;
  quantity = omega arith;
}

-- Between two round trips.
pub record Between {l : Limits} (i : IsLimits l) (fd : ℕ) (frame : List ℕ) (seq : ℕ) (s : System)
    : Type 0 where
  pub valid : IsValid i s.gateway
  pub conn : Connection
  pub ready : Ready i fd conn s
  pub expected : conn.expected_sequence ≡ seq
  pub word : seq < 2 ^ 64
  pub bytes : IsBytes frame
  pub sized : length frame ≡ frame_size

module _ (send : Send) {l : Limits} (i : IsLimits l) (event_fd listen_fd fd : ℕ)
    (other : (fd == event_fd) ≡ false) (client : (fd == listen_fd) ≡ false)
    (whole : (calls : List Call) (frame : List ℕ) → is_whole (send calls fd frame) ≡ true) where
  -- One round trip.
  round_trip :
      (frame : List ℕ) (seq : ℕ) (s : System)
      → Between i fd frame seq s
      → (written : List ℕ) × (answer : List ℕ) × (s' : System) × (encode_order frame seq
          ≡ some written)
        × (to_gateway send l event_fd listen_fd fd written s ≡ some (answer, s'))
        × Between i fd answer ((seq + 1) % 2 ^ 64) s'
        × Decodes EngineResponseType.accepted (record no_response { client_order_id = seq }) answer
        × (s'.gateway.calls ≡ sent fd answer ∷ s.gateway.calls)
  unfolding encode_order to_gateway
  round_trip frame seq s b =
      let (written, e, (s', turns, a)) =
        order_answered send i event_fd listen_fd fd b.conn (bench_header seq) (bench_order seq)
          frame s b.valid b.ready other client whole (bench_header-Fits seq b.word) refl refl
          (sym b.expected) (bench_order-Fits seq b.word) b.bytes b.sized in
      (
        written,
        a.answer,
        s',
        rw e,
        rw (turns, ap (last_sent fd) a.calls, (==_iff fd fd).1 refl),
        record {
          valid = a.valid;
          conn = a.conn';
          ready = a.ready;
          expected = a.expected ∙ ap (λ k. (k + 1) % 2 ^ 64) b.expected;
          word = omega arith;
          bytes = a.bytes;
          sized = a.sized;
        },
        a.decodes,
        a.calls,
      )

  round_trips-Accepted :
      (n : ℕ) (frame : List ℕ) (seq : ℕ) (s : System)
      → Between i fd frame seq s
      → Returns
          (round_trips (to_gateway send l event_fd listen_fd fd) n frame seq s)
          (λ (r : List ℕ × ℕ × System).
            Between i fd r.0 r.1 r.2
            × (r.1 ≡ (seq + n) % 2 ^ 64)
            × AllAccepted n fd seq s.gateway.calls r.2.gateway.calls)
  unfolding round_trips
  round_trips-Accepted zero frame seq s b =
      ((frame, seq, s), refl, (b, omega (arith, b.word), refl))
  round_trips-Accepted (suc n) frame seq s b =
      let (written, answer, s', e, trip, b', decodes, calls) = round_trip frame seq s b in
      let (r, rest, (last, count, all)) =
        round_trips-Accepted n answer ((seq + 1) % 2 ^ 64) s' b' in
      (
        r,
        rw (e, trip) rest,
        (
          last,
          omega arith,
          (
            answer,
            decodes,
            subst (λ calls. AllAccepted n fd ((seq + 1) % 2 ^ 64) calls r.2.gateway.calls) calls
                all,
          ),
        ),
      )

  -- The benchmark client on a connection that nothing was sent on yet, in a valid state with nothing
  -- under way, where the gateway's turns and the network take every frame whole: the warm-up and the
  -- measurement end, with no access out of range in the client or in the gateway, and for each of
  -- their orders, numbered from 1 on, the gateway sends the client one frame, which decodes as the
  -- acceptance of that order's id. The number of messages is not negative.
  pub run_client-Accepted :
      (opts : Options) (messages : ℕ) (s : System)
      → opts.messages ≡ pos messages
      → Between i fd (replicate frame_size 0) 1 s
      → Returns
          (run_client (to_gateway send l event_fd listen_fd fd) opts s)
          (λ (r : List ℕ × ℕ × System).
            Between i fd r.0 r.1 r.2
            × (r.1 ≡ (1 + times opts.warmup + messages) % 2 ^ 64)
            × ((warm : List Call) × AllAccepted (times opts.warmup) fd 1 s.gateway.calls warm
                × AllAccepted messages fd
                    ((1 + times opts.warmup) % 2 ^ 64)
                    warm
                    r.2.gateway.calls))
  unfolding run_client
  run_client-Accepted opts messages s given b =
      let ((frame, seq, s1), e, (b1, count, all)) =
        round_trips-Accepted (times opts.warmup) (replicate frame_size 0) 1 s b in
      let (r, e', (b2, count', all')) = round_trips-Accepted messages frame seq s1 b1 in
      (
        r,
        rw (e, given) e',
        (
          b2,
          omega arith,
          (
            s1.gateway.calls,
            all,
            subst (λ k. AllAccepted messages fd k s1.gateway.calls r.2.gateway.calls) count all',
          ),
        ),
      )
