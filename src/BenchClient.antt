-- ===== src/BenchClient.antt =====
-- core/order_entry/examples/epoll_bench_client.cpp: the options, the order that it sends over and
-- over, and the loops of round trips. What `strcmp`, `atoi` and the socket do are arguments; times
-- are not modelled.
pub mod Arguments
pub mod Run
mod Tests
use low_latency_trading_gate.Base.{
  ℕ, zero, suc, ◌+◌, ◌%◌, ◌^◌, List, [], ◌∷◌, Option, none, some, if◌then◌else◌, ◌>>=◌, replicate,
}
use low_latency_trading_gate.Base.Integers.{ℤ, pos, negsuc, is_zero, times}
use low_latency_trading_gate.Protocol.{Side, frame_size}
use low_latency_trading_gate.Protocol.MessageHeader
use low_latency_trading_gate.Protocol.MessageHeader.{MessageHeader}
use low_latency_trading_gate.Protocol.NewOrder.{NewOrder}
use low_latency_trading_gate.Codec.Requests.{encode_new_order}

-- The codes of a string's characters.
abbrev pub Text : Type 0
Text = List ℕ

pub record Options : Type 0 where
  pub host : Text
  pub port : ℤ
  pub messages : ℤ
  pub warmup : ℤ

-- "127.0.0.1"
abbrev pub default_options : Options
default_options = record {
  host = 49 ∷ 50 ∷ 55 ∷ 46 ∷ 48 ∷ 46 ∷ 48 ∷ 46 ∷ 49 ∷ [];
  port = pos 9000;
  messages = pos 100_000;
  warmup = pos 1000;
}

-- "--host", "--port", "--messages" and "--warmup"
abbrev pub host_flag : Text
host_flag = 45 ∷ 45 ∷ 104 ∷ 111 ∷ 115 ∷ 116 ∷ []

abbrev pub port_flag : Text
port_flag = 45 ∷ 45 ∷ 112 ∷ 111 ∷ 114 ∷ 116 ∷ []

abbrev pub messages_flag : Text
messages_flag = 45 ∷ 45 ∷ 109 ∷ 101 ∷ 115 ∷ 115 ∷ 97 ∷ 103 ∷ 101 ∷ 115 ∷ []

abbrev pub warmup_flag : Text
warmup_flag = 45 ∷ 45 ∷ 119 ∷ 97 ∷ 114 ∷ 109 ∷ 117 ∷ 112 ∷ []

module _ (strcmp : Text → Text → ℤ) (atoi : Text → ℤ) where
  -- The body of the loop.
  unfoldable pub set_option : Text → Text → Options → Options
  set_option flag value opts =
      if is_zero (strcmp flag host_flag)
      then record opts { host = value }
      else if is_zero (strcmp flag port_flag)
      then record opts { port = atoi value }
      else if is_zero (strcmp flag messages_flag)
      then record opts { messages = atoi value }
      else if is_zero (strcmp flag warmup_flag)
      then record opts { warmup = atoi value }
      else opts

  -- The loop over the arguments behind the first, two at a time.
  unfoldable pub parse_pairs : Options → List Text → Options
  parse_pairs opts [] = opts
  parse_pairs opts (flag ∷ []) = opts
  parse_pairs opts (flag ∷ value ∷ argv) = parse_pairs (set_option flag value opts) argv

  unfoldable pub parse_options : List Text → Options
  unfolding parse_pairs
  parse_options [] = default_options
  parse_options (name ∷ argv) = parse_pairs default_options argv

abbrev pub bench_header : ℕ → MessageHeader
bench_header seq = record MessageHeader.default { sequence_number = seq; session_id = 1 }

abbrev pub bench_order : ℕ → NewOrder
bench_order seq = record { client_order_id = seq; side = Side.buy; price = 10_000; quantity = 1 }

unfoldable pub encode_order : List ℕ → ℕ → Option (List ℕ)
encode_order frame seq = do
  (_, frame) ← encode_new_order (bench_header seq) (bench_order seq) frame
  some frame

-- What `send_recv` makes of the frame, on a socket in some state.
abbrev pub SendRecv : Type 0 → Type 0
SendRecv W = List ℕ → W → Option (List ℕ × W)

module _ {W : Type 0} (send_recv : SendRecv W) where
  -- A loop of so many orders, each with the next number. The frame of the answer is the next span.
  unfoldable pub round_trips : ℕ → List ℕ → ℕ → W → Option (List ℕ × ℕ × W)
  round_trips zero frame seq w = some (frame, seq, w)
  round_trips (suc n) frame seq w = do
    frame ← encode_order frame seq
    (frame, w) ← send_recv frame w
    round_trips n frame ((seq + 1) % 2 ^ 64) w

  -- `main` from the frame on to the end of the measurement; `rtts` cannot have a negative size.
  unfoldable pub run_client : Options → W → Option (List ℕ × ℕ × W)
  unfolding round_trips
  run_client opts w = do
    (frame, seq, w) ← round_trips (times opts.warmup) (replicate frame_size 0) 1 w
    elim opts.messages [ negsuc n ↦ none | pos n ↦ round_trips n frame seq w ]
