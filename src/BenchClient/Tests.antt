-- ===== src/BenchClient/Tests.antt =====
-- Concrete inputs for the theorems about epoll_bench_client.cpp.
use low_latency_trading_gate.Base.{
  ℕ, zero, suc, ◌%◌, ◌≡◌, refl, List, [], ◌∷◌, replicate, Returns, arith,
}
use low_latency_trading_gate.Base.Integers.{ℤ, pos, negsuc}
use low_latency_trading_gate.Gateway.{Call}
use low_latency_trading_gate.Gateway.System.{System}
use low_latency_trading_gate.Gateway.Examples.{
  small, small-IsLimits, conn, running, takes_all, opened-IsValid, running-Ready,
}
use low_latency_trading_gate.BenchClient.{
  Text, Options, default_options, host_flag, port_flag, messages_flag, set_option, parse_pairs,
  parse_options, run_client,
}
use low_latency_trading_gate.BenchClient.Arguments.{pairs, options_of, parse_options-eq}
use low_latency_trading_gate.BenchClient.Run.{to_gateway, AllAccepted, Between, run_client-Accepted}

-- 0 for equal texts, as far as both reach; a text that ends first is less.
compares : Text → Text → ℤ
compares [] [] = pos 0
compares [] (y ∷ ys) = negsuc 0
compares (x ∷ xs) [] = pos 1
compares (zero ∷ xs) (zero ∷ ys) = compares xs ys
compares (zero ∷ xs) (suc y ∷ ys) = negsuc 0
compares (suc x ∷ xs) (zero ∷ ys) = pos 1
compares (suc x ∷ xs) (suc y ∷ ys) = compares (x ∷ xs) (y ∷ ys)

-- The first digit.
abbrev reads : Text → ℤ
reads [] = pos 0
reads (x ∷ xs) = pos (x % 48)

-- --messages 3 --port 7 --messages 5 and one argument more
abbrev arguments : List Text
arguments =
    messages_flag ∷ (51 ∷ []) ∷ port_flag ∷ (55 ∷ []) ∷ messages_flag ∷ (53 ∷ []) ∷ host_flag ∷ []

-- The last of two values counts, and the flag without a value does not.
parsed :
    parse_options compares reads ([] ∷ arguments)
    ≡ record default_options { port = pos 7; messages = pos 5 }
unfolding parse_options parse_pairs set_option compares
parsed = refl

parse_options-eq_example :
    parse_options compares reads ([] ∷ arguments)
    ≡ options_of compares reads default_options (pairs arguments)
parse_options-eq_example = parse_options-eq compares reads [] arguments

abbrev three : Options
three = record default_options { messages = pos 2; warmup = pos 1 }

started : Between small-IsLimits 5 (replicate 64 0) 1 running
started = record {
  valid = opened-IsValid;
  conn = conn;
  ready = running-Ready;
  expected = refl;
  word = omega arith;
  bytes = omega arith;
  sized = refl;
}

run_client-Accepted_example :
    Returns
      (run_client (to_gateway takes_all small 3 4 5) three running)
      (λ (r : List ℕ × ℕ × System).
        Between small-IsLimits 5 r.0 r.1 r.2
        × (r.1 ≡ 4)
        × ((warm : List Call) × AllAccepted 1 5 1 running.gateway.calls warm
            × AllAccepted 2 5 2 warm r.2.gateway.calls))
run_client-Accepted_example =
    run_client-Accepted takes_all small-IsLimits 3 4 5 refl refl (λ calls frame. refl) three 2
      running refl started
