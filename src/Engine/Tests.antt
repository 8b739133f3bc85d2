-- ===== src/Engine/Tests.antt =====
-- A concrete response for the theorem about encode_response.
use low_latency_trading_gate.Base.{ℕ, ◌≡◌, refl, List, some, arith, replicate}
use low_latency_trading_gate.Protocol.{reject_reason_code, reject_reason_of}
use low_latency_trading_gate.Engine.{
  EngineResponse, EngineResponseType, no_response, encode_response,
}
use low_latency_trading_gate.Engine.Frames.{ResponseFits, Decodes, encode_response-Decodes}

abbrev trade_response : EngineResponse
trade_response = record no_response {
  client_order_id = 42;
  price = 10_000;
  quantity = 5;
  type = EngineResponseType.trade;
}

trade_response-Fits : ResponseFits trade_response
unfolding reject_reason_code reject_reason_of
trade_response-Fits = record {
  client_order_id = omega arith;
  price = omega arith;
  quantity = omega arith;
  reject_reason = record { small = omega arith; canonical = refl };
}

encode_response-Decodes_example :
    (frame : List ℕ) × (encode_response trade_response (replicate 64 0) ≡ some frame)
    × Decodes EngineResponseType.trade trade_response frame
encode_response-Decodes_example =
    encode_response-Decodes trade_response (replicate 64 0) trade_response-Fits (omega arith)
      (omega arith)
