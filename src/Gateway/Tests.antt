-- ===== src/Gateway/Tests.antt =====
-- Concrete inputs for the theorems about epoll_server.cpp.
use low_latency_trading_gate.Base.{
  ℕ, ◌≡◌, refl, List, [], ◌∷◌, ◌++◌, none, some, true, false, replicate, Returns, arith,
}
use low_latency_trading_gate.FrameParser
use low_latency_trading_gate.FrameParser.{FrameParser, fresh}
use low_latency_trading_gate.Protocol.{message_type_code, message_type_of, Side, side_code, side_of}
use low_latency_trading_gate.Protocol.MessageHeader
use low_latency_trading_gate.Protocol.MessageHeader.{MessageHeader}
use low_latency_trading_gate.Protocol.NewOrder.{NewOrder}
use low_latency_trading_gate.Codec.Header.Bytes.{HeaderFits}
use low_latency_trading_gate.Codec.Requests.{encode_new_order}
use low_latency_trading_gate.Codec.Requests.RoundTrip.NewOrder.{NewOrderFits}
use low_latency_trading_gate.Gateway.Journey.{receives, wakes}
use low_latency_trading_gate.Gateway.OrderAnswered.{Acknowledged, order_answered}
use low_latency_trading_gate.Gateway.{
  no_frame, Gateway, no_command, new_gateway, close_conn, Connection,
}
use low_latency_trading_gate.Spsc.AtomicV3.{Cached, new_cached}
use low_latency_trading_gate.Spsc.AtomicV3.Refine as AtomicV3
use low_latency_trading_gate.Engine.{EngineCommand, EngineResponse, no_response, respond}
use low_latency_trading_gate.Gateway.Serve.{Next, again, stop, bytes, end_of_stream, serve_bytes}
use low_latency_trading_gate.Gateway.Responses.{Send, deliver, drain}
use low_latency_trading_gate.Gateway.Matching.{Matching, match_round, match_rounds, shut_down}
use low_latency_trading_gate.Gateway.Valid.{IsValid, new_gateway-IsValid}
use low_latency_trading_gate.Gateway.Close.{Closed, close_conn-Closed}
use low_latency_trading_gate.Gateway.Chunks.{Conversed, serve_bytes-Conversed, serve_bytes-Closed}
use low_latency_trading_gate.Gateway.Answers.{addressee, Delivered, Drained, drain-Drained}
use low_latency_trading_gate.Gateway.Refine.{view}
use low_latency_trading_gate.Gateway.Quiet.{Quiet, serve_bytes-Quiet}
use low_latency_trading_gate.Base.Maps.{find}
use low_latency_trading_gate.Gateway.Vacated.{close_conn-vacates}
use low_latency_trading_gate.Gateway.Answering.{responses_to, answered_with, match_rounds-answers}
use low_latency_trading_gate.Gateway.Matched.{
  Backlog, take_command, backlog, MatchingIsValid, match_round-Matched,
}
use low_latency_trading_gate.Gateway.Shutdown.{shut_down-stops, shut_down-lost}
use low_latency_trading_gate.Gateway.System.{
  event, round, System, new_system, take_turns, take_turns-IsValid,
}
use low_latency_trading_gate.Gateway.Examples.{
  small, small-IsLimits, takes_all, conn, opened, opened-IsValid, conn-there, third, gone_round,
  gone_round-IsValid, running, running-Ready,
}

-- A header whose magic is wrong.
abbrev garbage : List ℕ
garbage = replicate 64 7

abbrev gives_up : Send
gives_up calls fd frame = none

take_turns-IsValid_example :
    Returns
      (take_turns takes_all small 3 4
        (event (record { fd = 4; readable = true; accepted = 5 ∷ []; received = end_of_stream })
          ∷ event (record { fd = 5; readable = true; accepted = []; received = bytes garbage })
          ∷ round
          ∷ event (record { fd = 3; readable = true; accepted = []; received = end_of_stream })
          ∷ [])
        (new_system small))
      (λ (s : System). IsValid small-IsLimits s.gateway)
take_turns-IsValid_example =
    take_turns-IsValid small-IsLimits takes_all 3 4
      (event (record { fd = 4; readable = true; accepted = 5 ∷ []; received = end_of_stream })
        ∷ event (record { fd = 5; readable = true; accepted = []; received = bytes garbage })
        ∷ round
        ∷ event (record { fd = 3; readable = true; accepted = []; received = end_of_stream })
        ∷ [])
      (tt, (omega arith, (tt, (tt, tt))))

close_conn-Closed_example : Returns (close_conn small 5 opened) (Closed small-IsLimits 5 opened)
close_conn-Closed_example = close_conn-Closed small-IsLimits opened-IsValid 5

abbrev third_response : EngineResponse
third_response = record no_response { session = third.token }

close_conn-vacates_example :
    Returns
      (deliver takes_all small third_response gone_round)
      (Delivered takes_all small-IsLimits (some 7) third_response gone_round)
    × Returns (close_conn small 5 gone_round) (λ (g : Gateway).
      (find 7 g.connections ≡ some third) × (deliver takes_all small third_response g ≡ some g))
unfolding find addressee
close_conn-vacates_example =
    close_conn-vacates takes_all small-IsLimits 5 7 conn third third_response gone_round-IsValid
      refl refl refl refl refl refl

serve_bytes-Conversed_example :
    Returns
      (serve_bytes small 5 conn garbage opened)
      (Conversed small-IsLimits 5 opened conn garbage)
unfolding FrameParser.size
serve_bytes-Conversed_example =
    serve_bytes-Conversed small-IsLimits 5 opened conn opened-IsValid conn-there garbage
      (omega arith) (omega arith)

serve_bytes-Closed_example :
    Returns (serve_bytes small 5 conn (replicate 129 7) opened) (Closed small-IsLimits 5 opened)
unfolding FrameParser.size
serve_bytes-Closed_example =
    serve_bytes-Closed small-IsLimits 5 opened conn opened-IsValid conn-there (replicate 129 7)
      (omega arith)

-- A response to the session that has slot 0, and one to the session that had it before.
abbrev fresh_response : EngineResponse
fresh_response = record no_response { session = record { slot = 0; generation = 1 } }

abbrev stale_response : EngineResponse
stale_response = record no_response { session = record { slot = 0; generation = 0 } }

abbrev two_items : {A : Type 0} → A → A → Cached A
two_items a b = record {
  ring = record { buffer = a ∷ b ∷ a ∷ b ∷ []; head = 2; tail = 0 };
  producer_tail_cache = 0;
  consumer_head_cache = 0;
}

two_items-IsValid : {A : Type 0} (a b : A) → AtomicV3.IsValid 4 (two_items a b)
two_items-IsValid a b = record {
  ring = record { sized = refl; head = omega arith; tail = omega arith };
  tail_cache = omega arith;
  head_cache = omega arith;
  room = omega arith;
  items = omega arith;
}

abbrev answering : Gateway
answering = record opened { rsp_queue = two_items stale_response fresh_response }

answering-IsValid : IsValid small-IsLimits answering
answering-IsValid =
    let v = opened-IsValid in
    record {
      distinct = v.distinct;
      connections = v.connections;
      sized = v.sized;
      commands = v.commands;
      responses = record {
        valid = two_items-IsValid stale_response fresh_response;
        all = (omega arith, (omega arith, tt));
      };
    }

drain-Drained_example :
    Returns
      (drain 4 gives_up small no_response answering)
      (Drained gives_up small-IsLimits (stale_response ∷ fresh_response ∷ []) answering)
drain-Drained_example = drain-Drained gives_up small-IsLimits no_response answering-IsValid

abbrev waiting : EngineCommand
waiting = record no_command { client_order_id = 42 }

-- Two commands wait, and a third fills the queue.
abbrev busy : Matching
busy = record {
  cmd_queue = two_items waiting waiting;
  rsp_queue = new_cached 4 no_response;
  notices = 0;
}

busy-IsValid : MatchingIsValid small-IsLimits busy
unfolding new_gateway
busy-IsValid = record {
  commands = record {
    valid = two_items-IsValid waiting waiting;
    all = (omega arith, (omega arith, tt));
  };
  responses = (new_gateway-IsValid small-IsLimits).responses;
}

abbrev crowded : Matching
crowded = record busy {
  cmd_queue = record {
    ring = record { buffer = replicate 4 waiting; head = 3; tail = 0 };
    producer_tail_cache = 0;
    consumer_head_cache = 0;
  };
}

crowded-IsValid : MatchingIsValid small-IsLimits crowded
crowded-IsValid = record {
  commands = record {
    valid = record {
      ring = record { sized = refl; head = omega arith; tail = omega arith };
      tail_cache = omega arith;
      head_cache = omega arith;
      room = omega arith;
      items = omega arith;
    };
    all = (omega arith, (omega arith, (omega arith, tt)));
  };
  responses = busy-IsValid.responses;
}

match_round-Matched_example : Returns (match_round small busy) (λ (r : Next × Matching).
    MatchingIsValid small-IsLimits r.1
    × ((r.0, backlog small-IsLimits r.1)
        ≡ take_command 3 (waiting ∷ waiting ∷ []) (backlog small-IsLimits busy)))
match_round-Matched_example = match_round-Matched small-IsLimits busy-IsValid

shut_down-stops_example :
    (queue : Cached EngineCommand) × (shut_down small busy.cmd_queue ≡ some (true, queue))
    × Returns
        (match_rounds 4 small (record busy { cmd_queue = queue }))
        (λ (r : Next × Matching). (r.0 ≡ stop) × MatchingIsValid small-IsLimits r.1)
shut_down-stops_example = shut_down-stops small-IsLimits busy-IsValid (omega arith)

shut_down-lost_example :
    (queue : Cached EngineCommand) × (shut_down small crowded.cmd_queue ≡ some (false, queue))
    × Returns
        (match_rounds 100 small (record crowded { cmd_queue = queue }))
        (λ (r : Next × Matching). r.0 ≡ again)
shut_down-lost_example =
    shut_down-lost small-IsLimits 100 crowded-IsValid refl (refl, (refl, (refl, tt)))

abbrev header : MessageHeader
header = record MessageHeader.default { sequence_number = 1 }

header-Fits : HeaderFits header
unfolding message_type_code message_type_of
header-Fits = record {
  magic = omega arith;
  version = omega arith;
  message_type = record { small = omega arith; canonical = refl };
  payload_length = omega arith;
  flags = omega arith;
  sequence_number = omega arith;
  session_id = omega arith;
  reserved = omega arith;
}

abbrev order : NewOrder
order = record { client_order_id = 42; side = Side.sell; price = 10_000; quantity = 5 }

abbrev order-Fits : NewOrderFits order
unfolding side_code side_of
order-Fits = record {
  client_order_id = omega arith;
  side = record { small = omega arith; canonical = refl };
  price = omega arith;
  quantity = omega arith;
}

order_answered_example :
    (frame : List ℕ) × (encode_new_order header order no_frame ≡ some (64, frame))
    × Returns
        (take_turns takes_all small 3 4 (receives 5 frame ∷ round ∷ wakes 3 ∷ []) running)
        (Acknowledged small-IsLimits 5 conn 42 running)
order_answered_example =
    order_answered takes_all small-IsLimits 3 4 5 conn header order no_frame running opened-IsValid
      running-Ready refl refl (λ calls frame. refl) header-Fits refl refl refl order-Fits
      (omega arith) refl

-- A heartbeat in sequence.
abbrev heartbeat : List ℕ
heartbeat = 0x67 ∷ 0x74 ∷ 0x6c ∷ 0x6c ∷ 1 ∷ 0 ∷ 4 ∷ 0 ∷ 32 ∷ 0 ∷ 0 ∷ 0 ∷ 1 ∷ replicate 51 0

serve_bytes-Quiet_example :
    Returns (serve_bytes small 5 conn (heartbeat ++ garbage) opened) (λ (g : Gateway).
      (conn' : Connection) × (find 5 g.connections ≡ some conn')
      × Quiet 3 5 conn.token
          (record (view small conn opened) { stream = (heartbeat ++ garbage) })
          (view small conn' g))
unfolding FrameParser.size
serve_bytes-Quiet_example =
    serve_bytes-Quiet small-IsLimits 5 opened conn opened-IsValid conn-there (heartbeat ++ garbage)
      (omega arith) (omega arith)

match_rounds-answers_example : Returns (match_rounds 2 small busy) (λ (r : Next × Matching).
    MatchingIsValid small-IsLimits r.1
    × ◌≡◌ {A = Next × Backlog}
        (r.0, backlog small-IsLimits r.1)
        (
          again,
          answered_with [] (responses_to (waiting ∷ waiting ∷ [])) (backlog small-IsLimits busy),
        ))
unfolding respond
match_rounds-answers_example =
    match_rounds-answers small-IsLimits busy-IsValid (refl, (refl, tt)) (omega arith)
