-- ===== src/Engine.antt =====
-- core/order_entry/include/lltg/order_entry/engine_messages.hpp, and the functions of
-- core/order_entry/examples/epoll_server.cpp on its messages: what the matching thread answers, and
-- the frame that the gateway makes of it.
pub mod Frames
pub mod Returns
mod Tests
use low_latency_trading_gate.Base.{ℕ, List, Option, none, some, ◌>>=◌}
use low_latency_trading_gate.Protocol.{Side, RejectReason, payload_size}
use low_latency_trading_gate.Protocol.MessageHeader
use low_latency_trading_gate.Protocol.MessageHeader.{MessageHeader}
use low_latency_trading_gate.Protocol.Accepted
use low_latency_trading_gate.Protocol.Accepted.{Accepted}
use low_latency_trading_gate.Protocol.Rejected
use low_latency_trading_gate.Protocol.Rejected.{Rejected}
use low_latency_trading_gate.Protocol.Cancelled
use low_latency_trading_gate.Protocol.Cancelled.{Cancelled}
use low_latency_trading_gate.Protocol.Modified
use low_latency_trading_gate.Protocol.Modified.{Modified}
use low_latency_trading_gate.Protocol.Trade
use low_latency_trading_gate.Protocol.Trade.{Trade}
use low_latency_trading_gate.Codec.Responses.{
  encode_accepted, encode_rejected, encode_cancelled, encode_modified, encode_trade,
}

pub record SessionToken : Type 0 where
  pub slot : ℕ
  pub generation : ℕ

pub data EngineCommandType : Type 0 where
  new_limit cancel modify session_closed shutdown : EngineCommandType

pub record EngineCommand : Type 0 where
  pub request_sequence : ℕ
  pub client_order_id : ℕ
  pub price : ℕ
  pub quantity : ℕ
  pub side : Side
  pub session : SessionToken
  pub type : EngineCommandType

pub data EngineResponseType : Type 0 where
  accepted rejected cancelled modified trade : EngineResponseType

pub record EngineResponse : Type 0 where
  pub client_order_id : ℕ
  pub price : ℕ
  pub quantity : ℕ
  pub reject_reason : RejectReason
  pub session : SessionToken
  pub type : EngineResponseType

-- EngineResponse{}
abbrev pub no_response : EngineResponse
no_response = record {
  client_order_id = 0;
  price = 0;
  quantity = 0;
  reject_reason = RejectReason.none;
  session = record { slot = 0; generation = 0 };
  type = EngineResponseType.rejected;
}

-- The response that the matching thread pushes for a command, if it pushes one.
unfoldable pub respond : EngineCommand → Option EngineResponse
respond cmd =
    let rsp : EngineResponse = record no_response {
      session = cmd.session;
      client_order_id = cmd.client_order_id;
    } in
    elim cmd.type [
      | EngineCommandType.new_limit ↦ some (record rsp { type = EngineResponseType.accepted })
      | EngineCommandType.cancel ↦ some (record rsp { type = EngineResponseType.cancelled })
      | EngineCommandType.modify ↦ some (record rsp { type = EngineResponseType.modified })
      | EngineCommandType.session_closed ↦ none
      | EngineCommandType.shutdown ↦ none
    ]

-- MessageHeader h{}; h.payload_length = kPayloadSize;
abbrev pub gateway_header : MessageHeader
gateway_header = record MessageHeader.default { payload_length = payload_size }

encode_as : EngineResponseType → EngineResponse → List ℕ → Option (ℕ × List ℕ)
encode_as EngineResponseType.accepted rsp out =
    encode_accepted gateway_header
      (record Accepted.default { client_order_id = rsp.client_order_id }) out
encode_as EngineResponseType.rejected rsp out =
    encode_rejected gateway_header
      (record Rejected.default {
        client_order_id = rsp.client_order_id;
        reason = rsp.reject_reason;
      })
      out
encode_as EngineResponseType.cancelled rsp out =
    encode_cancelled gateway_header
      (record Cancelled.default { client_order_id = rsp.client_order_id }) out
encode_as EngineResponseType.modified rsp out =
    encode_modified gateway_header
      (record Modified.default { client_order_id = rsp.client_order_id }) out
encode_as EngineResponseType.trade rsp out =
    encode_trade gateway_header
      (record Trade.default {
        client_order_id = rsp.client_order_id;
        price = rsp.price;
        quantity = rsp.quantity;
      })
      out

unfoldable pub encode_response : EngineResponse → List ℕ → Option (List ℕ)
unfolding encode_as
encode_response rsp out = do (_, out) ← encode_as rsp.type rsp out; some out
