-- ===== src/Session/Replies.antt =====
-- The four encoders of the session: each reply is one frame, from which a client decodes it.
use low_latency_trading_gate.Base.{ℕ, ◌^◌, ◌≤◌, ◌<◌, ◌≡◌, List, Option, some, arith, length}
use low_latency_trading_gate.Base.Bytes.{IsBytes}
use low_latency_trading_gate.Protocol
use low_latency_trading_gate.Protocol.{MessageType, RejectReason, DecodeStatus, frame_size}
use low_latency_trading_gate.Protocol.Casts.{RejectReasonFits}
use low_latency_trading_gate.Protocol.MessageHeader.{MessageHeader}
use low_latency_trading_gate.Protocol.Accepted
use low_latency_trading_gate.Protocol.Accepted.{Accepted}
use low_latency_trading_gate.Protocol.Rejected
use low_latency_trading_gate.Protocol.Rejected.{Rejected}
use low_latency_trading_gate.Protocol.Cancelled
use low_latency_trading_gate.Protocol.Cancelled.{Cancelled}
use low_latency_trading_gate.Protocol.Modified
use low_latency_trading_gate.Protocol.Modified.{Modified}
use low_latency_trading_gate.Codec.Header.{decode_header}
use low_latency_trading_gate.Codec.Header.Bytes.{HeaderFits}
use low_latency_trading_gate.Codec.Frames.{typed}
use low_latency_trading_gate.Codec.Responses.{
  decode_accepted, decode_rejected, decode_cancelled, decode_modified,
}
use low_latency_trading_gate.Codec.Responses.RoundTrip.Accepted.{accepted-round_trip}
use low_latency_trading_gate.Codec.Responses.RoundTrip.Rejected.{rejected-round_trip}
use low_latency_trading_gate.Codec.Responses.RoundTrip.Cancelled.{cancelled-round_trip}
use low_latency_trading_gate.Codec.Responses.RoundTrip.Modified.{modified-round_trip}
use low_latency_trading_gate.Session.{
  OrderEntrySession, response_header_of, encode_reject, encode_accept, encode_cancel, encode_modify,
}
use low_latency_trading_gate.Session.Ledger.{Reply}

-- The encoder that writes a reply.
unfoldable pub answer : OrderEntrySession → MessageHeader → Reply → List ℕ → Option (List ℕ)
answer s h (Reply.accepted id handle) out = encode_accept s h id handle out
answer s h (Reply.cancelled id handle) out = encode_cancel s h id handle out
answer s h (Reply.modified id handle) out = encode_modify s h id handle out
answer s h (Reply.rejected id reason) out = encode_reject s h id reason out

-- A client that gets the frame decodes its header and the reply.
abbrev pub Conveys : MessageHeader → Reply → List ℕ → Type 0
Conveys h (Reply.accepted id handle) frame =
    ((prior : MessageHeader)
      → decode_header frame prior ≡ some (DecodeStatus.ok, typed h MessageType.accepted))
    × ((prior : Accepted)
        → decode_accepted frame prior
          ≡ some (
            DecodeStatus.ok,
            record Accepted.default { client_order_id = id; order_handle = handle },
          ))
Conveys h (Reply.cancelled id handle) frame =
    ((prior : MessageHeader)
      → decode_header frame prior ≡ some (DecodeStatus.ok, typed h MessageType.cancelled))
    × ((prior : Cancelled)
        → decode_cancelled frame prior
          ≡ some (
            DecodeStatus.ok,
            record Cancelled.default { client_order_id = id; order_handle = handle },
          ))
Conveys h (Reply.modified id handle) frame =
    ((prior : MessageHeader)
      → decode_header frame prior ≡ some (DecodeStatus.ok, typed h MessageType.modified))
    × ((prior : Modified)
        → decode_modified frame prior
          ≡ some (
            DecodeStatus.ok,
            record Modified.default { client_order_id = id; order_handle = handle },
          ))
Conveys h (Reply.rejected id reason) frame =
    ((prior : MessageHeader)
      → decode_header frame prior ≡ some (DecodeStatus.ok, typed h MessageType.rejected))
    × ((prior : Rejected)
        → decode_rejected frame prior
          ≡ some
              (DecodeStatus.ok, record Rejected.default { client_order_id = id; reason = reason }))

abbrev pub ReplyFits : Reply → Type 0
ReplyFits (Reply.accepted id handle) = (id < 2 ^ 64) × (handle < 2 ^ 64)
ReplyFits (Reply.cancelled id handle) = (id < 2 ^ 64) × (handle < 2 ^ 64)
ReplyFits (Reply.modified id handle) = (id < 2 ^ 64) × (handle < 2 ^ 64)
ReplyFits (Reply.rejected id reason) = (id < 2 ^ 64) × RejectReasonFits reason

-- A header that came through the parser.
pub record IsRequestHeader (h : MessageHeader) : Type 0 where
  pub fits : HeaderFits h
  pub magic : h.magic ≡ Protocol.magic
  pub version : h.version ≡ Protocol.version

pub response_header_of-Fits :
    (s : OrderEntrySession) (h : MessageHeader)
    → s.session_id < 2 ^ 64
    → IsRequestHeader h
    → IsRequestHeader (response_header_of s h)
unfolding response_header_of
response_header_of-Fits s h small r = record {
  fits = record {
    magic = r.fits.magic;
    version = r.fits.version;
    message_type = r.fits.message_type;
    payload_length = r.fits.payload_length;
    flags = r.fits.flags;
    sequence_number = r.fits.sequence_number;
    session_id = ground (arith, r.fits.session_id);
    reserved = r.fits.reserved;
  };
  magic = r.magic;
  version = r.version;
}

-- In a span of 64 bytes each encoder makes no access out of range, and leaves a frame that conveys
-- the reply.
pub answer-Conveys :
    (s : OrderEntrySession) (h : MessageHeader) (r : Reply) (out : List ℕ)
    → s.session_id < 2 ^ 64
    → IsRequestHeader h
    → ReplyFits r
    → IsBytes out
    → frame_size ≤ length out
    → (frame : List ℕ) × (answer s h r out ≡ some frame) × Conveys (response_header_of s h) r frame
unfolding answer encode_accept encode_cancel encode_modify encode_reject
answer-Conveys s h (Reply.accepted id handle) out small req fits bytes room =
    let q = response_header_of-Fits s h small req in
    let (frame, e, rest, header, ok, body) =
      accepted-round_trip (response_header_of s h)
        (record Accepted.default { client_order_id = id; order_handle = handle }) out q.fits q.magic
        q.version
        (record {
          client_order_id = fits.0;
          order_handle = fits.1;
          reserved1 = omega arith;
          reserved2 = omega arith;
        })
        bytes room in
    (frame, rw e, (header, body))
answer-Conveys s h (Reply.cancelled id handle) out small req fits bytes room =
    let q = response_header_of-Fits s h small req in
    let (frame, e, rest, header, ok, body) =
      cancelled-round_trip (response_header_of s h)
        (record Cancelled.default { client_order_id = id; order_handle = handle }) out q.fits
        q.magic q.version
        (record {
          client_order_id = fits.0;
          order_handle = fits.1;
          reserved1 = omega arith;
          reserved2 = omega arith;
        })
        bytes room in
    (frame, rw e, (header, body))
answer-Conveys s h (Reply.modified id handle) out small req fits bytes room =
    let q = response_header_of-Fits s h small req in
    let (frame, e, rest, header, ok, body) =
      modified-round_trip (response_header_of s h)
        (record Modified.default { client_order_id = id; order_handle = handle }) out q.fits q.magic
        q.version
        (record {
          client_order_id = fits.0;
          order_handle = fits.1;
          reserved1 = omega arith;
          reserved2 = omega arith;
        })
        bytes room in
    (frame, rw e, (header, body))
answer-Conveys s h (Reply.rejected id reason) out small req fits bytes room =
    let q = response_header_of-Fits s h small req in
    let (frame, e, rest, header, ok, body) =
      rejected-round_trip (response_header_of s h)
        (record Rejected.default { client_order_id = id; reason = reason }) out q.fits q.magic
        q.version
        (record {
          client_order_id = fits.0;
          reason = fits.1;
          reserved1 = omega arith;
          reserved2 = omega arith;
        })
        bytes room in
    (frame, rw e, (header, body))
