-- ===== src/FrameParser/Stream.antt =====
-- What a frame parser promises: a queue of bytes, from whose front whole frames are taken.
use low_latency_trading_gate.Base.{
  ℕ, ◌+◌, List, ◌++◌, Bool, true, false, ◌&&◌, ltb, ◌==◌, if◌then◌else◌, length, take, drop,
}
use low_latency_trading_gate.Protocol
use low_latency_trading_gate.Protocol.{MessageType, frame_size, payload_size}
use low_latency_trading_gate.Protocol.MessageHeader.{MessageHeader}
use low_latency_trading_gate.Codec.Header.{is_known_request_type}
use low_latency_trading_gate.Codec.Header.Decode.{header_of}
use low_latency_trading_gate.Codec.Requests.Decode.{new_order_of, cancel_order_of, modify_order_of}
use low_latency_trading_gate.FrameParser.{DecodedMessage, Status}

-- A header that a request may have.
unfoldable pub accepts : MessageHeader → Bool
accepts h =
    h.magic == Protocol.magic
    && (h.version == Protocol.version
        && (is_known_request_type h.message_type && h.payload_length == payload_size))

-- The message that a frame stands for; a control message has no payload of interest.
unfoldable pub fill : MessageType → List ℕ → DecodedMessage → DecodedMessage
fill MessageType.new_order frame out = record out { new_order = new_order_of frame out.new_order }
fill MessageType.cancel_order frame out = record out {
  cancel_order = cancel_order_of frame out.cancel_order;
}
fill MessageType.modify_order frame out = record out {
  modify_order = modify_order_of frame out.modify_order;
}
fill _ frame out = out

unfoldable pub message : List ℕ → DecodedMessage → DecodedMessage
unfolding fill
message frame out =
    let h = header_of frame in
    fill h.message_type frame (record out { header = h; type = h.message_type })

-- A chunk is taken whole, or not at all.
unfoldable pub push : ℕ → List ℕ → List ℕ → Bool × List ℕ
push capacity stream bytes =
    if ltb capacity (length stream + length bytes) then (false, stream) else (true, stream ++ bytes)

-- The next message, if a whole frame is there and its header is right; only then is it consumed.
unfoldable pub next : List ℕ → DecodedMessage → Status × List ℕ × DecodedMessage
unfolding accepts message
next stream out =
    let frame = take frame_size stream in
    if ltb (length stream) frame_size
    then (Status.need_more_data, stream, out)
    else if accepts (header_of frame)
    then (Status.message_ready, drop frame_size stream, message frame out)
    else (Status.protocol_error, stream, out)
