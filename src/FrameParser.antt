-- ===== src/FrameParser.antt =====
-- core/order_entry/include/lltg/order_entry/frame_parser.hpp. `capacity` is the template argument.
-- A member function takes the parser and returns the new one; `none` is an access outside
-- `buffer_`. The positions are of type size_t, and wrap at 2 ^ 64.
pub mod Valid
pub mod Append
pub mod Stream
pub mod Front
pub mod Parse
pub mod Run
pub mod Span
pub mod Orders
pub mod Delivery
mod Tests
use low_latency_trading_gate.Base.{
  ℕ, ◌+◌, ◌-◌, ◌%◌, ◌^◌, bit_and, List, [], ◌∷◌, Option, none, some, Bool, true, false, not, ltb,
  leb, ◌==◌, if◌then◌else◌, length, splice, slice, take, drop, replicate, ◌>>=◌,
}
use low_latency_trading_gate.Protocol.{MessageType, DecodeStatus, frame_size, header_size}
use low_latency_trading_gate.Protocol.MessageHeader
use low_latency_trading_gate.Protocol.MessageHeader.{MessageHeader}
use low_latency_trading_gate.Protocol.NewOrder
use low_latency_trading_gate.Protocol.NewOrder.{NewOrder}
use low_latency_trading_gate.Protocol.CancelOrder
use low_latency_trading_gate.Protocol.CancelOrder.{CancelOrder}
use low_latency_trading_gate.Protocol.ModifyOrder
use low_latency_trading_gate.Protocol.ModifyOrder.{ModifyOrder}
use low_latency_trading_gate.Codec.Header.{decode_header, validate_header}
use low_latency_trading_gate.Codec.Requests.{
  decode_new_order, decode_cancel_order, decode_modify_order,
}

pub record DecodedMessage : Type 0 where
  pub header : MessageHeader
  pub type : MessageType
  pub new_order : NewOrder
  pub cancel_order : CancelOrder
  pub modify_order : ModifyOrder

-- DecodedMessage{}
abbrev pub no_message : DecodedMessage
no_message = record {
  header = MessageHeader.default;
  type = MessageType.unnamed 0;
  new_order = NewOrder.default;
  cancel_order = CancelOrder.default;
  modify_order = ModifyOrder.default;
}

-- `buffer_full` is returned by no code.
pub data Status : Type 0 where
  message_ready need_more_data protocol_error buffer_full : Status

pub record FrameParser : Type 0 where
  pub buffer : List ℕ
  pub read_pos : ℕ
  pub write_pos : ℕ

-- A parser as its members' initialisers leave it.
abbrev pub fresh : ℕ → FrameParser
fresh capacity = record { buffer = replicate capacity 0; read_pos = 0; write_pos = 0 }

-- size_t a + b and a - b
abbrev pub add_size : ℕ → ℕ → ℕ
add_size a b = (a + b) % 2 ^ 64

abbrev pub sub_size : ℕ → ℕ → ℕ
sub_size a b = (a + 2 ^ 64 - b) % 2 ^ 64

unfoldable pub size : FrameParser → ℕ
size p = sub_size p.write_pos p.read_pos

unfoldable pub buffer_idx : ℕ → ℕ → ℕ
buffer_idx capacity index = bit_and index (capacity - 1)

unfoldable pub free_slots : ℕ → FrameParser → ℕ
free_slots capacity p = sub_size capacity (size p)

unfoldable pub full : ℕ → FrameParser → Bool
full capacity p = size p == capacity

unfoldable pub move_write_pos : FrameParser → ℕ → FrameParser
move_write_pos p step = record p { write_pos = add_size p.write_pos step }

unfoldable pub move_read_pos : FrameParser → ℕ → FrameParser
move_read_pos p step = record p { read_pos = add_size p.read_pos step }

unfoldable pub readable_span : ℕ → FrameParser → Option (List ℕ)
readable_span capacity p =
    let i = buffer_idx capacity p.read_pos in
    if leb (i + frame_size) (length p.buffer) then some (slice i frame_size p.buffer) else none

-- std::memcpy(buffer_.data() + i, bytes.data(), bytes.size())
unfoldable pub copy_in : FrameParser → ℕ → List ℕ → Option FrameParser
copy_in p i bytes =
    if leb (i + length bytes) (length p.buffer)
    then some (record p { buffer = splice i bytes p.buffer })
    else none

-- The copy of `append`, in one piece or in two.
store_bytes : ℕ → FrameParser → List ℕ → Option FrameParser
store_bytes capacity p bytes =
    let i = buffer_idx capacity p.write_pos in
    if leb (i + length bytes) capacity then copy_in p i bytes else do
      let bytes_head = capacity - i
      p ← copy_in p i (take bytes_head bytes)
      copy_in p 0 (drop bytes_head bytes)

unfoldable pub append : ℕ → FrameParser → List ℕ → Option (Bool × FrameParser)
unfolding store_bytes
append capacity p [] = some (true, p)
append capacity p (b ∷ bs) =
    let bytes = b ∷ bs in
    if ltb (free_slots capacity p) (length bytes)
    then some (false, p)
    else do p ← store_bytes capacity p bytes; some (true, move_write_pos p (length bytes))

abbrev pub is_ok : DecodeStatus → Bool
is_ok DecodeStatus.ok = true
is_ok _ = false

-- The end of `try_parse`, after the switch.
finish : FrameParser → DecodeStatus × DecodedMessage → Status × FrameParser × DecodedMessage
finish p (status, out) =
    if not (is_ok status)
    then (Status.protocol_error, p, out)
    else (Status.message_ready, move_read_pos p frame_size, out)

-- The switch of `try_parse` over the type of the message.
parse_order :
    MessageType
    → FrameParser
    → List ℕ
    → DecodedMessage
    → Option (Status × FrameParser × DecodedMessage)
unfolding finish
parse_order MessageType.new_order p span out = do
  (status, order) ← decode_new_order span out.new_order
  some (finish p (status, record out { new_order = order }))
parse_order MessageType.cancel_order p span out = do
  (status, order) ← decode_cancel_order span out.cancel_order
  some (finish p (status, record out { cancel_order = order }))
parse_order MessageType.modify_order p span out = do
  (status, order) ← decode_modify_order span out.modify_order
  some (finish p (status, record out { modify_order = order }))
parse_order MessageType.heartbeat p span out = some (finish p (DecodeStatus.ok, out))
parse_order MessageType.logout p span out = some (finish p (DecodeStatus.ok, out))
parse_order _ p span out = some (Status.protocol_error, p, out)

unfoldable pub try_parse :
    ℕ → FrameParser → DecodedMessage → Option (Status × FrameParser × DecodedMessage)
unfolding parse_order
try_parse capacity p out =
    let available = size p in
    if ltb available frame_size then some (Status.need_more_data, p, out) else do
      span ← readable_span capacity p
      (status, header) ← decode_header (take header_size span) MessageHeader.default
      if not (is_ok status)
          then some (Status.protocol_error, p, out)
          else if not (is_ok (validate_header header))
          then some (Status.protocol_error, p, out)
          else parse_order header.message_type p span
              (record out { header = header; type = header.message_type })
