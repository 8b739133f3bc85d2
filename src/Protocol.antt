-- ===== src/Protocol.antt =====
-- core/order_entry/include/lltg/order_entry/protocol.hpp: the constants and the enums. Each struct
-- is a child, with its offsets and its default value. `Heartbeat` and `Logout` (the structs) are
-- named by no code, and have no model.
pub mod MessageHeader
pub mod NewOrder
pub mod CancelOrder
pub mod ModifyOrder
pub mod Accepted
pub mod Rejected
pub mod Cancelled
pub mod Modified
pub mod Trade
pub mod Casts
use low_latency_trading_gate.Base.{ℕ, ◌≡◌, ◌==◌, if◌then◌else◌}

-- kMagic, "lltg"
abbrev pub magic : ℕ
magic = 0x6c6c7467

-- kVersion
abbrev pub version : ℕ
version = 1

-- kFrameSize, kHeaderSize, kPayloadSize
abbrev pub frame_size : ℕ
frame_size = 64

abbrev pub header_size : ℕ
header_size = 32

abbrev pub payload_size : ℕ
payload_size = 32

-- An `enum class` with a fixed underlying type holds any value of that type: `unnamed n` is a
-- value that no enumerator has.
pub data MessageType : Type 0 where
  new_order cancel_order modify_order heartbeat logout : MessageType
  accepted rejected cancelled modified trade : MessageType
  unnamed : ℕ → MessageType

-- static_cast<std::uint16_t>(type)
unfoldable pub message_type_code : MessageType → ℕ
message_type_code new_order = 1
message_type_code cancel_order = 2
message_type_code modify_order = 3
message_type_code heartbeat = 4
message_type_code logout = 5
message_type_code accepted = 101
message_type_code rejected = 102
message_type_code cancelled = 103
message_type_code modified = 104
message_type_code trade = 105
message_type_code (unnamed n) = n

-- static_cast<MessageType>(n)
unfoldable pub message_type_of : ℕ → MessageType
message_type_of n =
    if n == 1
    then new_order
    else if n == 2
    then cancel_order
    else if n == 3
    then modify_order
    else if n == 4
    then heartbeat
    else if n == 5
    then logout
    else if n == 101
    then accepted
    else if n == 102
    then rejected
    else if n == 103
    then cancelled
    else if n == 104
    then modified
    else if n == 105
    then trade
    else unnamed n

pub data Side : Type 0 where
  buy sell : Side
  unnamed : ℕ → Side

unfoldable pub side_code : Side → ℕ
side_code buy = 1
side_code sell = 2
side_code (unnamed n) = n

unfoldable pub side_of : ℕ → Side
side_of n = if n == 1 then buy else if n == 2 then sell else unnamed n

pub data DecodeStatus : Type 0 where
  ok need_more_data bad_magic bad_version : DecodeStatus
  unknown_message_type bad_payload_length : DecodeStatus

pub data RejectReason : Type 0 where
  none bad_sequence duplicate_client_order_id unknown_client_order_id : RejectReason
  invalid_price invalid_quantity unsupported_message_type : RejectReason
  unnamed : ℕ → RejectReason

unfoldable pub reject_reason_code : RejectReason → ℕ
reject_reason_code none = 0
reject_reason_code bad_sequence = 1
reject_reason_code duplicate_client_order_id = 2
reject_reason_code unknown_client_order_id = 3
reject_reason_code invalid_price = 4
reject_reason_code invalid_quantity = 5
reject_reason_code unsupported_message_type = 6
reject_reason_code (unnamed n) = n

unfoldable pub reject_reason_of : ℕ → RejectReason
reject_reason_of n =
    if n == 0
    then none
    else if n == 1
    then bad_sequence
    else if n == 2
    then duplicate_client_order_id
    else if n == 3
    then unknown_client_order_id
    else if n == 4
    then invalid_price
    else if n == 5
    then invalid_quantity
    else if n == 6
    then unsupported_message_type
    else unnamed n
