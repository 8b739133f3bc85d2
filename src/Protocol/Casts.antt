-- ===== src/Protocol/Casts.antt =====
-- The casts between the enums of protocol.hpp and their underlying integers.
use low_latency_trading_gate.Base.{ℕ, ◌≡◌, ◌<◌, ◌^◌, ap, arith}
use low_latency_trading_gate.Protocol.{MessageType, message_type_code, message_type_of}
use low_latency_trading_gate.Protocol.{Side, side_code, side_of}
use low_latency_trading_gate.Protocol.{RejectReason, reject_reason_code, reject_reason_of}

-- A value that the enum can hold in `2 ^ w` values: `unnamed` stands for no enumerator, and fits.
pub record MessageTypeFits (t : MessageType) : Type 0 where
  pub small : message_type_code t < 2 ^ 16
  pub canonical : message_type_of (message_type_code t) ≡ t

pub record SideFits (s : Side) : Type 0 where
  pub small : side_code s < 2 ^ 64
  pub canonical : side_of (side_code s) ≡ s

pub record RejectReasonFits (r : RejectReason) : Type 0 where
  pub small : reject_reason_code r < 2 ^ 64
  pub canonical : reject_reason_of (reject_reason_code r) ≡ r

-- What a decoder gets by its cast fits again.
pub message_type_code-of : (n : ℕ) → message_type_code (message_type_of n) ≡ n
unfolding message_type_code message_type_of
message_type_code-of n = ground arith

pub side_code-of : (n : ℕ) → side_code (side_of n) ≡ n
unfolding side_code side_of
side_code-of n = ground arith

pub reject_reason_code-of : (n : ℕ) → reject_reason_code (reject_reason_of n) ≡ n
unfolding reject_reason_code reject_reason_of
reject_reason_code-of n = ground arith

pub message_type_of-Fits : (n : ℕ) → n < 2 ^ 16 → MessageTypeFits (message_type_of n)
message_type_of-Fits n h = record {
  small = omega (arith, message_type_code-of n);
  canonical = ap message_type_of (message_type_code-of n);
}
