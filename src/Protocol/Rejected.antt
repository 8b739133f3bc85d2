-- ===== src/Protocol/Rejected.antt =====
-- protocol.hpp, `struct Rejected`
use low_latency_trading_gate.Base.{ℕ}
use low_latency_trading_gate.Protocol.{RejectReason}

pub record Rejected : Type 0 where
  pub client_order_id : ℕ
  pub reason : RejectReason
  pub reserved1 : ℕ
  pub reserved2 : ℕ

abbrev pub default : Rejected
default = record { client_order_id = 0; reason = RejectReason.none; reserved1 = 0; reserved2 = 0 }

abbrev pub off_client_order_id : ℕ
off_client_order_id = 0

abbrev pub off_reason : ℕ
off_reason = 8

abbrev pub off_reserved1 : ℕ
off_reserved1 = 16

abbrev pub off_reserved2 : ℕ
off_reserved2 = 24
