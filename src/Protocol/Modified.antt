-- ===== src/Protocol/Modified.antt =====
-- protocol.hpp, `struct Modified`
use low_latency_trading_gate.Base.{ℕ}

pub record Modified : Type 0 where
  pub client_order_id : ℕ
  pub order_handle : ℕ
  pub reserved1 : ℕ
  pub reserved2 : ℕ

abbrev pub default : Modified
default = record { client_order_id = 0; order_handle = 0; reserved1 = 0; reserved2 = 0 }

abbrev pub off_client_order_id : ℕ
off_client_order_id = 0

abbrev pub off_order_handle : ℕ
off_order_handle = 8

abbrev pub off_reserved1 : ℕ
off_reserved1 = 16

abbrev pub off_reserved2 : ℕ
off_reserved2 = 24
