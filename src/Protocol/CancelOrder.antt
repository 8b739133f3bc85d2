-- ===== src/Protocol/CancelOrder.antt =====
-- protocol.hpp, `struct CancelOrder`
use low_latency_trading_gate.Base.{ℕ}

pub record CancelOrder : Type 0 where
  pub client_order_id : ℕ
  pub reserved1 : ℕ
  pub reserved2 : ℕ
  pub reserved3 : ℕ

abbrev pub default : CancelOrder
default = record { client_order_id = 0; reserved1 = 0; reserved2 = 0; reserved3 = 0 }

abbrev pub off_id : ℕ
off_id = 0
