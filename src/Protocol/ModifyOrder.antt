-- ===== src/Protocol/ModifyOrder.antt =====
-- protocol.hpp, `struct ModifyOrder`
use low_latency_trading_gate.Base.{ℕ}

pub record ModifyOrder : Type 0 where
  pub client_order_id : ℕ
  pub new_price : ℕ
  pub new_quantity : ℕ
  pub reserved : ℕ

abbrev pub default : ModifyOrder
default = record { client_order_id = 0; new_price = 0; new_quantity = 0; reserved = 0 }

abbrev pub off_id : ℕ
off_id = 0

abbrev pub off_new_price : ℕ
off_new_price = 8

abbrev pub off_new_quantity : ℕ
off_new_quantity = 16
