-- ===== src/Protocol/NewOrder.antt =====
-- protocol.hpp, `struct NewOrder`
use low_latency_trading_gate.Base.{ℕ}
use low_latency_trading_gate.Protocol.{Side}

pub record NewOrder : Type 0 where
  pub client_order_id : ℕ
  pub side : Side
  pub price : ℕ
  pub quantity : ℕ

abbrev pub default : NewOrder
default = record { client_order_id = 0; side = Side.buy; price = 0; quantity = 0 }

abbrev pub off_id : ℕ
off_id = 0

abbrev pub off_side : ℕ
off_side = 8

abbrev pub off_price : ℕ
off_price = 16

abbrev pub off_quantity : ℕ
off_quantity = 24
