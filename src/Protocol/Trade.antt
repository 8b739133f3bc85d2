-- ===== src/Protocol/Trade.antt =====
-- protocol.hpp, `struct Trade`
use low_latency_trading_gate.Base.{ℕ}

pub record Trade : Type 0 where
  pub client_order_id : ℕ
  pub order_handle : ℕ
  pub price : ℕ
  pub quantity : ℕ

abbrev pub default : Trade
default = record { client_order_id = 0; order_handle = 0; price = 0; quantity = 0 }

abbrev pub off_client_order_id : ℕ
off_client_order_id = 0

abbrev pub off_order_handle : ℕ
off_order_handle = 8

abbrev pub off_price : ℕ
off_price = 16

abbrev pub off_quantity : ℕ
off_quantity = 24
