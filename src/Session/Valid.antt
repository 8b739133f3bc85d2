-- ===== src/Session/Valid.antt =====
-- The invariant of a session, and the ledger that it stands for.
use low_latency_trading_gate.Base.{ℕ, ◌^◌, ◌<◌, ◌≡◌, some, arith}
use low_latency_trading_gate.Session.{OrderEntrySession, new_session}
use low_latency_trading_gate.Base.Maps.{find, Distinct}
use low_latency_trading_gate.Session.Ledger.{Ledger}

pub record IsValid (s : OrderEntrySession) : Type 0 where
  pub distinct : Distinct s.orders
  pub session_id : s.session_id < 2 ^ 64
  pub next_handle : s.next_order_handle < 2 ^ 64
  pub handles : (k h : ℕ) → find k s.orders ≡ some h → h < 2 ^ 64

-- The ledger forgets the order of the entries.
abbrev pub view : OrderEntrySession → Ledger
view s = record {
  expected = s.expected_sequence_number;
  next_handle = s.next_order_handle;
  live = λ k. find k s.orders;
}

pub new_session-IsValid : (id : ℕ) → id < 2 ^ 64 → IsValid (new_session id)
unfolding new_session find
new_session-IsValid id h = record {
  distinct = tt;
  session_id = h;
  next_handle = omega arith;
  handles = λ k g e. cc;
}
