-- ===== src/Gateway/Examples.antt =====
-- A small gateway: parsers of 128 bytes, queues of 4 places, and 2 slots.
use low_latency_trading_gate.Base.{
  ◌≡◌, refl, sym, ap, subst, [], ◌∷◌, Option, none, some, false, arith,
}
use low_latency_trading_gate.Base.Maps.{find, emplace}
use low_latency_trading_gate.FrameParser
use low_latency_trading_gate.FrameParser.{FrameParser, fresh}
use low_latency_trading_gate.Gateway.Journey.{Ready}
use low_latency_trading_gate.Gateway.{
  Connection, Limits, added, Gateway, new_gateway, set_slot, accept_client, accept_clients,
}
use low_latency_trading_gate.Gateway.Responses.{Send}
use low_latency_trading_gate.Gateway.Valid.{IsLimits, IsValid, new_gateway-IsValid}
use low_latency_trading_gate.Gateway.Open.{accept_client-IsValid, accept_clients-IsValid}
use low_latency_trading_gate.Gateway.Answers.{addressee}
use low_latency_trading_gate.Gateway.System.{System}

abbrev pub small : Limits
small = record { parser_capacity = 128; queue_capacity = 4; max_slots = 2 }

pub small-IsLimits : IsLimits small
small-IsLimits = record {
  parser = record { aligned = refl; exponent = 7; power = refl; word = omega arith };
  queue = record { two = omega arith; exponent = 2; power = refl; word = omega arith };
  slots = omega arith;
}

abbrev pub takes_all : Send
takes_all calls fd frame = some 64

abbrev pub conn : Connection
conn = record {
  parser = fresh 128;
  token = record { slot = 0; generation = 1 };
  expected_sequence = 1;
  fd = 5;
}

-- The connection of descriptor 5 is the first that was accepted.
abbrev pub opened : Gateway
opened = record (new_gateway small) {
  connections = (5, conn) ∷ [];
  slots = record { fd = some 5; generation = 1 } ∷ record { fd = none; generation = 0 } ∷ [];
  next_slot = 1;
  calls = added 5 ∷ [];
}

from_some : Gateway → Option Gateway → Gateway
from_some d none = d
from_some d (some g) = g

pub opened-IsValid : IsValid small-IsLimits opened
unfolding accept_client new_gateway set_slot emplace from_some
opened-IsValid =
    let (g, e, v) = accept_client-IsValid small-IsLimits (new_gateway-IsValid small-IsLimits) 5 in
    subst (IsValid small-IsLimits) (ap (from_some opened) (sym e)) v

pub conn-there : find 5 opened.connections ≡ some conn
unfolding find
conn-there = refl

-- The second and the third, which has the slot of the first.
abbrev pub second : Connection
second = record conn { token = record { slot = 1; generation = 1 }; fd = 6 }

abbrev pub third : Connection
third = record conn { token = record { slot = 0; generation = 2 }; fd = 7 }

abbrev pub gone_round : Gateway
gone_round = record (new_gateway small) {
  connections = (5, conn) ∷ (6, second) ∷ (7, third) ∷ [];
  slots = record { fd = some 7; generation = 2 } ∷ record { fd = some 6; generation = 1 } ∷ [];
  next_slot = 3;
  calls = added 7 ∷ added 6 ∷ added 5 ∷ [];
}

pub gone_round-IsValid : IsValid small-IsLimits gone_round
unfolding accept_clients accept_client new_gateway set_slot emplace from_some
gone_round-IsValid =
    let (g, e, v) =
      accept_clients-IsValid small-IsLimits (5 ∷ 6 ∷ 7 ∷ []) (new_gateway-IsValid small-IsLimits) in
    subst (IsValid small-IsLimits) (ap (from_some gone_round) (sym e)) v

abbrev pub running : System
running = record { gateway = opened; notices = 0; ended = false }

pub running-Ready : Ready small-IsLimits 5 conn running
unfolding new_gateway addressee FrameParser.size
running-Ready = record {
  there = conn-there;
  live = refl;
  parser = refl;
  commands = refl;
  responses = refl;
  runs = refl;
}
