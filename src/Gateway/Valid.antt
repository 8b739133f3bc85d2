-- ===== src/Gateway/Valid.antt =====
-- The invariant of the gateway, and the operations on the map of the connections.
use low_latency_trading_gate.Base.{
  ℕ, ◌≤◌, ◌<◌, ◌≡◌, refl, sym, ◌∙◌, subst, List, none, some, ◌==◌, get_elem?, set, get_or, length,
  length-set, length-replicate, get_elem?-eq-get_or, All, arith, Bool-cases, ==_iff, inl, inr,
}
use low_latency_trading_gate.Base.Maps.{find, Distinct, find-assign, assign-Distinct}
use low_latency_trading_gate.FrameParser.Valid as Parsers
use low_latency_trading_gate.FrameParser.Valid.{fresh-IsValid}
use low_latency_trading_gate.Spsc.Places
use low_latency_trading_gate.Spsc.Places.{contents-new_ring}
use low_latency_trading_gate.Spsc.AtomicV3.{Cached}
use low_latency_trading_gate.Spsc.AtomicV3.Refine.{new_cached-IsValid}
use low_latency_trading_gate.Spsc.AtomicV3.Items.{Holds}
use low_latency_trading_gate.Engine.{EngineCommand, EngineResponse, no_response}
use low_latency_trading_gate.Gateway.{
  Connection, SessionSlot, Limits, limits, Call, Gateway, log, no_command, new_gateway, set_slot,
  put,
}

pub record IsLimits (l : Limits) : Type 0 where
  pub parser : Parsers.IsCapacity l.parser_capacity
  pub queue : Places.IsCapacity l.queue_capacity
  pub slots : 1 ≤ l.max_slots

-- The limits of the program are such.
pub limits-IsLimits : IsLimits limits
limits-IsLimits = record {
  parser = record { aligned = refl; exponent = 12; power = refl; word = omega arith };
  queue = record { two = omega arith; exponent = 12; power = refl; word = omega arith };
  slots = omega arith;
}

pub record ConnectionIsValid (l : Limits) (key : ℕ) (conn : Connection) : Type 0 where
  pub parser : Parsers.IsValid l.parser_capacity conn.parser
  pub slot : conn.token.slot < l.max_slots
  pub fd : conn.fd ≡ key

module _ {l : Limits} (i : IsLimits l) where
  -- The token of a command or a response names a slot that there is.
  abbrev pub CommandsHold : Cached EngineCommand → Type 0
  CommandsHold = Holds (λ (cmd : EngineCommand). cmd.session.slot < l.max_slots) no_command i.queue

  abbrev pub ResponsesHold : Cached EngineResponse → Type 0
  ResponsesHold =
      Holds (λ (rsp : EngineResponse). rsp.session.slot < l.max_slots) no_response i.queue

  pub record IsValid (g : Gateway) : Type 0 where
    pub distinct : Distinct g.connections
    pub connections :
        (fd : ℕ) (conn : Connection)
        → find fd g.connections ≡ some conn
        → ConnectionIsValid l fd conn
    pub sized : length g.slots ≡ l.max_slots
    pub commands : CommandsHold g.cmd_queue
    pub responses : ResponsesHold g.rsp_queue

  -- A log changes nothing of it.
  pub log-IsValid : {g : Gateway} (call : Call) → IsValid g → IsValid (log g call)
  log-IsValid call v = record {
    distinct = v.distinct;
    connections = v.connections;
    sized = v.sized;
    commands = v.commands;
    responses = v.responses;
  }

  pub new_gateway-IsValid : IsValid (new_gateway l)
  unfolding new_gateway find
  new_gateway-IsValid = record {
    distinct = tt;
    connections = λ fd conn e. cc;
    sized = length-replicate l.max_slots (record { fd = none; generation = 0 });
    commands = record {
      valid = new_cached-IsValid no_command i.queue;
      all = subst (All _) (sym (contents-new_ring no_command i.queue)) tt;
    };
    responses = record {
      valid = new_cached-IsValid no_response i.queue;
      all = subst (All _) (sym (contents-new_ring no_response i.queue)) tt;
    };
  }

  -- A slot in range is there, and can be set.
  pub set_slot_lem :
      (slots : List SessionSlot) (s : ℕ) (value : SessionSlot)
      → length slots ≡ l.max_slots
      → s < l.max_slots
      → (get_elem? slots s ≡ some (get_or slots s (record { fd = none; generation = 0 })))
        × (set_slot slots s value ≡ some (set slots s value))
        × (length (set slots s value) ≡ l.max_slots)
  unfolding set_slot
  set_slot_lem slots s value sized small =
      let there =
        get_elem?-eq-get_or slots s (record { fd = none; generation = 0 }) (omega arith) in
      (there, rw there, length-set slots s value ∙ sized)

  -- A connection that the map has can be changed to another valid one.
  pub put-IsValid :
      {g : Gateway} {fd : ℕ} (old conn : Connection)
      → IsValid g
      → find fd g.connections ≡ some old
      → ConnectionIsValid l fd conn
      → IsValid (put fd conn g) × (find fd (put fd conn g).connections ≡ some conn)
  put-IsValid {g} {fd} old conn v there w =
      let law = λ (k : ℕ). find-assign fd conn k g.connections old there in
      (
        record {
          distinct = assign-Distinct fd conn g.connections v.distinct;
          connections = λ k c e. elim (Bool-cases (fd == k)) [
            | inl same ↦
                let here : conn ≡ c = ground (arith, law k) in
                let key : fd ≡ k = (==_iff fd k).0 same in
                subst (λ x. ConnectionIsValid l k x) here
                  (subst (λ j. ConnectionIsValid l j conn) key w)
            | inr other ↦ v.connections k c (ground (arith, law k))
          ];
          sized = v.sized;
          commands = v.commands;
          responses = v.responses;
        },
        ground (arith, law fd),
      )
