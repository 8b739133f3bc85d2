-- ===== src/Gateway/Close.antt =====
-- Closing a connection keeps the invariant of the gateway.
use low_latency_trading_gate.Base.{
  ℕ, ◌-◌, ◌≡◌, refl, ap, subst, List, ◌∷◌, Option, none, some, Bool, ◌==◌, if◌then◌else◌, set,
  get_or, Returns, arith, Option-cases, Bool-cases, ==_iff, inl, inr,
}
use low_latency_trading_gate.Base.Maps.{find, erase, find-erase, erase-Distinct}
use low_latency_trading_gate.Spsc.Queue
use low_latency_trading_gate.Spsc.Places
use low_latency_trading_gate.Spsc.Places.{contents-new_ring}
use low_latency_trading_gate.Spsc.AtomicV3.Items.{push-Holds}
use low_latency_trading_gate.Engine.{SessionToken, EngineCommand, EngineCommandType}
use low_latency_trading_gate.Gateway.{
  Connection, SessionSlot, Limits, Gateway, log, removed, closed, no_command, end_session,
  close_conn,
}
use low_latency_trading_gate.Gateway.Valid.{IsLimits, IsValid, log-IsValid, set_slot_lem}

abbrev pub session_closed_command : SessionToken → EngineCommand
session_closed_command token = record no_command {
  type = EngineCommandType.session_closed;
  session = token;
}

-- The commands behind a close: the engine is told of a session that was there, if there is room.
unfoldable pub announce : ℕ → Option Connection → List EngineCommand → List EngineCommand
announce bound none cmds = cmds
announce bound (some conn) cmds = (Queue.push bound cmds (session_closed_command conn.token)).1

abbrev pub no_slot : SessionSlot
no_slot = record { fd = none; generation = 0 }

-- The slots behind a close: that of the connection has no descriptor, whatever its generation.
unfoldable pub vacate : Option Connection → List SessionSlot → List SessionSlot
vacate none slots = slots
vacate (some conn) slots =
    set slots conn.token.slot (record (get_or slots conn.token.slot no_slot) { fd = none })

module _ {l : Limits} (i : IsLimits l) where
  -- What a close leaves: the connection is gone and the system told so, the others stay, and the
  -- engine is sent a command of the session that was there.
  pub record Closed (fd : ℕ) (g g' : Gateway) : Type 0 where
    pub valid : IsValid i g'
    pub left : (k : ℕ) → find k g'.connections ≡ (if fd == k then none else find k g.connections)
    pub slots : g'.slots ≡ vacate (find fd g.connections) g.slots
    pub responses : g'.rsp_queue ≡ g.rsp_queue
    pub calls : g'.calls ≡ closed fd ∷ removed fd ∷ g.calls
    pub told :
        Places.contents no_command l.queue_capacity g'.cmd_queue.ring
        ≡ announce
            (l.queue_capacity - 1)
            (find fd g.connections)
            (Places.contents no_command l.queue_capacity g.cmd_queue.ring)

  module _ {g : Gateway} (v : IsValid i g) where
    end_session-Closed :
        (fd : ℕ) (conn : Connection)
        → find fd g.connections ≡ some conn
        → Returns
            (end_session l fd conn g)
            (λ (g' : Gateway). Closed fd g (log (log g' (removed fd)) (closed fd)))
    unfolding end_session announce vacate
    end_session-Closed fd conn there =
        let w = v.connections fd conn there in
        let old = get_or g.slots conn.token.slot (record { fd = none; generation = 0 }) in
        let (got, stored, sized) =
          set_slot_lem i g.slots conn.token.slot (record old { fd = none }) v.sized w.slot in
        let ((ok, queue), e, (h, k)) =
          push-Holds _ no_command i.queue g.cmd_queue (session_closed_command conn.token) v.commands
            w.slot in
        let erased = λ (key : ℕ). find-erase fd key g.connections v.distinct in
        (
          record g {
            connections = erase fd g.connections;
            slots = set g.slots conn.token.slot (record old { fd = none });
            cmd_queue = queue;
          },
          rw (got, e),
          record {
            valid = record {
              distinct = erase-Distinct fd g.connections v.distinct;
              connections = λ key c e. v.connections key c (ground (arith, erased key));
              sized = sized;
              commands = h;
              responses = v.responses;
            };
            left = erased;
            slots = rw there;
            responses = refl;
            calls = refl;
            told = rw there (ap (λ (r : Bool × List EngineCommand). r.1) k);
          },
        )

    -- From a valid state on, `close_conn` makes no access out of range and keeps the state valid.
    -- The connection is gone, the others stay, the descriptor is taken off the epoll instance and
    -- closed, and a connection that was there is announced to the engine if the queue has room.
    pub close_conn-Closed : (fd : ℕ) → Returns (close_conn l fd g) (Closed fd g)
    unfolding close_conn announce vacate
    close_conn-Closed fd = elim (Option-cases (find fd g.connections)) [
      | inl gone ↦ (
        log (log g (removed fd)) (closed fd),
        rw gone,
        record {
          valid = log-IsValid i (closed fd) (log-IsValid i (removed fd) v);
          left = λ k. elim (Bool-cases (fd == k)) [
            | inl same ↦
                rw same (subst (λ j. find j g.connections ≡ none) ((==_iff fd k).0 same) gone)
            | inr other ↦ rw other
          ];
          slots = rw gone;
          responses = refl;
          calls = refl;
          told = rw gone;
        },
      )
      | inr (conn, there) ↦
          let (g', e, w) = end_session-Closed fd conn there in
          (log (log g' (removed fd)) (closed fd), rw (there, e), w)
    ]
