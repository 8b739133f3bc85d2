-- ===== src/Gateway/Shutdown.antt =====
-- How the matching thread ends.
use low_latency_trading_gate.Base.{
  ℕ, zero, suc, ◌-◌, ◌<◌, ◌≡◌, refl, ap, ◌∙◌, List, [], ◌∷◌, ◌++◌, some, Bool, true, false, length,
  All, Returns, arith, Bool-cases, inl, inr, lt→ltb, ltb-false,
}
use low_latency_trading_gate.Spsc.Queue
use low_latency_trading_gate.Spsc.Places
use low_latency_trading_gate.Spsc.AtomicV3.{Cached}
use low_latency_trading_gate.Spsc.AtomicV3.Items.{push-Holds}
use low_latency_trading_gate.Engine.{EngineCommand}
use low_latency_trading_gate.Gateway.{Limits, no_command}
use low_latency_trading_gate.Gateway.Serve.{Next, again, stop}
use low_latency_trading_gate.Gateway.Valid.{IsLimits}
use low_latency_trading_gate.Gateway.Matching.{
  Matching, is_shutdown, match_round, match_rounds, shutdown_command, shut_down,
}
use low_latency_trading_gate.Gateway.Matched.{
  Backlog, take_command, backlog, MatchingIsValid, round_of, take_shutdown, take_other,
}

module _ {l : Limits} (i : IsLimits l) where
  rounds_end :
      (rounds : ℕ) (m : Matching) {m' : Matching} {next : Next}
      → match_round l m ≡ some (next, m')
      → next ≡ stop
      → match_rounds (suc rounds) l m ≡ some (stop, m')
  unfolding match_rounds
  rounds_end rounds m e last = rw (e, last)

  pub rounds_go_on :
      (rounds : ℕ) (m : Matching) {m' : Matching} {next : Next}
      → match_round l m ≡ some (next, m')
      → next ≡ again
      → match_rounds (suc rounds) l m ≡ match_rounds rounds l m'
  unfolding match_rounds
  rounds_go_on rounds m e more = rw (e, more)

  -- The rounds of the thread where a shutdown stands behind some commands.
  rounds_stop :
      (rounds : ℕ) (cmds : List EngineCommand) {m : Matching}
      → MatchingIsValid i m
      → (backlog i m).commands ≡ cmds ++ (shutdown_command ∷ [])
      → length cmds < rounds
      → Returns
          (match_rounds rounds l m)
          (λ (r : Next × Matching). (r.0 ≡ stop) × MatchingIsValid i r.1)
  unfolding match_rounds
  rounds_stop zero cmds v e few = absurd (omega arith)
  rounds_stop (suc rounds) [] {m} v e few =
      let ((next, m'), re, (w, k)) = round_of i (shutdown_command ∷ []) v e in
      let ends =
        ap (λ (r : Next × Backlog). r.0) k
        ∙ take_shutdown (l.queue_capacity - 1) shutdown_command [] (backlog i m) refl in
      ((stop, m'), rounds_end rounds m re ends, (refl, w))
  rounds_stop (suc rounds) (cmd ∷ cmds) {m} v e few =
      let ((next, m'), re, (w, k)) = round_of i ((cmd ∷ cmds) ++ (shutdown_command ∷ [])) v e in
      elim (Bool-cases (is_shutdown cmd.type)) [
        | inl last ↦
            let ends =
              ap (λ (r : Next × Backlog). r.0) k
              ∙ take_shutdown (l.queue_capacity - 1) cmd (cmds ++ (shutdown_command ∷ []))
                  (backlog i m) last in
            ((stop, m'), rounds_end rounds m re ends, (refl, w))
        | inr other ↦
            let (goes_on, left) =
              take_other (l.queue_capacity - 1) cmd (cmds ++ (shutdown_command ∷ [])) (backlog i m)
                other in
            let (r, se, h) =
              rounds_stop rounds cmds w (ap (λ (r : Next × Backlog). r.1.commands) k ∙ left)
                (omega arith) in
            (r, rounds_go_on rounds m re (ap (λ (r : Next × Backlog). r.0) k ∙ goes_on) ∙ se, h)
      ]

  -- The rounds of the thread where there is no shutdown.
  rounds_again :
      (rounds : ℕ) (cmds : List EngineCommand) {m : Matching}
      → MatchingIsValid i m
      → (backlog i m).commands ≡ cmds
      → All (λ (cmd : EngineCommand). is_shutdown cmd.type ≡ false) cmds
      → Returns (match_rounds rounds l m) (λ (r : Next × Matching). r.0 ≡ again)
  unfolding match_rounds take_command
  rounds_again zero cmds {m} v e all = ((again, m), refl, refl)
  rounds_again (suc rounds) [] {m} v e all =
      let ((next, m'), re, (w, k)) = round_of i [] v e in
      let (r, se, h) =
        rounds_again rounds [] w (ap (λ (r : Next × Backlog). r.1.commands) k ∙ e) tt in
      (r, rounds_go_on rounds m re (ap (λ (r : Next × Backlog). r.0) k) ∙ se, h)
  rounds_again (suc rounds) (cmd ∷ cmds) {m} v e all =
      let ((next, m'), re, (w, k)) = round_of i (cmd ∷ cmds) v e in
      let (goes_on, left) = take_other (l.queue_capacity - 1) cmd cmds (backlog i m) all.0 in
      let (r, se, h) =
        rounds_again rounds cmds w (ap (λ (r : Next × Backlog). r.1.commands) k ∙ left) all.1 in
      (r, rounds_go_on rounds m re (ap (λ (r : Next × Backlog). r.0) k ∙ goes_on) ∙ se, h)

  -- `main` sends the shutdown to a valid queue of commands with room for it: the matching thread
  -- ends within as many rounds as the queue has places.
  pub shut_down-stops :
      {m : Matching}
      → MatchingIsValid i m
      → length (backlog i m).commands < l.queue_capacity - 1
      → (queue : Cached EngineCommand) × (shut_down l m.cmd_queue ≡ some (true, queue))
        × Returns
            (match_rounds l.queue_capacity l (record m { cmd_queue = queue }))
            (λ (r : Next × Matching). (r.0 ≡ stop) × MatchingIsValid i r.1)
  unfolding shut_down Queue.push
  shut_down-stops {m} v room =
      let ((ok, queue), e, (h, k)) =
        push-Holds _ no_command i.queue m.cmd_queue shutdown_command v.commands
          (omega (arith, i.slots)) in
      let few : length (backlog i m).commands < l.queue_capacity = omega arith in
      let fits = lt→ltb (length (backlog i m).commands) (l.queue_capacity - 1) room in
      let said : (ok, Places.contents no_command l.queue_capacity queue.ring)
          ≡ (true, (backlog i m).commands ++ (shutdown_command ∷ [])) =
        rw fits at k in
      (
        queue,
        e ∙ ap (λ (r : Bool × List EngineCommand). some (r.0, queue)) said,
        rounds_stop l.queue_capacity (backlog i m).commands
            (record { commands = h; responses = v.responses })
            (ap (λ (r : Bool × List EngineCommand). r.1) said) few,
      )

  -- `main` sends the shutdown to a valid queue of commands that is full: it is lost, and where no
  -- shutdown stands in the queue the matching thread has not ended after any number of rounds.
  pub shut_down-lost :
      {m : Matching} (rounds : ℕ)
      → MatchingIsValid i m
      → length (backlog i m).commands ≡ l.queue_capacity - 1
      → All (λ (cmd : EngineCommand). is_shutdown cmd.type ≡ false) (backlog i m).commands
      → (queue : Cached EngineCommand) × (shut_down l m.cmd_queue ≡ some (false, queue))
        × Returns
            (match_rounds rounds l (record m { cmd_queue = queue }))
            (λ (r : Next × Matching). r.0 ≡ again)
  unfolding shut_down Queue.push
  shut_down-lost {m} rounds v full all =
      let ((ok, queue), e, (h, k)) =
        push-Holds _ no_command i.queue m.cmd_queue shutdown_command v.commands
          (omega (arith, i.slots)) in
      let refused =
        ltb-false (length (backlog i m).commands) (l.queue_capacity - 1) (omega arith) in
      let said : (ok, Places.contents no_command l.queue_capacity queue.ring)
          ≡ (false, (backlog i m).commands) =
        rw refused at k in
      (
        queue,
        e ∙ ap (λ (r : Bool × List EngineCommand). some (r.0, queue)) said,
        rounds_again rounds (backlog i m).commands
            (record { commands = h; responses = v.responses })
            (ap (λ (r : Bool × List EngineCommand). r.1) said) all,
      )
