-- ===== src/Gateway/Answering.antt =====
-- The matching thread over a whole backlog of commands.
use low_latency_trading_gate.Base.{
  ℕ, ◌+◌, ◌-◌, ◌≤◌, ◌≡◌, refl, ap, ◌∙◌, List, [], ◌∷◌, ◌++◌, append_assoc, append-nil, Option, none,
  some, false, length, length-append, All, Returns, arith, lt→ltb,
}
use low_latency_trading_gate.Spsc.Queue
use low_latency_trading_gate.Engine.{EngineCommand, EngineResponse, respond}
use low_latency_trading_gate.Gateway.{Limits}
use low_latency_trading_gate.Gateway.Serve.{Next, again}
use low_latency_trading_gate.Gateway.Valid.{IsLimits}
use low_latency_trading_gate.Gateway.Matching.{Matching, is_shutdown, match_rounds}
use low_latency_trading_gate.Gateway.Matched.{
  Backlog, reply, take_command, backlog, MatchingIsValid, round_of,
}
use low_latency_trading_gate.Gateway.Shutdown.{rounds_go_on}

abbrev as_list : Option EngineResponse → List EngineResponse
as_list none = []
as_list (some rsp) = rsp ∷ []

-- The responses that some commands have, in their order.
abbrev pub responses_to : List EngineCommand → List EngineResponse
responses_to [] = []
responses_to (cmd ∷ cmds) = as_list (respond cmd) ++ responses_to cmds

-- The backlog with some responses more and other commands.
abbrev pub answered_with : List EngineCommand → List EngineResponse → Backlog → Backlog
answered_with cmds rsps b = record {
  commands = cmds;
  responses = b.responses ++ rsps;
  notices = b.notices + length rsps;
}

reply-room :
    (bound : ℕ) (rsp : Option EngineResponse) (cmds : List EngineCommand) (b : Backlog)
    → length b.responses + length (as_list rsp) ≤ bound
    → reply bound rsp (record b { commands = cmds }) ≡ answered_with cmds (as_list rsp) b
unfolding reply Queue.push
reply-room bound none cmds b room =
    let same : b.notices + 0 ≡ b.notices = omega arith in rw (append-nil b.responses, same)
reply-room bound (some rsp) cmds b room = rw (lt→ltb (length b.responses) bound (omega arith))

-- A command that is no shutdown, whose response has room.
take-room :
    (bound : ℕ) (cmd : EngineCommand) (cmds : List EngineCommand) (b : Backlog)
    → is_shutdown cmd.type ≡ false
    → length b.responses + length (as_list (respond cmd)) ≤ bound
    → take_command bound (cmd ∷ cmds) b ≡ (again, answered_with cmds (as_list (respond cmd)) b)
unfolding take_command
take-room bound cmd cmds b other room = rw (other, reply-room bound (respond cmd) cmds b room)

answered_with-append :
    (cmds rest : List EngineCommand) (xs ys : List EngineResponse) (b : Backlog)
    → answered_with rest ys (answered_with cmds xs b) ≡ answered_with rest (xs ++ ys) b
answered_with-append cmds rest xs ys b =
    let count : b.notices + length xs + length ys ≡ b.notices + length (xs ++ ys) =
      omega (arith, length-append xs ys) in
    rw (append_assoc b.responses xs ys, count)

module _ {l : Limits} (i : IsLimits l) where
  rounds_of :
      (cmds : List EngineCommand) {m : Matching}
      → MatchingIsValid i m
      → (backlog i m).commands ≡ cmds
      → All (λ (cmd : EngineCommand). is_shutdown cmd.type ≡ false) cmds
      → length (backlog i m).responses + length (responses_to cmds) ≤ l.queue_capacity - 1
      → Returns (match_rounds (length cmds) l m) (λ (r : Next × Matching).
        MatchingIsValid i r.1
        × ◌≡◌ {A = Next × Backlog}
            (r.0, backlog i r.1)
            (again, answered_with [] (responses_to cmds) (backlog i m)))
  unfolding match_rounds
  rounds_of [] {m} v e all room =
      let count : (backlog i m).notices + 0 ≡ (backlog i m).notices = omega arith in
      ((again, m), refl, (v, rw (append-nil (backlog i m).responses, count, ← e)))
  rounds_of (cmd ∷ cmds) {m} v e all room =
      let b = backlog i m in
      let rsps = as_list (respond cmd) in
      let ((next, m'), re, (w, k)) = round_of i (cmd ∷ cmds) v e in
      let fits : length b.responses + length rsps + length (responses_to cmds)
          ≤ l.queue_capacity - 1 =
        omega (arith, length-append rsps (responses_to cmds)) in
      let said = k ∙ take-room (l.queue_capacity - 1) cmd cmds b all.0 (omega arith) in
      let behind : backlog i m' ≡ answered_with cmds rsps b =
        ap (λ (r : Next × Backlog). r.1) said in
      let (r, se, (w', k')) = rounds_of cmds w (ap (λ (b : Backlog). b.commands) behind) all.1 (
        omega (
          arith,
          ap (λ (b : Backlog). length b.responses) behind,
          length-append b.responses rsps,
        )) in
      (
        r,
        rounds_go_on i (length cmds) m re (ap (λ (r : Next × Backlog). r.0) said) ∙ se,
        (
          w',
          k'
              ∙ ap (λ (b : Backlog). (again, answered_with [] (responses_to cmds) b)) behind
              ∙ ap (λ (b : Backlog). (again, b))
                  (answered_with-append cmds [] rsps (responses_to cmds) b),
        ),
      )

  -- In a valid state whose commands are no shutdown and have room for all their responses, as many
  -- rounds of the matching thread as there are commands make no access out of range, leave no
  -- command, put the response of every command that has one behind the responses, in the order of
  -- the commands, and write to the eventfd once for each.
  pub match_rounds-answers :
      {m : Matching}
      → MatchingIsValid i m
      → All (λ (cmd : EngineCommand). is_shutdown cmd.type ≡ false) (backlog i m).commands
      → length (backlog i m).responses + length (responses_to (backlog i m).commands)
        ≤ l.queue_capacity - 1
      → Returns (match_rounds (length (backlog i m).commands) l m) (λ (r : Next × Matching).
        MatchingIsValid i r.1
        × ◌≡◌ {A = Next × Backlog}
            (r.0, backlog i r.1)
            (again, answered_with [] (responses_to (backlog i m).commands) (backlog i m)))
  match_rounds-answers {m} v all room = rounds_of (backlog i m).commands v refl all room
