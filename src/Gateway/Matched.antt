-- ===== src/Gateway/Matched.antt =====
-- The matching thread against a plain backlog of commands, and how it ends.
use low_latency_trading_gate.Base.{
  ℕ, ◌+◌, ◌-◌, ◌<◌, ◌≡◌, refl, sym, ap, ◌∙◌, subst, List, [], ◌∷◌, Option, none, some, Bool, true,
  false, if◌then◌else◌, Returns, arith, Bool-cases, Option-cases, inl, inr,
}
use low_latency_trading_gate.Spsc.Queue
use low_latency_trading_gate.Spsc.Places
use low_latency_trading_gate.Spsc.AtomicV3.Items.{push-Holds, pop_items}
use low_latency_trading_gate.Engine.{EngineCommand, EngineResponse, no_response, respond}
use low_latency_trading_gate.Gateway.{Limits, no_command}
use low_latency_trading_gate.Gateway.Serve.{Next, again, stop}
use low_latency_trading_gate.Gateway.Valid.{IsLimits, CommandsHold, ResponsesHold}
use low_latency_trading_gate.Gateway.Matching.{
  Matching, answer, is_shutdown, match_command, match_round,
}

-- The commands and the responses that the queues hold, and the notices.
pub record Backlog : Type 0 where
  pub commands : List EngineCommand
  pub responses : List EngineResponse
  pub notices : ℕ

-- A response that finds the queue full is lost, but announced.
unfoldable pub reply : ℕ → Option EngineResponse → Backlog → Backlog
reply bound none b = b
reply bound (some rsp) b = record b {
  responses = (Queue.push bound b.responses rsp).1;
  notices = b.notices + 1;
}

-- The first of the commands.
unfoldable pub take_command : ℕ → List EngineCommand → Backlog → Next × Backlog
unfolding reply
take_command bound [] b = (again, b)
take_command bound (cmd ∷ cmds) b =
    if is_shutdown cmd.type
    then (stop, record b { commands = cmds })
    else (again, reply bound (respond cmd) (record b { commands = cmds }))

-- A response goes to the session of its command.
pub respond-session :
    (cmd : EngineCommand) (rsp : EngineResponse)
    → respond cmd ≡ some rsp
    → rsp.session ≡ cmd.session
unfolding respond
respond-session cmd rsp e = ground arith

pub take_shutdown :
    (bound : ℕ) (cmd : EngineCommand) (cmds : List EngineCommand) (b : Backlog)
    → is_shutdown cmd.type ≡ true
    → (take_command bound (cmd ∷ cmds) b).0 ≡ stop
unfolding take_command
take_shutdown bound cmd cmds b last = rw last

pub take_other :
    (bound : ℕ) (cmd : EngineCommand) (cmds : List EngineCommand) (b : Backlog)
    → is_shutdown cmd.type ≡ false
    → let r = take_command bound (cmd ∷ cmds) b in (r.0 ≡ again) × (r.1.commands ≡ cmds)
unfolding take_command reply
take_other bound cmd cmds b other = elim (Option-cases (respond cmd)) [
  | inl silent ↦ (rw other, rw (other, silent))
  | inr (rsp, said) ↦ (rw other, rw (other, said))
]

module _ {l : Limits} (i : IsLimits l) where
  abbrev pub backlog : Matching → Backlog
  backlog m = record {
    commands = Places.contents no_command l.queue_capacity m.cmd_queue.ring;
    responses = Places.contents no_response l.queue_capacity m.rsp_queue.ring;
    notices = m.notices;
  }

  pub record MatchingIsValid (m : Matching) : Type 0 where
    pub commands : CommandsHold i m.cmd_queue
    pub responses : ResponsesHold i m.rsp_queue

  answer-refines :
      (rsp : Option EngineResponse) {m : Matching}
      → MatchingIsValid m
      → ((r : EngineResponse) → rsp ≡ some r → r.session.slot < l.max_slots)
      → Returns (answer l rsp m) (λ (m' : Matching).
        MatchingIsValid m' × (backlog m' ≡ reply (l.queue_capacity - 1) rsp (backlog m)))
  unfolding answer reply
  answer-refines none {m} v small = (m, refl, (v, refl))
  answer-refines (some rsp) {m} v small =
      let ((ok, queue), e, (h, k)) =
        push-Holds _ no_response i.queue m.rsp_queue rsp v.responses (small rsp refl) in
      (
        record m { rsp_queue = queue; notices = m.notices + 1 },
        rw e,
        (
          record { commands = v.commands; responses = h },
          ap
              (λ (r : Bool × List EngineResponse). record (backlog m) {
                responses = r.1;
                notices = m.notices + 1;
              })
              k,
        ),
      )

  match_command-Matched :
      (cmd : EngineCommand) (cmds : List EngineCommand) {m : Matching}
      → MatchingIsValid m
      → cmd.session.slot < l.max_slots
      → (before : Backlog) → record before { commands = cmds } ≡ backlog m
      → Returns (match_command l cmd m) (λ (r : Next × Matching).
        MatchingIsValid r.1
        × ((r.0, backlog r.1) ≡ take_command (l.queue_capacity - 1) (cmd ∷ cmds) before))
  unfolding match_command take_command
  match_command-Matched cmd cmds {m} v small before same =
      elim (Bool-cases (is_shutdown cmd.type)) [
        | inl last ↦ ((stop, m), rw last, (v, rw (last, same)))
        | inr goes_on ↦
            let (m', e, (w, k)) = answer-refines (respond cmd) v λ r here.
              subst (λ t. t.slot < l.max_slots) (sym (respond-session cmd r here)) small in
            ((again, m'), rw (goes_on, e), (w, rw (goes_on, same, k)))
      ]

  pub round_of :
      (cmds : List EngineCommand) {m : Matching}
      → MatchingIsValid m
      → (backlog m).commands ≡ cmds
      → Returns (match_round l m) (λ (r : Next × Matching).
        MatchingIsValid r.1
        × ((r.0, backlog r.1) ≡ take_command (l.queue_capacity - 1) cmds (backlog m)))
  unfolding match_round take_command Queue.pop
  round_of [] {m} v e =
      let (queue, popped, h, left, _) =
        pop_items _ no_command i.queue [] m.cmd_queue no_command v.commands e in
      (
        (again, record m { cmd_queue = queue }),
        rw popped,
        (
          record { commands = h; responses = v.responses },
          ap (λ (cmds : List EngineCommand). (again, record (backlog m) { commands = cmds }))
              (left ∙ sym e),
        ),
      )
  round_of (cmd ∷ cmds) {m} v e =
      let (queue, popped, h, left, small) =
        pop_items _ no_command i.queue (cmd ∷ cmds) m.cmd_queue no_command v.commands e in
      let w : MatchingIsValid (record m { cmd_queue = queue }) = record {
        commands = h;
        responses = v.responses;
      } in
      let (r, ce, k) =
        match_command-Matched cmd cmds w small (backlog m)
          (ap (λ (cmds : List EngineCommand). record (backlog m) { commands = cmds }) (sym left)) in
      (r, rw popped ce, k)

  -- In a valid state, a round of the matching thread makes no access out of range, keeps the state
  -- valid, and does to the commands, the responses and the notices what `take_command` says: it
  -- takes the oldest command, ends at a shutdown, and otherwise pushes the response that the command
  -- has, if it has one and there is room for it, and writes to the eventfd.
  pub match_round-Matched :
      {m : Matching}
      → MatchingIsValid m
      → Returns (match_round l m) (λ (r : Next × Matching).
        MatchingIsValid r.1
        × ((r.0, backlog r.1)
            ≡ take_command (l.queue_capacity - 1) (backlog m).commands (backlog m)))
  match_round-Matched {m} v = round_of (backlog m).commands v refl
