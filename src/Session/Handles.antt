-- ===== src/Session/Handles.antt =====
-- No two live orders of a session share an order handle.
use low_latency_trading_gate.Base.{
  ℕ, ◌+◌, ◌^◌, ◌≤◌, ◌<◌, ◌≡◌, refl, sym, subst, ◌⊎◌, All, [], ◌∷◌, replicate, ◌>>=◌, List, Option,
  some, Bool, true, false, inl, inr, arith, ◌==◌, if◌then◌else◌, length, Option-cases,
}
use low_latency_trading_gate.Protocol.{RejectReason}
use low_latency_trading_gate.FrameParser.{DecodedMessage}
use low_latency_trading_gate.Session.{OrderEntrySession, new_session, handle_message}
use low_latency_trading_gate.Base.Maps.{find}
use low_latency_trading_gate.Session.Ledger.{
  Ledger, Request, Reply, request_of, objection, effect, rule, rule-refused, rule-allowed, advance,
  step, id_of,
}
use low_latency_trading_gate.Session.Valid.{IsValid, view, new_session-IsValid}
use low_latency_trading_gate.Session.Refine.{MessageFits, handle_message_refines}

-- Every live handle was given out before, and stands for one order.
pub record Unique (l : Ledger) : Type 0 where
  pub given : (k h : ℕ) → l.live k ≡ some h → h < l.next_handle
  pub once : (j k h : ℕ) → l.live j ≡ some h → l.live k ≡ some h → j ≡ k

effect-Unique :
    (l : Ledger) (r : Request) → l.next_handle + 1 < 2 ^ 64 → Unique l → Unique (effect l r).0
unfolding effect
effect-Unique l (Request.place id price quantity) room u = record {
  given = λ k h e. ground (arith, u.given k h);
  once = λ j k h e f. ground (arith, u.given k h, u.given j h, u.once j k h);
}
effect-Unique l (Request.withdraw id) room u = record {
  given = λ k h e. ground (arith, u.given k h);
  once = λ j k h e f. ground (arith, u.once j k h);
}
effect-Unique l (Request.amend id price quantity) room u = u
effect-Unique l Request.beat room u = u
effect-Unique l Request.leave room u = u
effect-Unique l Request.unsupported room u = u

rule-Unique :
    (l : Ledger) (r : Request) → l.next_handle + 1 < 2 ^ 64 → Unique l → Unique (rule l r).1
rule-Unique l r room u = elim (Option-cases (objection l.live r)) [
  | inr (reason, e) ↦ subst (λ v. Unique v.1) (sym (rule-refused l r reason e)) u
  | inl e ↦ subst (λ v. Unique v.1) (sym (rule-allowed l r e)) (effect-Unique l r room u)
]

effect-next_handle :
    (l : Ledger) (r : Request)
    → l.next_handle + 1 < 2 ^ 64
    → (effect l r).0.next_handle ≤ l.next_handle + 1
unfolding effect
effect-next_handle l (Request.place id price quantity) room = omega arith
effect-next_handle l (Request.withdraw id) room = omega arith
effect-next_handle l (Request.amend id price quantity) room = omega arith
effect-next_handle l Request.beat room = omega arith
effect-next_handle l Request.leave room = omega arith
effect-next_handle l Request.unsupported room = omega arith

rule-next_handle :
    (l : Ledger) (r : Request)
    → l.next_handle + 1 < 2 ^ 64
    → (rule l r).1.next_handle ≤ l.next_handle + 1
rule-next_handle l r room = elim (Option-cases (objection l.live r)) [
  | inr (reason, e) ↦
      subst (λ v. v.1.next_handle ≤ l.next_handle + 1) (sym (rule-refused l r reason e))
        (omega arith)
  | inl e ↦
      subst (λ v. v.1.next_handle ≤ l.next_handle + 1) (sym (rule-allowed l r e))
        (effect-next_handle l r room)
]

new_session-Unique : (id : ℕ) → Unique (view (new_session id))
unfolding new_session find
new_session-Unique id = record { given = λ k h e. cc; once = λ j k h e f. cc }

room_left : (id n : ℕ) → n + 1 < 2 ^ 64 → (new_session id).next_order_handle + n < 2 ^ 64
unfolding new_session
room_left id n room = omega arith

-- A ledger after one request: handles still unique, and at most one more given out.
record Kept (l l' : Ledger) : Type 0 where
  unique : Unique l'
  next_handle : l'.next_handle ≤ l.next_handle + 1

if-cases {ℓ} :
    {A : Type ℓ} (b : Bool) (x y : A) → ((if b then x else y) ≡ x) ⊎ ((if b then x else y) ≡ y)
if-cases true x y = inl refl
if-cases false x y = inr refl

judged_or_not :
    (l : Ledger) (n : ℕ) (r : Request)
    → let v =
        if n == l.expected
        then rule (advance l) r
        else (true, l, Reply.rejected (id_of r) RejectReason.bad_sequence) in
      (v ≡ rule (advance l) r) ⊎ ((reply : Reply) × (v ≡ (true, l, reply)))
judged_or_not l n r =
    let reply = Reply.rejected (id_of r) RejectReason.bad_sequence in
    elim (if-cases (n == l.expected) (rule (advance l) r) (true, l, reply)) [
      | inl e ↦ inl e
      | inr e ↦ inr (reply, e)
    ]

step-cases :
    (l : Ledger) (n : ℕ) (r : Request)
    → (step l n r ≡ rule (advance l) r) ⊎ ((reply : Reply) × (step l n r ≡ (true, l, reply)))
unfolding step
step-cases l n Request.unsupported =
    inr (Reply.rejected 0 RejectReason.unsupported_message_type, refl)
step-cases l n (Request.place id price quantity) =
    judged_or_not l n (Request.place id price quantity)
step-cases l n (Request.withdraw id) = judged_or_not l n (Request.withdraw id)
step-cases l n (Request.amend id price quantity) =
    judged_or_not l n (Request.amend id price quantity)
step-cases l n Request.beat = judged_or_not l n Request.beat
step-cases l n Request.leave = judged_or_not l n Request.leave

step-Kept :
    (l : Ledger) (n : ℕ) (r : Request)
    → l.next_handle + 1 < 2 ^ 64
    → Unique l
    → Kept l (step l n r).1
step-Kept l n r room u = elim (step-cases l n r) [
  | inl e ↦
      subst (λ v. Kept l v.1) (sym e)
        (record {
          unique = rule-Unique (advance l) r room (record { given = u.given; once = u.once });
          next_handle = rule-next_handle (advance l) r room;
        })
  | inr (reply, e) ↦
      subst (λ v. Kept l v.1) (sym e) (record { unique = u; next_handle = omega arith })
]

-- A session that answers messages one after the other, each into a response span of 64 zeros.
pub serve : OrderEntrySession → List DecodedMessage → Option OrderEntrySession
serve s [] = some s
serve s (msg ∷ msgs) = do (_, s, _) ← handle_message s msg (replicate 64 0); serve s msgs

serve-Unique :
    (msgs : List DecodedMessage) {s : OrderEntrySession}
    → IsValid s
    → Unique (view s)
    → s.next_order_handle + length msgs < 2 ^ 64
    → All MessageFits msgs
    → (t : OrderEntrySession) × (serve s msgs ≡ some t) × IsValid t × Unique (view t)
unfolding serve
serve-Unique [] {s} v u room fits = (s, refl, v, u)
serve-Unique (msg ∷ msgs) {s} v u room fits =
    let (keep, s', reply, frame, e, v', meets, conveys) =
      handle_message_refines msg (replicate 64 0) v fits.0 (omega arith) (omega arith) in
    let kept : Kept (view s) (view s') =
      subst (λ w. Kept (view s) w.1) (sym meets)
        (step-Kept (view s) msg.header.sequence_number (request_of msg.type msg) (omega arith) u) in
    let (t, e', v'', u') =
      serve-Unique msgs v' kept.unique (omega (arith, kept.next_handle)) fits.1 in
    (t, rw e e', v'', u')

-- A new session answers any sequence of fewer than 2 ^ 64 - 1 messages without an access out of
-- range, and then no two of its live orders have the same handle, and none has one that is still to
-- be given out. The messages have headers that a parser lets through, and ids in the range of
-- std::uint64_t.
pub serve-new_session :
    (id : ℕ) (msgs : List DecodedMessage)
    → id < 2 ^ 64
    → length msgs + 1 < 2 ^ 64
    → All MessageFits msgs
    → (s : OrderEntrySession) × (serve (new_session id) msgs ≡ some s) × IsValid s × Unique (view s)
serve-new_session id msgs small room fits =
    serve-Unique msgs (new_session-IsValid id small) (new_session-Unique id)
      (room_left id (length msgs) room) fits
