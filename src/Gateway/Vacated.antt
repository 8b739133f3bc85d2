-- ===== src/Gateway/Vacated.antt =====
-- A close that takes the slot from a newer connection.
use low_latency_trading_gate.Base.{
  ℕ, ◌<◌, ◌≡◌, ap, ◌∙◌, List, Option, none, some, false, get_or, get_or-set_self, length, ◌==◌,
  Bool-cases, inl, inr, if◌then◌else◌, Returns, subst, sym, arith,
}
use low_latency_trading_gate.Base.Maps.{find}
use low_latency_trading_gate.Engine.{SessionToken, EngineResponse}
use low_latency_trading_gate.Gateway.{Connection, SessionSlot, Limits, Gateway, close_conn}
use low_latency_trading_gate.Gateway.Responses.{Send, deliver}
use low_latency_trading_gate.Gateway.Valid.{IsLimits, IsValid}
use low_latency_trading_gate.Gateway.Close.{close_conn-Closed, no_slot, vacate}
use low_latency_trading_gate.Gateway.Answers.{addressee, Delivered, deliver-Delivered}

vacated :
    (slots : List SessionSlot) (conn : Connection) (generation : ℕ)
    → conn.token.slot < length slots
    → addressee
        (vacate (some conn) slots)
        (record { slot = conn.token.slot; generation = generation })
      ≡ none
unfolding vacate addressee
vacated slots conn generation small =
    let old = get_or slots conn.token.slot no_slot in
    elim (Bool-cases (old.generation == generation)) [
      | inl same ↦
          rw (get_or-set_self slots conn.token.slot (record old { fd = none }) no_slot small, same)
      | inr other ↦
          rw (get_or-set_self slots conn.token.slot (record old { fd = none }) no_slot small, other)
    ]

-- In a valid state, two connections are open whose tokens have the same slot, and the slot is at the
-- generation of the newer one and has its descriptor. A response to the newer connection's session
-- is delivered to it: sent whole, or else the connection is closed. But if the older connection is
-- closed first, the newer one stays in the map, and the response is dropped: its delivery, in the
-- state that the close leaves, calls nothing and changes nothing.
pub close_conn-vacates :
    (send : Send) {l : Limits} (i : IsLimits l) {g : Gateway} (old_fd new_fd : ℕ)
    (old new : Connection) (rsp : EngineResponse)
    → IsValid i g
    → find old_fd g.connections ≡ some old
    → find new_fd g.connections ≡ some new
    → (old_fd == new_fd) ≡ false
    → old.token.slot ≡ new.token.slot
    → addressee g.slots new.token ≡ some new_fd
    → rsp.session ≡ new.token
    → Returns (deliver send l rsp g) (Delivered send i (some new_fd) rsp g)
      × Returns (close_conn l old_fd g) (λ (g' : Gateway).
        (find new_fd g'.connections ≡ some new) × (deliver send l rsp g' ≡ some g'))
close_conn-vacates send {l} i {g} old_fd new_fd old new rsp v old_there new_there other same live
      session =
    let small : rsp.session.slot < l.max_slots =
      subst (λ (t : SessionToken). t.slot < l.max_slots) (sym session)
        (v.connections new_fd new new_there).slot in
    let (before, sends, delivered) = deliver-Delivered send i rsp v small in
    let (g', closes, h) = close_conn-Closed i v old_fd in
    let gone : addressee g'.slots rsp.session ≡ none =
      ap (addressee g'.slots) session
      ∙ ap (λ (slots : List SessionSlot). addressee slots new.token)
          (h.slots ∙ ap (λ was. vacate was g.slots) old_there)
      ∙ ap (λ (s : ℕ). addressee (vacate (some old) g.slots) (record new.token { slot = s }))
          (sym same)
      ∙ vacated g.slots old new.token.generation
          (omega (arith, v.sized, (v.connections old_fd old old_there).slot)) in
    let (g'', drops, dropped) = deliver-Delivered send i rsp h.valid small in
    let unchanged : g'' ≡ g' =
      subst (λ (to : Option ℕ). Delivered send i to rsp g' g'') gone dropped in
    (
      (
        before,
        sends,
        subst (λ (to : Option ℕ). Delivered send i to rsp g before)
            (ap (addressee g.slots) session ∙ live) delivered,
      ),
      (
        g',
        closes,
        (
          h.left new_fd ∙ ap (λ b. if b then none else find new_fd g.connections) other ∙ new_there,
          drops ∙ ap some unchanged,
        ),
      ),
    )
