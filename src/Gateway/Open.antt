-- ===== src/Gateway/Open.antt =====
-- Opening a connection keeps the invariant of the gateway.
use native.Mathlib.Nat.{mod-lt}
use low_latency_trading_gate.Base.{
  ℕ, ◌+◌, ◌%◌, ◌^◌, ◌<◌, ◌≡◌, refl, sym, ap, ◌∙◌, subst, List, [], ◌∷◌, none, some, ◌==◌, set,
  get_or, Returns, arith, Option-cases, Bool-cases, ==_iff, inl, inr,
}
use low_latency_trading_gate.Base.Maps.{
  find, emplace, Distinct, find-emplace, emplace_old, emplace-Distinct,
}
use low_latency_trading_gate.FrameParser.{fresh}
use low_latency_trading_gate.FrameParser.Valid.{fresh-IsValid}
use low_latency_trading_gate.Gateway.{
  Connection, Limits, Gateway, log, added, accept_client, accept_clients,
}
use low_latency_trading_gate.Gateway.Valid.{IsLimits, ConnectionIsValid, IsValid, set_slot_lem}

module _ {l : Limits} (i : IsLimits l) where
  module _ {g : Gateway} (v : IsValid i g) where
    emplaced :
        (fd : ℕ) (conn : Connection)
        → ConnectionIsValid l fd conn
        → Distinct (emplace fd conn g.connections)
          × ((k : ℕ) (c : Connection)
              → find k (emplace fd conn g.connections) ≡ some c
              → ConnectionIsValid l k c)
    emplaced fd conn w = elim (Option-cases (find fd g.connections)) [
      | inl fresh ↦ (
        emplace-Distinct fd conn g.connections fresh v.distinct,
        λ k c e. elim (Bool-cases (fd == k)) [
          | inl same ↦
              let here : conn ≡ c = ground (arith, find-emplace fd conn k g.connections fresh) in
              let key : fd ≡ k = (==_iff fd k).0 same in
              subst (λ x. ConnectionIsValid l k x) here
                (subst (λ j. ConnectionIsValid l j conn) key w)
          | inr other ↦
              v.connections k c (ground (arith, find-emplace fd conn k g.connections fresh))
        ],
      )
      | inr (old, there) ↦
          let same = emplace_old fd conn g.connections old there in
          (
            subst (λ m. Distinct m) (sym same) v.distinct,
            λ k c e. v.connections k c (ap (find k) (sym same) ∙ e),
          )
    ]

    pub accept_client-IsValid : (client_fd : ℕ) → Returns (accept_client l client_fd g) (IsValid i)
    unfolding accept_client
    accept_client-IsValid client_fd =
        let s = g.next_slot % l.max_slots in
        let old = get_or g.slots s (record { fd = none; generation = 0 }) in
        let generation = (old.generation + 1) % 2 ^ 32 in
        let s_in : s < l.max_slots = mod-lt g.next_slot i.slots in
        let (got, stored, sized) =
          set_slot_lem i g.slots s (record { fd = some client_fd; generation = generation }) v.sized
            s_in in
        let conn : Connection = record {
          parser = fresh l.parser_capacity;
          token = record { slot = s; generation = generation };
          expected_sequence = 1;
          fd = client_fd;
        } in
        let w : ConnectionIsValid l client_fd conn = record {
          parser = (fresh-IsValid i.parser).0;
          slot = s_in;
          fd = refl;
        } in
        let kept = emplaced client_fd conn w in
        (
          log
              (record g {
                connections = emplace client_fd conn g.connections;
                slots = set g.slots s (record { fd = some client_fd; generation = generation });
                next_slot = (g.next_slot + 1) % 2 ^ 32;
              })
              (added client_fd),
          rw got,
          record {
            distinct = kept.0;
            connections = kept.1;
            sized = sized;
            commands = v.commands;
            responses = v.responses;
          },
        )

  pub accept_clients-IsValid :
      (accepted : List ℕ) {g : Gateway}
      → IsValid i g
      → Returns (accept_clients l accepted g) (IsValid i)
  unfolding accept_clients
  accept_clients-IsValid [] {g} v = (g, refl, v)
  accept_clients-IsValid (client_fd ∷ accepted) v =
      let (g, e, w) = accept_client-IsValid v client_fd in
      let (h, e', x) = accept_clients-IsValid accepted w in (h, rw e e', x)
