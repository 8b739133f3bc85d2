-- ===== src/Gateway/Rounds.antt =====
-- The loop over a connection's messages against the dialogue, and that it ends.
use low_latency_trading_gate.Base.{
  ℕ, zero, suc, ◌+◌, ◌-◌, ◌*◌, ◌<◌, ◌≡◌, refl, sym, ap, ◌∙◌, subst, List, Option, some, true, false,
  length, Returns, arith, ◌⊎◌,
}
use low_latency_trading_gate.Protocol.{frame_size}
use low_latency_trading_gate.FrameParser.{DecodedMessage, Status, no_message}
use low_latency_trading_gate.FrameParser.Valid as Parsers
use low_latency_trading_gate.FrameParser.Parse.{try_parse_refines}
use low_latency_trading_gate.Engine.{SessionToken}
use low_latency_trading_gate.Gateway.{Connection, Limits}
use low_latency_trading_gate.Gateway.Serve.{
  Next, again, stop, Serving, serve_status, serve_round, serve,
}
use low_latency_trading_gate.Gateway.Dialogue.{hear_status, hear_next, converse}
use low_latency_trading_gate.Gateway.Valid.{IsLimits}
use low_latency_trading_gate.Gateway.Refine.{
  client_of, Rest, Serves, StaysOpen, Heard, put-Serves, serve_message-Heard,
}
use low_latency_trading_gate.Gateway.Conversation.{next_shorter, converse_stop, converse_again}

module _ {l : Limits} (i : IsLimits l) (fd : ℕ) where
  abbrev Shrinks : Next → List ℕ → List ℕ → Type 0
  Shrinks again new old = length new + frame_size ≡ length old
  Shrinks stop new old = Unit {0}

  -- A round of the loop that does what the dialogue says.
  record Rounded (s : Serving) (r : Next × Serving) : Type 0 where
    serves : Serves i fd r.1
    open_ : StaysOpen i fd r.0 r.1
    token : r.1.conn.token ≡ s.conn.token
    rest : Rest s.gateway r.1.gateway
    shrinks : Shrinks r.0 (client_of i fd r.1).stream (client_of i fd s).stream
    meets :
        (r.0, client_of i fd r.1)
        ≡ hear_next (l.queue_capacity - 1) fd s.conn.token (client_of i fd s)

  abbrev StopsAt : Status → Next → Type 0
  StopsAt Status.need_more_data next = next ≡ stop
  StopsAt Status.protocol_error next = next ≡ stop
  StopsAt _ next = Unit {0}

  shrink :
      (next : Next) (status : Status) (new mid old : List ℕ)
      → StopsAt status next
      → (status ≡ Status.need_more_data)
        ⊎ ((status ≡ Status.protocol_error) ⊎ (length mid + frame_size ≡ length old))
      → new ≡ mid
      → Shrinks next new old
  shrink stop status new mid old at h e = tt
  shrink again Status.need_more_data new mid old at h e = cc
  shrink again Status.protocol_error new mid old at h e = cc
  shrink again Status.message_ready new mid old at h e = ground (arith, ap length e)
  shrink again Status.buffer_full new mid old at h e = ground (arith, ap length e)

  serve_status-Heard :
      (status : Status) (msg : DecodedMessage) {s : Serving}
      → Serves i fd s
      → s.should_close ≡ false
      → Returns (serve_status status l fd msg s) (λ (r : Next × Serving).
        Heard i fd s
          (hear_status status (l.queue_capacity - 1) fd s.conn.token msg (client_of i fd s))
          r
        × StopsAt status r.0)
  unfolding serve_status hear_status
  serve_status-Heard Status.need_more_data msg {s} v o = (
    (stop, s),
    refl,
    (
      record { serves = v; open_ = tt; parser = refl; token = refl; rest = refl; meets = refl },
      refl,
    ),
  )
  serve_status-Heard Status.protocol_error msg {s} v o = (
    (stop, record s { should_close = true }),
    refl,
    (
      record {
        serves = record { gateway = v.gateway; there = v.there; conn = v.conn };
        open_ = tt;
        parser = refl;
        token = refl;
        rest = refl;
        meets = refl;
      },
      refl,
    ),
  )
  serve_status-Heard Status.message_ready msg v o =
      let (r, e, h) = serve_message-Heard i fd msg v o in (r, e, (h, tt))
  serve_status-Heard Status.buffer_full msg v o =
      let (r, e, h) = serve_message-Heard i fd msg v o in (r, e, (h, tt))

  serve_round-Rounded :
      {s : Serving}
      → Serves i fd s
      → s.should_close ≡ false
      → Returns (serve_round l fd s) (Rounded s)
  unfolding serve_round hear_next
  serve_round-Rounded {s} v o =
      let (status, parser, msg, e, w, k) = try_parse_refines no_message i.parser v.conn.parser in
      let conn : Connection = record s.conn { parser = parser } in
      let served =
        put-Serves i fd s conn v (record { parser = w; slot = v.conn.slot; fd = v.conn.fd }) in
      let (r, e', (h, at)) = serve_status-Heard status msg served o in
      let next = next_shorter (client_of i fd s).stream no_message in
      (
        r,
        rw e e',
        record {
          serves = h.serves;
          open_ = h.open_;
          token = h.token;
          rest = h.rest;
          shrinks =
              shrink r.0 status (client_of i fd r.1).stream
                (Parsers.contents l.parser_capacity parser) (client_of i fd s).stream at
                (subst
                  (λ (t : Status × List ℕ × DecodedMessage).
                    (t.0 ≡ Status.need_more_data)
                    ⊎ ((t.0 ≡ Status.protocol_error)
                        ⊎ (length t.1 + frame_size ≡ length (client_of i fd s).stream)))
                  (sym k) next)
                (ap (Parsers.contents l.parser_capacity) h.parser);
          meets = rw (← k) h.meets;
        },
      )

  -- The loop from a state to its end, and what the dialogue says of it.
  pub record Served (rounds : ℕ) (s s' : Serving) : Type 0 where
    pub serves : Serves i fd s'
    pub token : s'.conn.token ≡ s.conn.token
    pub rest : Rest s.gateway s'.gateway
    pub meets :
        client_of i fd s'
        ≡ converse rounds (l.queue_capacity - 1) fd s.conn.token (client_of i fd s)

  -- The rest of the loop behind a round.
  go_on :
      (rounds : ℕ) {s : Serving} (next : Next) (s' : Serving)
      → Rounded s (next, s')
      → (next ≡ again → Returns (serve rounds l fd s') (Served rounds s'))
      → (s'' : Serving) × (elim next as (λ _. Option Serving) [
        | stop ↦ some s'
        | again ↦ serve rounds l fd s'
      ]
          ≡ some s'')
        × Served (suc rounds) s s''
  go_on rounds {s} stop s' h rest = (
    s',
    refl,
    record {
      serves = h.serves;
      token = h.token;
      rest = h.rest;
      meets = sym (
          converse_stop rounds (l.queue_capacity - 1) fd s.conn.token (client_of i fd s)
            (sym h.meets));
    },
  )
  go_on rounds {s} again s' h rest =
      let (s'', e, g) = rest refl in
      (
        s'',
        e,
        record {
          serves = g.serves;
          token = g.token ∙ h.token;
          rest = g.rest ∙ h.rest;
          meets =
              subst
                (λ (t : SessionToken).
                  client_of i fd s''
                  ≡ converse rounds (l.queue_capacity - 1) fd t (client_of i fd s'))
                h.token g.meets
              ∙ sym (
                  converse_again rounds (l.queue_capacity - 1) fd s.conn.token (client_of i fd s)
                    (sym h.meets));
        },
      )

  pub serve-Served :
      (rounds : ℕ) {s : Serving}
      → Serves i fd s
      → s.should_close ≡ false
      → length (client_of i fd s).stream < rounds * frame_size
      → Returns (serve rounds l fd s) (Served rounds s)
  unfolding serve
  serve-Served zero v o few = absurd (omega arith)
  serve-Served (suc rounds) {s} v o few =
      let ((next, s'), e, h) = serve_round-Rounded v o in
      let (s'', e', g) = go_on rounds next s' h λ n.
        serve-Served rounds h.serves (subst (λ (k : Next). StaysOpen i fd k s') n h.open_)
          (fewer s' n h.shrinks) in
      (s'', rw e e', g)
    where
      fewer :
          {next : Next} (s' : Serving)
          → next ≡ again
          → Shrinks next (client_of i fd s').stream (client_of i fd s).stream
          → length (client_of i fd s').stream < rounds * frame_size
      fewer s' n shorter =
          let step : Shrinks again (client_of i fd s').stream (client_of i fd s).stream =
            subst (λ (k : Next). Shrinks k (client_of i fd s').stream (client_of i fd s).stream) n
              shorter in
          omega arith
