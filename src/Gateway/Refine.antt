-- ===== src/Gateway/Refine.antt =====
-- A message of a connection against the dialogue.
use low_latency_trading_gate.Base.{
  ℕ, ◌+◌, ◌-◌, ◌%◌, ◌^◌, ◌<◌, ◌≡◌, refl, sym, ap, subst, List, some, Bool, true, false, ◌==◌,
  Returns, arith, Bool-cases, inl, inr,
}
use low_latency_trading_gate.Base.Maps.{find}
use low_latency_trading_gate.Protocol.{MessageType, RejectReason}
use low_latency_trading_gate.Protocol.Accepted
use low_latency_trading_gate.Protocol.Rejected
use low_latency_trading_gate.Codec.Responses.Bytes.{encode_accepted_lem, encode_rejected_lem}
use low_latency_trading_gate.FrameParser.{DecodedMessage}
use low_latency_trading_gate.FrameParser.Valid as Parsers
use low_latency_trading_gate.Spsc.Queue
use low_latency_trading_gate.Spsc.Places
use low_latency_trading_gate.Spsc.AtomicV3.{Cached}
use low_latency_trading_gate.Spsc.AtomicV3.Items.{push-Holds}
use low_latency_trading_gate.Engine.{SessionToken, EngineCommand, EngineResponse}
use low_latency_trading_gate.Gateway.{
  Connection, SessionSlot, Limits, Call, sent, Gateway, log, no_command, no_frame, put,
}
use low_latency_trading_gate.Gateway.Serve.{
  command_of, send_rejected, send_accepted, Next, again, stop, Serving, forward_order, serve_type,
  serve_message,
}
use low_latency_trading_gate.Gateway.Dialogue.{Client, refusal, confirmation, hear_type, hear}
use low_latency_trading_gate.Gateway.Valid.{
  IsLimits, ConnectionIsValid, IsValid, log-IsValid, put-IsValid,
}

send_rejected_lem :
    (fd : ℕ) (conn : Connection) (msg : DecodedMessage) (g : Gateway)
    → send_rejected fd conn msg g ≡ some (log g (sent fd (refusal conn.token msg.header)))
unfolding send_rejected refusal
send_rejected_lem fd conn msg g = rw (
    encode_rejected_lem (record msg.header { session_id = conn.token.slot })
      (record Rejected.default { reason = RejectReason.bad_sequence }) no_frame (omega arith))

send_accepted_lem :
    (fd : ℕ) (msg : DecodedMessage) (g : Gateway)
    → send_accepted fd msg g ≡ some (log g (sent fd (confirmation msg.header)))
unfolding send_accepted confirmation
send_accepted_lem fd msg g =
    rw (encode_accepted_lem msg.header Accepted.default no_frame (omega arith))

command_of-token :
    (token : SessionToken) (msg : DecodedMessage) → (command_of token msg).session ≡ token
unfolding command_of
command_of-token token msg = ground arith

-- What the dialogue sees of a connection in the gateway.
abbrev pub view : Limits → Connection → Gateway → Client
view l conn g = record {
  expected = conn.expected_sequence;
  stream = Parsers.contents l.parser_capacity conn.parser;
  commands = Places.contents no_command l.queue_capacity g.cmd_queue.ring;
  calls = g.calls;
}

-- What the loop over a connection's messages leaves alone.
abbrev pub Rest : Gateway → Gateway → Type 0
Rest g g' =
    ◌≡◌ {A = List SessionSlot × Cached EngineResponse} (g'.slots, g'.rsp_queue)
      (g.slots, g.rsp_queue)

module _ {l : Limits} (i : IsLimits l) (fd : ℕ) where
  abbrev pub client_of : Serving → Client
  client_of s = view l s.conn s.gateway

  -- The loop at work on a connection that the map has.
  pub record Serves (s : Serving) : Type 0 where
    pub gateway : IsValid i s.gateway
    pub there : find fd s.gateway.connections ≡ some s.conn
    pub conn : ConnectionIsValid l fd s.conn

  abbrev pub StaysOpen : Next → Serving → Type 0
  StaysOpen again s = s.should_close ≡ false
  StaysOpen stop s = Unit {0}

  -- A round behind `try_parse` that does what the dialogue says.
  pub record Heard (s : Serving) (said : Next × Client) (r : Next × Serving) : Type 0 where
    pub serves : Serves r.1
    pub open_ : StaysOpen r.0 r.1
    pub parser : r.1.conn.parser ≡ s.conn.parser
    pub token : r.1.conn.token ≡ s.conn.token
    pub rest : Rest s.gateway r.1.gateway
    pub meets : (r.0, client_of r.1) ≡ said

  log-Serves :
      (s : Serving) (call : Call) (b : Bool)
      → Serves s
      → Serves (record s { should_close = b; gateway = log s.gateway call })
  log-Serves s call b v = record {
    gateway = log-IsValid i call v.gateway;
    there = v.there;
    conn = v.conn;
  }

  module _ (msg : DecodedMessage) {s : Serving} (v : Serves s) (o : s.should_close ≡ false) where
    forward_order-Heard : Returns (forward_order l fd msg s) (
        Heard s (
          again,
          record (client_of s) {
            commands =
                (Queue.push
                  (l.queue_capacity - 1)
                  (client_of s).commands
                  (command_of s.conn.token msg)).1;
          },
        ))
    unfolding forward_order
    forward_order-Heard =
        let ((ok, queue), e, (h, k)) =
          push-Holds _ no_command i.queue s.gateway.cmd_queue (command_of s.conn.token msg)
            v.gateway.commands
            (subst (λ (t : SessionToken). t.slot < l.max_slots)
              (sym (command_of-token s.conn.token msg)) v.conn.slot) in
        (
          (again, record s { gateway = record s.gateway { cmd_queue = queue } }),
          rw (e, o),
          record {
            serves = record {
              gateway = record {
                distinct = v.gateway.distinct;
                connections = v.gateway.connections;
                sized = v.gateway.sized;
                commands = h;
                responses = v.gateway.responses;
              };
              there = v.there;
              conn = v.conn;
            };
            open_ = o;
            parser = refl;
            token = refl;
            rest = refl;
            meets =
                ap
                  (λ (r : Bool × List EngineCommand).
                    (again, record (client_of s) { commands = r.1 }))
                  k;
          },
        )

    serve_type-Heard :
        (t : MessageType)
        → Returns
            (serve_type t l fd msg s)
            (Heard s (hear_type t (l.queue_capacity - 1) fd s.conn.token msg (client_of s)))
    unfolding serve_type hear_type
    serve_type-Heard MessageType.logout = (
      (
        stop,
        record s {
          should_close = true;
          gateway = log s.gateway (sent fd (confirmation msg.header));
        },
      ),
      rw (send_accepted_lem fd msg s.gateway),
      record {
        serves = log-Serves s (sent fd (confirmation msg.header)) true v;
        open_ = tt;
        parser = refl;
        token = refl;
        rest = refl;
        meets = refl;
      },
    )
    serve_type-Heard MessageType.heartbeat = (
      (again, record s { gateway = log s.gateway (sent fd (confirmation msg.header)) }),
      rw (send_accepted_lem fd msg s.gateway),
      record {
        serves = log-Serves s (sent fd (confirmation msg.header)) s.should_close v;
        open_ = o;
        parser = refl;
        token = refl;
        rest = refl;
        meets = refl;
      },
    )
    serve_type-Heard _ = forward_order-Heard

  -- The connection can be changed where its parser and its token stay valid.
  pub put-Serves :
      (s : Serving) (conn : Connection)
      → Serves s
      → ConnectionIsValid l fd conn
      → Serves (record s { conn = conn; gateway = put fd conn s.gateway })
  put-Serves s conn v w =
      let (valid, there) = put-IsValid i s.conn conn v.gateway v.there w in
      record { gateway = valid; there = there; conn = w }

  pub serve_message-Heard :
      (msg : DecodedMessage) {s : Serving}
      → Serves s
      → s.should_close ≡ false
      → Returns
          (serve_message l fd msg s)
          (Heard s (hear (l.queue_capacity - 1) fd s.conn.token msg (client_of s)))
  unfolding serve_message hear
  serve_message-Heard msg {s} v o =
      elim (Bool-cases (msg.header.sequence_number == s.conn.expected_sequence)) [
        | inr other ↦ (
          (again, record s { gateway = log s.gateway (sent fd (refusal s.conn.token msg.header)) }),
          rw (other, send_rejected_lem fd s.conn msg s.gateway),
          record {
            serves = log-Serves s (sent fd (refusal s.conn.token msg.header)) s.should_close v;
            open_ = o;
            parser = refl;
            token = refl;
            rest = refl;
            meets = rw other;
          },
        )
        | inl same ↦
            let conn : Connection = record s.conn {
              expected_sequence = (s.conn.expected_sequence + 1) % 2 ^ 64;
            } in
            let w : ConnectionIsValid l fd conn = record {
              parser = v.conn.parser;
              slot = v.conn.slot;
              fd = v.conn.fd;
            } in
            let (r, e, h) = serve_type-Heard msg (put-Serves s conn v w) o msg.type in
            (
              r,
              rw same e,
              record {
                serves = h.serves;
                open_ = h.open_;
                parser = h.parser;
                token = h.token;
                rest = h.rest;
                meets = rw same h.meets;
              },
            )
      ]
