-- ===== src/Gateway/Conversation.antt =====
-- The steps of the dialogue.
use low_latency_trading_gate.Base.{
  ℕ, suc, ◌+◌, ◌≡◌, refl, ap, List, length, arith, Bool-cases, inl, inr, length-drop, ◌⊎◌, lt→ltb,
  ltb-false, take,
}
use native.Mathlib.Decide.{dec_lt}
use low_latency_trading_gate.Codec.Header.Decode.{header_of}
use low_latency_trading_gate.Protocol.{frame_size}
use low_latency_trading_gate.FrameParser.{DecodedMessage, Status}
use low_latency_trading_gate.FrameParser.Stream
use low_latency_trading_gate.Engine.{SessionToken}
use low_latency_trading_gate.Gateway.Serve.{Next, again, stop}
use low_latency_trading_gate.Gateway.Dialogue.{Client, hear_next, converse}

-- What `next` takes from a stream when a round goes on.
pub next_shorter :
    (stream : List ℕ) (out : DecodedMessage)
    → let r = Stream.next stream out in
      (r.0 ≡ Status.need_more_data)
      ⊎ ((r.0 ≡ Status.protocol_error) ⊎ (length r.1 + frame_size ≡ length stream))
unfolding Stream.next
next_shorter stream out = elim (dec_lt (length stream) frame_size) [
  | yes short ↦ rw (lt→ltb (length stream) frame_size short) (inl refl)
  | no long ↦
      rw (ltb-false (length stream) frame_size (omega arith))
        (elim (Bool-cases (Stream.accepts (header_of (take frame_size stream)))) [
          | inl good ↦ rw good (inr (inr (omega (arith, length-drop frame_size stream))))
          | inr bad ↦ rw bad (inr (inl refl))
        ])
]

module _ (rounds bound fd : ℕ) (token : SessionToken) (c : Client) {c' : Client} where
  pub converse_stop :
      hear_next bound fd token c ≡ (stop, c') → converse (suc rounds) bound fd token c ≡ c'
  unfolding converse
  converse_stop e =
      ap
        (λ (r : Next × Client). elim r.0 as (λ _. Client) [
          | stop ↦ r.1
          | again ↦ converse rounds bound fd token r.1
        ])
        e

  pub converse_again :
      hear_next bound fd token c ≡ (again, c')
      → converse (suc rounds) bound fd token c ≡ converse rounds bound fd token c'
  unfolding converse
  converse_again e =
      ap
        (λ (r : Next × Client). elim r.0 as (λ _. Client) [
          | stop ↦ r.1
          | again ↦ converse rounds bound fd token r.1
        ])
        e
