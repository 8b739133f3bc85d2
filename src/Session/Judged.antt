-- ===== src/Session/Judged.antt =====
-- The handlers of `handle_message`, behind the check of the sequence number, against the ledger.
use low_latency_trading_gate.Base.{
  ℕ, ◌^◌, ◌<◌, ◌≡◌, refl, sym, ap, ap₂, ◌∙◌, inl, inr, List, none, some, Bool, true, arith, ◌==◌,
  ◌>>=◌, Bool-cases, Option-cases,
}
use mathlib.Core.Path.{fun_ext}
use low_latency_trading_gate.Protocol.{
  MessageType, RejectReason, reject_reason_code, reject_reason_of,
}
use low_latency_trading_gate.Protocol.Casts.{RejectReasonFits}
use low_latency_trading_gate.Protocol.MessageHeader.{MessageHeader}
use low_latency_trading_gate.FrameParser.{DecodedMessage}
use low_latency_trading_gate.Session.{
  OrderEntrySession, Handled, next_u64, encode_accept, encode_cancel, encode_modify,
  accept_new_order, cancel_live_order, modify_live_order, acknowledge,
}
use low_latency_trading_gate.Base.Maps.{
  find, emplace, erase, find-emplace, find-erase, emplace-Distinct, erase-Distinct,
}
use low_latency_trading_gate.Session.Ledger.{
  Ledger, Reply, request_of, objection, effect, rule, rule-refused, rule-allowed, handle_or_zero,
}
use low_latency_trading_gate.Session.Replies.{answer, ReplyFits}
use low_latency_trading_gate.Session.Valid.{IsValid, view}

-- A handler that sends one reply, and whose result is what the ledger says.
pub record Judged (s : OrderEntrySession) (h : MessageHeader) (out : List ℕ) (handled : Handled)
    (verdict : Bool × Ledger × Reply) : Type 0 where
  pub keep : Bool
  pub next : OrderEntrySession
  pub reply : Reply
  pub runs : handled ≡ (answer s h reply out >>= λ frame. some (keep, next, frame))
  pub valid : IsValid next
  pub meets : (keep, view next, reply) ≡ verdict
  pub fits : ReplyFits reply

-- A request is turned down: the session stays as it is.
pub rejected-Judged :
    {s : OrderEntrySession} {h : MessageHeader} {out : List ℕ} {handled : Handled}
    {verdict : Bool × Ledger × Reply} (id : ℕ) (reason : RejectReason)
    → IsValid s
    → id < 2 ^ 64
    → RejectReasonFits reason
    → handled ≡ (answer s h (Reply.rejected id reason) out >>= λ frame. some (true, s, frame))
    → verdict ≡ (true, view s, Reply.rejected id reason)
    → Judged s h out handled verdict
rejected-Judged {s} id reason v small fits runs meets = record {
  keep = true;
  next = s;
  reply = Reply.rejected id reason;
  runs = runs;
  valid = v;
  meets = sym meets;
  fits = (small, fits);
}

-- The reasons that a session gives.
pub data Given : RejectReason → Type 0 where
  sequence : Given RejectReason.bad_sequence
  duplicate : Given RejectReason.duplicate_client_order_id
  unknown : Given RejectReason.unknown_client_order_id
  price : Given RejectReason.invalid_price
  quantity : Given RejectReason.invalid_quantity
  unsupported : Given RejectReason.unsupported_message_type

pub reason-Fits : {r : RejectReason} → Given r → RejectReasonFits r
unfolding reject_reason_code reject_reason_of
reason-Fits sequence = record { small = omega arith; canonical = refl }
reason-Fits duplicate = record { small = omega arith; canonical = refl }
reason-Fits unknown = record { small = omega arith; canonical = refl }
reason-Fits price = record { small = omega arith; canonical = refl }
reason-Fits quantity = record { small = omega arith; canonical = refl }
reason-Fits unsupported = record { small = omega arith; canonical = refl }

module _ {s : OrderEntrySession} (msg : DecodedMessage) (out : List ℕ) (v : IsValid s) where
  placed-Judged :
      (id : ℕ)
      → id < 2 ^ 64
      → find id s.orders ≡ none
      → IsValid (record s {
        next_order_handle = next_u64 s.next_order_handle;
        orders = emplace id s.next_order_handle s.orders;
      })
  placed-Judged id small e = record {
    distinct = emplace-Distinct id s.next_order_handle s.orders e v.distinct;
    session_id = v.session_id;
    next_handle = omega arith;
    handles = λ k h f.
        ground
          (arith, find-emplace id s.next_order_handle k s.orders e, v.handles k h, v.next_handle);
  }

  pub accept_new_order-Judged :
      msg.new_order.client_order_id < 2 ^ 64
      → Judged s msg.header out
          (accept_new_order s msg msg.new_order.client_order_id out)
          (rule (view s) (request_of MessageType.new_order msg))
  unfolding accept_new_order answer objection effect request_of encode_accept
  accept_new_order-Judged small =
      let id = msg.new_order.client_order_id in
      let r = request_of MessageType.new_order msg in
      let l = view s in
      elim (Bool-cases (msg.new_order.price == 0)) [
        | inl p ↦
            rejected-Judged id RejectReason.invalid_price v small (reason-Fits price) (rw p)
              (rule-refused l r RejectReason.invalid_price (rw p))
        | inr p ↦ elim (Bool-cases (msg.new_order.quantity == 0)) [
          | inl q ↦
              rejected-Judged id RejectReason.invalid_quantity v small (reason-Fits quantity)
                (rw (p, q)) (rule-refused l r RejectReason.invalid_quantity (rw (p, q)))
          | inr q ↦ elim (Option-cases (find id s.orders)) [
            | inr (h, e) ↦
                rejected-Judged id RejectReason.duplicate_client_order_id v small
                  (reason-Fits duplicate) (rw (p, q, e))
                  (rule-refused l r RejectReason.duplicate_client_order_id (rw (p, q, e)))
            | inl e ↦ record {
              keep = true;
              next = record s {
                next_order_handle = next_u64 s.next_order_handle;
                orders = emplace id s.next_order_handle s.orders;
              };
              reply = Reply.accepted id s.next_order_handle;
              runs = rw (p, q, e);
              valid = placed-Judged id small e;
              meets = sym (
                  rule-allowed l r (rw (p, q, e))
                  ∙ ap
                      (λ live. (
                        true,
                        record l { next_handle = next_u64 s.next_order_handle; live = live },
                        Reply.accepted id s.next_order_handle,
                      ))
                      (fun_ext λ j. sym (find-emplace id s.next_order_handle j s.orders e)));
              fits = (small, v.next_handle);
            }
          ]
        ]
      ]

  erased-IsValid : (id : ℕ) → IsValid (record s { orders = erase id s.orders })
  erased-IsValid id = record {
    distinct = erase-Distinct id s.orders v.distinct;
    session_id = v.session_id;
    next_handle = v.next_handle;
    handles = λ k h f. ground (arith, find-erase id k s.orders v.distinct, v.handles k h);
  }

  pub cancel_live_order-Judged :
      msg.cancel_order.client_order_id < 2 ^ 64
      → Judged s msg.header out
          (cancel_live_order s msg msg.cancel_order.client_order_id out)
          (rule (view s) (request_of MessageType.cancel_order msg))
  unfolding cancel_live_order answer objection effect request_of encode_cancel
  cancel_live_order-Judged small =
      let id = msg.cancel_order.client_order_id in
      let r = request_of MessageType.cancel_order msg in
      let l = view s in
      elim (Option-cases (find id s.orders)) [
        | inl e ↦
            rejected-Judged id RejectReason.unknown_client_order_id v small (reason-Fits unknown)
              (rw (e, cancel_live_order))
              (rule-refused l r RejectReason.unknown_client_order_id (rw (e, objection)))
        | inr (h, e) ↦ record {
          keep = true;
          next = record s { orders = erase id s.orders };
          reply = Reply.cancelled id h;
          runs = rw (e, cancel_live_order);
          valid = erased-IsValid id;
          meets = sym (
              rule-allowed l r (rw (e, objection))
              ∙ ap₂ (λ live g. (true, record l { live = live }, Reply.cancelled id g))
                  (fun_ext λ j. sym (find-erase id j s.orders v.distinct)) (ap handle_or_zero e));
          fits = (small, v.handles id h e);
        }
      ]

  pub modify_live_order-Judged :
      msg.modify_order.client_order_id < 2 ^ 64
      → Judged s msg.header out
          (modify_live_order s msg msg.modify_order.client_order_id out)
          (rule (view s) (request_of MessageType.modify_order msg))
  unfolding modify_live_order answer objection effect request_of encode_modify
  modify_live_order-Judged small =
      let id = msg.modify_order.client_order_id in
      let r = request_of MessageType.modify_order msg in
      let l = view s in
      elim (Option-cases (find id s.orders)) [
        | inl e ↦
            rejected-Judged id RejectReason.unknown_client_order_id v small (reason-Fits unknown)
              (rw (e, modify_live_order))
              (rule-refused l r RejectReason.unknown_client_order_id (rw (e, objection)))
        | inr (h, e) ↦ elim (Bool-cases (msg.modify_order.new_price == 0)) [
          | inl p ↦
              rejected-Judged id RejectReason.invalid_price v small (reason-Fits price)
                (rw (e, modify_live_order, p))
                (rule-refused l r RejectReason.invalid_price (rw (e, objection, p)))
          | inr p ↦ elim (Bool-cases (msg.modify_order.new_quantity == 0)) [
            | inl q ↦
                rejected-Judged id RejectReason.invalid_quantity v small (reason-Fits quantity)
                  (rw (e, modify_live_order, p, q))
                  (rule-refused l r RejectReason.invalid_quantity (rw (e, objection, p, q)))
            | inr q ↦ record {
              keep = true;
              next = s;
              reply = Reply.modified id h;
              runs = rw (e, modify_live_order, p, q);
              valid = v;
              meets = sym (
                  rule-allowed l r (rw (e, objection, p, q))
                  ∙ ap (λ g. (true, l, Reply.modified id g)) (ap handle_or_zero e));
              fits = (small, v.handles id h e);
            }
          ]
        ]
      ]

  pub acknowledge-Judged :
      (t : MessageType) (keep : Bool)
      → (keep, view s, Reply.accepted 0 0) ≡ rule (view s) (request_of t msg)
      → Judged s msg.header out (acknowledge keep s msg out) (rule (view s) (request_of t msg))
  unfolding acknowledge answer
  acknowledge-Judged t keep meets = record {
    keep = keep;
    next = s;
    reply = Reply.accepted 0 0;
    runs = refl;
    valid = v;
    meets = meets;
    fits = (omega arith, omega arith);
  }
