-- ===== src/Codec/Frames.antt =====
-- A frame: the 32 bytes of a header, the bytes of a payload behind it, and what the span held
-- behind those. What the encoders and decoders of codec.hpp have in common.
use low_latency_trading_gate.Base.{
  ℕ, ◌+◌, ◌≤◌, ◌≡◌, ap, ◌∙◌, List, [], ◌++◌, some, arith, length, splice, drop, slice,
  length-splice, splice-zero, append_assoc, All-append, All-splice,
}
use low_latency_trading_gate.Base.Bytes.{IsByte, IsBytes, to_bytes, of_bytes}
use low_latency_trading_gate.Protocol.{MessageType, header_size, payload_size}
use low_latency_trading_gate.Protocol.Casts.{MessageTypeFits}
use low_latency_trading_gate.Protocol.MessageHeader.{MessageHeader}
use low_latency_trading_gate.Codec.Words.{store_u64_le}
use low_latency_trading_gate.Codec.Words.Stores.{store_u64_le-splice}
use low_latency_trading_gate.Codec.Header.{encode_header, decode_header, check_magic_version}
use low_latency_trading_gate.Codec.Header.Bytes.{header_bytes, HeaderFits, encode_header_lem}
use low_latency_trading_gate.Codec.Header.Decode.{
  decode_header_lem, header_of-header_bytes, header_of,
}

-- The header that an encoder sends: the caller's, with the type and the payload length set.
abbrev pub typed : MessageHeader → MessageType → MessageHeader
typed h t = record h { message_type = t; payload_length = payload_size }

pub typed-Fits :
    {h : MessageHeader} {t : MessageType}
    → HeaderFits h
    → MessageTypeFits t
    → HeaderFits (typed h t)
typed-Fits f m = record {
  magic = f.magic;
  version = f.version;
  message_type = m;
  payload_length = omega arith;
  flags = f.flags;
  sequence_number = f.sequence_number;
  session_id = f.session_id;
  reserved = f.reserved;
}

-- The span `out` with a frame at its front.
pub framed : MessageHeader → List ℕ → List ℕ → List ℕ
framed h payload out = splice 0 (header_bytes h ++ payload) out

pub framed-eq-append :
    (h : MessageHeader) (payload out : List ℕ)
    → header_size + length payload ≤ length out
    → framed h payload out ≡ header_bytes h ++ (payload ++ drop (header_size + length payload) out)
unfolding framed
framed-eq-append h payload out room =
    splice-zero (header_bytes h ++ payload) out (omega arith)
    ∙ ap (λ n. header_bytes h ++ (payload ++ drop n out)) {x = length (header_bytes h ++ payload)}
        {y = header_size + length payload} (omega arith)

pub length-framed :
    (h : MessageHeader) (payload out : List ℕ) → length (framed h payload out) ≡ length out
unfolding framed
length-framed h payload out = length-splice 0 (header_bytes h ++ payload) out

pub header_bytes-IsBytes : (h : MessageHeader) → IsBytes (header_bytes h)
header_bytes-IsBytes h = omega arith

pub framed-IsBytes :
    (h : MessageHeader) (payload out : List ℕ)
    → IsBytes payload
    → IsBytes out
    → IsBytes (framed h payload out)
unfolding framed
framed-IsBytes h payload out p o =
    All-splice IsByte 0 (header_bytes h ++ payload) out
      (All-append IsByte (header_bytes h) payload (header_bytes-IsBytes h) p) o

pub encode_header-framed :
    (h : MessageHeader) (out : List ℕ)
    → header_size ≤ length out
    → encode_header h out ≡ some (framed h [] out)
unfolding framed
encode_header-framed h out room = encode_header_lem h out room

-- A word stored right behind the payload so far extends it.
pub store_u64_le-framed :
    (h : MessageHeader) (payload out : List ℕ) (off v : ℕ)
    → off ≡ header_size + length payload
    → off + 8 ≤ length out
    → store_u64_le (framed h payload out) off v ≡ some (framed h (payload ++ to_bytes 8 v) out)
unfolding framed
store_u64_le-framed h payload out off v e room =
    store_u64_le-splice (header_bytes h ++ payload) out off v (omega arith) room
    ∙ ap (λ bs. some (splice 0 bs out)) (append_assoc (header_bytes h) payload (to_bytes 8 v))

-- `decode_header` gets the header of a frame back.
pub decode_header-framed :
    (h prior : MessageHeader) (payload out : List ℕ)
    → HeaderFits h
    → IsBytes payload
    → IsBytes out
    → header_size + length payload ≤ length out
    → decode_header (framed h payload out) prior ≡ some (check_magic_version h, h)
decode_header-framed h prior payload out fits p o room =
    decode_header_lem (framed h payload out) prior (framed-IsBytes h payload out p o)
      (omega (arith, length-framed h payload out))
    ∙ ap (λ k. some (check_magic_version k, k))
        (ap header_of (framed-eq-append h payload out room)
          ∙ header_of-header_bytes h (payload ++ drop (header_size + length payload) out) fits)

-- The word that the 8 bytes from `off` on stand for.
abbrev pub word_at : ℕ → List ℕ → ℕ
word_at off xs = of_bytes (slice off 8 xs)
