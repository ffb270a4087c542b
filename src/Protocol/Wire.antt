-- ===== src/Protocol/Wire.antt =====
-- The packets that have a place on the wire, and the sizes of what is sent.
use cpp_socket_chat.Prelude.{
  ◌+◌, ◌%◌, min, ◌≤◌, ◌<◌, ◌≡◌, refl, arith, Bytes, length, length-take, take-length,
}
use cpp_socket_chat.Protocol.{
  PacketType, Packet, to_code, of_code, max_payload_size, reply, clipped_reply, empty_reply,
  payload_text, htons, wire,
}
use cpp_socket_chat.Protocol.Codes.{IsNamed, to_code-lt, of_code-to_code}

-- A packet that the protocol can carry: its payload is there, and fits the buffer of a receiver.
pub record IsSendable (p : Packet) : Type 0 where
  pub fits : p.size ≤ max_payload_size
  pub filled : length p.payload ≡ p.size
  pub code_range : to_code p.type < 65536
  pub canonical : of_code (to_code p.type) ≡ p.type

pub length-payload_text : (p : Packet) → IsSendable p → length (payload_text p) ≡ p.size
unfolding payload_text
length-payload_text p v = omega (arith, length-take p.size p.payload, v.filled)

pub payload_text-eq : (p : Packet) → IsSendable p → payload_text p ≡ p.payload
unfolding payload_text
payload_text-eq p v = take-length p.size p.payload (omega (arith, v.filled))

pub length-wire : (p : Packet) → IsSendable p → length (wire p) ≡ 4 + p.size
unfolding wire htons
length-wire p v = omega (arith, length-payload_text p v)

module _ (t : PacketType) (text : Bytes) (named : IsNamed t) where
  -- A text that fits is carried whole.
  pub reply-IsSendable : length text ≤ max_payload_size → IsSendable (reply t text)
  unfolding reply
  reply-IsSendable h = record {
    fits = omega arith;
    filled = omega (arith, length-take (length text % 65536) text);
    code_range = to_code-lt t named;
    canonical = of_code-to_code t named;
  }

  -- A text that does not fit is cut.
  pub clipped_reply-IsSendable : IsSendable (clipped_reply t text)
  unfolding clipped_reply
  clipped_reply-IsSendable = record {
    fits = omega arith;
    filled = omega (arith, length-take (min (length text) 1024) text);
    code_range = to_code-lt t named;
    canonical = of_code-to_code t named;
  }

pub empty_reply-IsSendable : (t : PacketType) → IsNamed t → IsSendable (empty_reply t)
unfolding empty_reply
empty_reply-IsSendable t named = record {
  fits = omega arith;
  filled = refl;
  code_range = to_code-lt t named;
  canonical = of_code-to_code t named;
}

-- A text that fits is read back from the packet that carries it.
pub payload_text-reply :
    (t : PacketType) (text : Bytes)
    → length text ≤ max_payload_size
    → payload_text (reply t text) ≡ text
unfolding payload_text reply
payload_text-reply t text h =
    let n : length text % 65536 ≡ length text = omega (arith, h) in
    rw (n, take-length (length text) text (omega arith))
      (take-length (length text) text (omega arith))
