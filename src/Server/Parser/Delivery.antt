-- ===== src/Server/Parser/Delivery.antt =====
-- From the bytes of PacketSender::send to the packets of PacketReceiver::parsePackets.
use cpp_socket_chat.Prelude.{
  ℕ, ◌+◌, ◌*◌, ◌/◌, ◌%◌, ◌≤◌, ◌<◌, ◌≡◌, refl, sym, ◌∙◌, ap, List, [], ◌∷◌, ◌++◌, map, concat, arith,
  Bytes, length, length-append, take, drop, take-append, drop-append, take-length, drop-length,
  append_assoc, append-nil,
}
use cpp_socket_chat.Protocol.{Packet, to_code, of_code, htons, wire, payload_text}
use cpp_socket_chat.Protocol.Wire.{IsSendable, length-wire, length-payload_text, payload_text-eq}
use cpp_socket_chat.Server.Parser.{
  Parsed, waiting, overflow, ntohs, payload_size, packet_size, front_packet, stop, deliver,
  parse_loop, parse_packets, after, feed,
}
use cpp_socket_chat.Server.Parser.View.{round, incomplete, too_large, whole}
use cpp_socket_chat.Server.Parser.Stream.{feed-concat}

-- The bytes of a header and of what follows it.
abbrev pub headed : ℕ → ℕ → Bytes → Bytes
headed code size body = htons code ++ (htons size ++ body)

ntohs-htons : (n : ℕ) (body : Bytes) → n < 65536 → ntohs (htons n ++ body) ≡ n
unfolding ntohs htons
ntohs-htons n body h = omega arith

packet_size-headed :
    (code size : ℕ) (body : Bytes) → size < 65536 → packet_size (headed code size body) ≡ 4 + size
unfolding packet_size payload_size htons ntohs
packet_size-headed code size body h = omega arith

length-headed : (code size : ℕ) (body : Bytes) → length (headed code size body) ≡ 4 + length body
unfolding htons
length-headed code size body = omega arith

front_packet-headed :
    (code size : ℕ) (body : Bytes)
    → code < 65536
    → size < 65536
    → front_packet (headed code size body)
      ≡ record { type = of_code code; size = size; payload = take size body }
unfolding front_packet payload_size htons ntohs
front_packet-headed code size body h k =
    let c : code / 256 % 256 * 256 + code % 256 ≡ code = omega arith in
    let n : size / 256 % 256 * 256 + size % 256 ≡ size = omega arith in rw (c, n) refl

-- A complete packet whose declared size is larger than the payload of a `Packet` is copied past its
-- end: the size that a client writes into a header is not compared with MAX_PAYLOAD_SIZE.
pub parse_packets_oversized :
    (code size : ℕ) (body : Bytes)
    → 1024 < size
    → size < 65536
    → size ≤ length body
    → parse_packets (headed code size body) ≡ stop (headed code size body) overflow
parse_packets_oversized code size body big range there = elim (round (headed code size body)) [
  | incomplete h e ↦
      absurd
        (omega (arith, packet_size-headed code size body range, length-headed code size body, h))
  | too_large h k l e ↦ e
  | whole h k fits e ↦ absurd (omega (arith, packet_size-headed code size body range))
]

wire-headed :
    (p : Packet) (rest : Bytes)
    → wire p ++ rest ≡ headed (to_code p.type) p.size (payload_text p ++ rest)
unfolding wire htons
wire-headed p rest = refl

take-payload_text :
    (p : Packet) (rest : Bytes) → IsSendable p → take p.size (payload_text p ++ rest) ≡ p.payload
take-payload_text p rest v =
    take-append p.size (payload_text p) rest (omega (arith, length-payload_text p v))
    ∙ take-length p.size (payload_text p) (omega (arith, length-payload_text p v))
    ∙ payload_text-eq p v

front_packet-wire : (p : Packet) (rest : Bytes) → IsSendable p → front_packet (wire p ++ rest) ≡ p
front_packet-wire p rest v =
    rw
      (
        wire-headed p rest,
        front_packet-headed (to_code p.type) p.size (payload_text p ++ rest) v.code_range
            (omega (arith, v.fits)),
      )
      (ground (arith, take-payload_text p rest v, v.canonical))

packet_size-wire :
    (p : Packet) (rest : Bytes) → IsSendable p → packet_size (wire p ++ rest) ≡ 4 + p.size
packet_size-wire p rest v =
    rw (wire-headed p rest)
      (packet_size-headed (to_code p.type) p.size (payload_text p ++ rest) (omega (arith, v.fits)))

drop-wire : (p : Packet) (rest : Bytes) → IsSendable p → drop (4 + p.size) (wire p ++ rest) ≡ rest
drop-wire p rest v =
    drop-append (4 + p.size) (wire p) rest (omega (arith, length-wire p v))
    ∙ ap (λ bs. bs ++ rest) (drop-length (4 + p.size) (wire p) (omega (arith, length-wire p v)))

-- A packet that was sent comes out first, unchanged, and the parser goes on behind it.
pub parse_packets-wire :
    (p : Packet) (rest : Bytes)
    → IsSendable p
    → parse_packets (wire p ++ rest) ≡ deliver p (parse_packets rest)
parse_packets-wire p rest v = elim (round (wire p ++ rest)) [
  | incomplete h e ↦
      absurd
        (omega (arith, packet_size-wire p rest v, length-append (wire p) rest, length-wire p v, h))
  | too_large h k l e ↦ absurd (omega (arith, packet_size-wire p rest v, v.fits))
  | whole h k f e ↦
      rw (e, packet_size-wire p rest v, front_packet-wire p rest v, drop-wire p rest v)
]

abbrev pub AllSendable : List Packet → Type 0
AllSendable [] = Unit
AllSendable (p ∷ ps) = IsSendable p × AllSendable ps

parse_packets-wires :
    (ps : List Packet) (rest : Bytes)
    → AllSendable ps
    → parse_packets (concat (map wire ps) ++ rest) ≡ after ps (parse_packets rest)
parse_packets-wires [] rest v = refl
parse_packets-wires (p ∷ ps) rest v =
    ap parse_packets (append_assoc (wire p) (concat (map wire ps)) rest)
    ∙ parse_packets-wire p (concat (map wire ps) ++ rest) v.0
    ∙ ap (deliver p) (parse_packets-wires ps rest v.1)

parse_packets-nil : parse_packets [] ≡ stop [] waiting
unfolding parse_packets parse_loop
parse_packets-nil = refl

after-nil :
    (ps : List Packet)
    → after ps (stop [] waiting) ≡ record { packets = ps; rest = []; status = waiting }
after-nil ps = rw append-nil

-- The bytes of packets that each fit a receiver's buffer, one packet after another, may be cut in any
-- way into receptions: the parser delivers these packets, in order, and leaves nothing.
pub feed-wires :
    (ps : List Packet) (chunks : List Bytes)
    → AllSendable ps
    → concat chunks ≡ concat (map wire ps)
    → feed [] chunks ≡ record { packets = ps; rest = []; status = waiting }
feed-wires ps chunks v cut =
    let whole_stream =
      ap parse_packets cut
      ∙ sym (ap parse_packets (append-nil (concat (map wire ps))))
      ∙ parse_packets-wires ps [] v
      ∙ ap (after ps) parse_packets-nil
      ∙ after-nil ps in
    feed-concat [] chunks parse_packets-nil (ap (λ (r : Parsed). r.status) whole_stream)
    ∙ whole_stream
