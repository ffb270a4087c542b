-- ===== src/Server/Parser.antt =====
-- The loop of PacketReceiver::parsePackets (server/src/network/PacketReceiver.cpp), over the receive
-- buffer of one client. The packets that it hands to the callback are listed in order. A packet is
-- copied into a `Packet` on the stack with no test of its size: a copy that is larger than that
-- object is the status `overflow`, after which the source's behaviour is undefined.
pub mod Fuel
pub mod View
pub mod Stream
pub mod Delivery
use cpp_socket_chat.Prelude.{
  ℕ, zero, suc, ◌+◌, ◌*◌, [], ◌∷◌, List, ◌++◌, Bytes, length, take, drop, ltb, if◌then◌else◌,
}
use cpp_socket_chat.Protocol.{Packet, of_code, header_size, sizeof_packet}

-- `waiting`: the loop ended, and what is left is no complete packet.
pub data Status : Type 0 where
  waiting overflow out_of_fuel : Status

pub record Parsed : Type 0 where
  pub packets : List Packet
  pub rest : Bytes
  pub status : Status

-- ntohs of the two bytes at the front
unfoldable pub ntohs : Bytes → ℕ
ntohs [] = 0
ntohs (h ∷ []) = 0
ntohs (h ∷ l ∷ _) = h * 256 + l

-- ntohs(header->size)
unfoldable pub payload_size : Bytes → ℕ
unfolding ntohs
payload_size buffer = ntohs (drop 2 buffer)

unfoldable pub packet_size : Bytes → ℕ
unfolding payload_size
packet_size buffer = header_size + payload_size buffer

-- The `memcpy` into `packet`, and the two fields that are converted.
unfoldable pub front_packet : Bytes → Packet
unfolding payload_size
front_packet buffer = record {
  type = of_code (ntohs buffer);
  size = payload_size buffer;
  payload = take (payload_size buffer) (drop header_size buffer);
}

abbrev pub stop : Bytes → Status → Parsed
stop buffer status = record { packets = []; rest = buffer; status = status }

abbrev pub deliver : Packet → Parsed → Parsed
deliver p r = record r { packets = p ∷ r.packets }

unfoldable pub parse_loop : ℕ → Bytes → Parsed
parse_loop zero buffer = stop buffer out_of_fuel
parse_loop (suc fuel) buffer =
    let more = deliver (front_packet buffer) (parse_loop fuel (drop (packet_size buffer) buffer)) in
    if ltb (length buffer) header_size
    then stop buffer waiting
    else if ltb (length buffer) (packet_size buffer)
    then stop buffer waiting
    else if ltb sizeof_packet (packet_size buffer)
    then stop buffer overflow
    else more

-- Each round removes four bytes or more, so this fuel is enough (`Fuel`).
unfoldable pub parse_packets : Bytes → Parsed
parse_packets buffer = parse_loop (suc (length buffer)) buffer

abbrev pub after : List Packet → Parsed → Parsed
after ps r = record r { packets = ps ++ r.packets }

-- The buffer of one client over a series of receptions, each followed by the parser.
unfoldable pub feed : Bytes → List Bytes → Parsed
feed buffer [] = stop buffer waiting
feed buffer (chunk ∷ chunks) =
    let r = parse_packets (buffer ++ chunk) in
    let more = after r.packets (feed r.rest chunks) in
    elim r.status [ waiting ↦ more | overflow ↦ r | out_of_fuel ↦ r ]
