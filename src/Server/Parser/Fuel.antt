-- ===== src/Server/Parser/Fuel.antt =====
-- The loop ends: with the fuel that `parse_packets` gives it, it stops by one of its tests.
use cpp_socket_chat.Prelude.{
  ℕ, zero, suc, ◌<◌, ◌≡◌, ◌≢◌, arith, Bytes, length, drop, length-drop, ltb, false, if◌then◌else◌,
}
use cpp_socket_chat.Server.Parser.{
  out_of_fuel, waiting, overflow, packet_size, front_packet, stop, deliver, parse_loop,
  parse_packets,
}

pub drop-lt :
    (buffer : Bytes) (f : ℕ)
    → ltb (length buffer) 4 ≡ false
    → length buffer < suc f
    → length (drop (packet_size buffer) buffer) < f
unfolding packet_size
drop-lt buffer f long h = ground (arith, length-drop (packet_size buffer) buffer)

pub parse_loop-ends :
    (f : ℕ) (buffer : Bytes) → length buffer < f → (parse_loop f buffer).status ≢ out_of_fuel
unfolding parse_loop
parse_loop-ends zero buffer h = elim h [ ]
parse_loop-ends (suc f) buffer h =
    ground (arith, drop-lt buffer f, parse_loop-ends f (drop (packet_size buffer) buffer))

-- More fuel changes nothing.
pub parse_loop-fuel :
    (f g : ℕ) (buffer : Bytes)
    → length buffer < f
    → length buffer < g
    → parse_loop f buffer ≡ parse_loop g buffer
unfolding parse_loop
parse_loop-fuel zero g buffer h k = elim h [ ]
parse_loop-fuel (suc f) zero buffer h k = elim k [ ]
parse_loop-fuel (suc f) (suc g) buffer h k = ground (
  arith,
  drop-lt buffer f,
  drop-lt buffer g,
  parse_loop-fuel f g (drop (packet_size buffer) buffer),
)

-- One round of the loop, for `parse_packets`.
pub parse_packets_lem :
    (buffer : Bytes)
    → parse_packets buffer ≡ (
        if ltb (length buffer) 4
        then stop buffer waiting
        else if ltb (length buffer) (packet_size buffer)
        then stop buffer waiting
        else if ltb 1028 (packet_size buffer)
        then stop buffer overflow
        else deliver (front_packet buffer) (parse_packets (drop (packet_size buffer) buffer)))
unfolding parse_packets parse_loop
parse_packets_lem buffer = ground (
  arith,
  drop-lt buffer (length buffer),
  parse_loop-fuel (length buffer) (suc (length (drop (packet_size buffer) buffer)))
      (drop (packet_size buffer) buffer),
)

-- Whatever the bytes, the loop comes to an end by its own tests.
pub parse_packets-ends : (buffer : Bytes) → (parse_packets buffer).status ≢ out_of_fuel
unfolding parse_packets
parse_packets-ends buffer = parse_loop-ends (suc (length buffer)) buffer (omega arith)
