-- ===== src/Tests/Wire.antt =====
-- The protocol, the parser and the sender at concrete packets.
use cpp_socket_chat.Prelude.{◌≡◌, refl, List, [], ◌∷◌, map, concat, arith, Bytes}
use cpp_socket_chat.Protocol.{Packet, nickname_request, exit_room, to_code, of_code, htons, wire}
use cpp_socket_chat.Protocol.Wire.{IsSendable}
use cpp_socket_chat.Server.Parser.{
  waiting, parse_packets, parse_loop, packet_size, front_packet, feed, stop,
}
use cpp_socket_chat.Server.Parser.Stream
use cpp_socket_chat.Server.Parser.Delivery
use cpp_socket_chat.Server.Sender.{SendResult, accepted, would_block, failed, complete, send}
use cpp_socket_chat.Server.Sender.Progress

abbrev hello : Packet
hello = record { type = nickname_request; size = 2; payload = 0x7b ∷ 0x7d ∷ [] }

abbrev leave : Packet
leave = record { type = exit_room; size = 0; payload = [] }

hello-IsSendable : IsSendable hello
unfolding to_code of_code
hello-IsSendable = record {
  fits = omega arith;
  filled = refl;
  code_range = omega arith;
  canonical = refl;
}

leave-IsSendable : IsSendable leave
unfolding to_code of_code
leave-IsSendable = record {
  fits = omega arith;
  filled = refl;
  code_range = omega arith;
  canonical = refl;
}

-- 101 and 302 in network order.
abbrev stream : Bytes
stream = 0 ∷ 101 ∷ 0 ∷ 2 ∷ 0x7b ∷ 0x7d ∷ 1 ∷ 46 ∷ 0 ∷ 0 ∷ []

stream-wire : concat (map wire (hello ∷ leave ∷ [])) ≡ stream
unfolding wire to_code htons
stream-wire = refl

abbrev pieces : List Bytes
pieces = (0 ∷ 101 ∷ 0 ∷ []) ∷ (2 ∷ 0x7b ∷ 0x7d ∷ 1 ∷ 46 ∷ []) ∷ (0 ∷ 0 ∷ []) ∷ []

feed-wires_example :
    feed [] pieces ≡ record { packets = hello ∷ leave ∷ []; rest = []; status = waiting }
unfolding wire to_code htons
feed-wires_example =
    Delivery.feed-wires (hello ∷ leave ∷ []) pieces (hello-IsSendable, (leave-IsSendable, tt)) refl

stream_waits : (parse_packets stream).status ≡ waiting
unfolding parse_packets packet_size front_packet parse_loop
stream_waits = refl

nothing_waits : parse_packets [] ≡ stop [] waiting
unfolding parse_packets parse_loop
nothing_waits = refl

feed-concat_example : feed [] pieces ≡ parse_packets stream
feed-concat_example = Stream.feed-concat [] pieces nothing_waits stream_waits

abbrev socket : List SendResult
socket =
    accepted 2 ∷ would_block ∷ accepted 1 ∷ accepted 1 ∷ accepted 1 ∷ accepted 7 ∷ accepted 1 ∷ []

send_completes_example :
    ((send hello socket).status ≡ complete) × ((send hello socket).written ≡ wire hello)
unfolding wire htons to_code
send_completes_example = Progress.send_completes hello socket tt (omega arith)

send-WritesPrefix_example :
    Progress.WritesPrefix (wire hello) (send hello (accepted 3 ∷ failed ∷ []))
send-WritesPrefix_example = Progress.send-WritesPrefix hello (accepted 3 ∷ failed ∷ [])
