-- ===== src/Protocol.antt =====
-- include/network/Protocol.h, which the server and the client share word for word: the limits, the
-- packet types and the packet. An `enum class` over `uint16_t` can hold every 16-bit value: a value
-- that is no enumerator is `other`. What `payload` holds past the bytes that were written is
-- indeterminate in the source, and absent here.
pub mod Codes
pub mod Wire
use cpp_socket_chat.Prelude.{
  ℕ, ◌+◌, ◌/◌, ◌%◌, ◌^◌, min, [], ◌∷◌, ◌++◌, Bytes, length, take, nat_beq, if◌then◌else◌,
}

-- MAX_NICKNAME_LEN, which the client tests
abbrev pub max_nickname_len : ℕ
max_nickname_len = 32

abbrev pub max_payload_size : ℕ
max_payload_size = 1024

-- sizeof(PacketHeader), packed
abbrev pub header_size : ℕ
header_size = 4

-- sizeof(Packet), packed
abbrev pub sizeof_packet : ℕ
sizeof_packet = header_size + max_payload_size

pub data PacketType : Type 0 where
  nickname_request message_send create_room exit_room join_room : PacketType
  nickname_response_ok nickname_response_fail : PacketType
  room_create_ok room_create_fail room_exit_ok room_exit_fail room_join_ok room_join_fail :
      PacketType
  room_user_join room_user_exit message_chat message_system : PacketType
  other : ℕ → PacketType

-- static_cast<uint16_t>(type)
unfoldable pub to_code : PacketType → ℕ
to_code nickname_request = 101
to_code message_send = 201
to_code create_room = 301
to_code exit_room = 302
to_code join_room = 303
to_code nickname_response_ok = 1001
to_code nickname_response_fail = 1002
to_code room_create_ok = 3011
to_code room_create_fail = 3012
to_code room_exit_ok = 3021
to_code room_exit_fail = 3022
to_code room_join_ok = 3031
to_code room_join_fail = 3032
to_code room_user_join = 3041
to_code room_user_exit = 3042
to_code message_chat = 1101
to_code message_system = 1102
to_code (other n) = n

-- (PacketType)code
unfoldable pub of_code : ℕ → PacketType
of_code n =
    if nat_beq n 101
    then nickname_request
    else if nat_beq n 201
    then message_send
    else if nat_beq n 301
    then create_room
    else if nat_beq n 302
    then exit_room
    else if nat_beq n 303
    then join_room
    else if nat_beq n 1001
    then nickname_response_ok
    else if nat_beq n 1002
    then nickname_response_fail
    else if nat_beq n 3011
    then room_create_ok
    else if nat_beq n 3012
    then room_create_fail
    else if nat_beq n 3021
    then room_exit_ok
    else if nat_beq n 3022
    then room_exit_fail
    else if nat_beq n 3031
    then room_join_ok
    else if nat_beq n 3032
    then room_join_fail
    else if nat_beq n 3041
    then room_user_join
    else if nat_beq n 3042
    then room_user_exit
    else if nat_beq n 1101
    then message_chat
    else if nat_beq n 1102
    then message_system
    else other n

pub record Packet : Type 0 where
  pub type : PacketType
  pub size : ℕ
  pub payload : Bytes

-- `header.size = strlen(text)` and a `memcpy` of that many bytes: the size is a `uint16_t`.
unfoldable pub reply : PacketType → Bytes → Packet
reply t text = let n = length text % 2 ^ 16 in record { type = t; size = n; payload = take n text }

-- The same under `std::min(text.length(), MAX_PAYLOAD_SIZE)`.
unfoldable pub clipped_reply : PacketType → Bytes → Packet
clipped_reply t text =
    let n = min (length text) max_payload_size in
    record { type = t; size = n; payload = take n text }

-- A packet with `header.size = 0`.
unfoldable pub empty_reply : PacketType → Packet
empty_reply t = record { type = t; size = 0; payload = [] }

-- std::string(packet.payload, packet.header.size)
unfoldable pub payload_text : Packet → Bytes
payload_text p = take p.size p.payload

-- htons: the two bytes of a `uint16_t`, the high one first.
unfoldable pub htons : ℕ → Bytes
htons n = (n / 256 % 256) ∷ (n % 256) ∷ []

-- The bytes that go to the socket: the header in network order and `size` bytes of the payload.
unfoldable pub wire : Packet → Bytes
unfolding payload_text
wire p = htons (to_code p.type) ++ (htons p.size ++ payload_text p)
