-- ===== src/Client/Rooms/Served.antt =====
-- The client's request to join a room at the server, and the server's answer at the client.
use cpp_socket_chat.Prelude.{
  ℕ, pos, min, ◌%◌, ◌%◌, ◌≤◌, ◌<◌, ◌≡◌, refl, sym, ap, Bool, true, false, Option, none, some, [],
  Bytes, bytes, arith, is_empty, length, take, le→not-ltb, nat_beq,
}
use cpp_socket_chat.Json.{Json, ok}
use cpp_socket_chat.Protocol.{
  Packet, join_room, room_join_ok, room_join_fail, room_user_join, reply, clipped_reply,
}
use cpp_socket_chat.Protocol.Wire.{payload_text-reply}
use cpp_socket_chat.Server.Clients
use cpp_socket_chat.Server.Clients.{ClientInfo}
use cpp_socket_chat.Server.Rooms
use cpp_socket_chat.Server.Rooms.Membership.{can_join, join_room-can_join}
use cpp_socket_chat.Server.State
use cpp_socket_chat.Server.State.{Server, send_packet, broadcast_packet_for_room, ◌>>=◌}
use cpp_socket_chat.Server.Handlers.{conclude, json_failure, room_code_json, user_json}
use cpp_socket_chat.Server.Handlers.Rooms.{admitted, join_as, join_body, handle_join_room}
use cpp_socket_chat.Client.Network.{INetworkClient}
use cpp_socket_chat.Client.Packets.{
  built, build, create_room_join_packet, parse_room_response_packet,
}
use cpp_socket_chat.Client.Services.{returned}
use cpp_socket_chat.Client.Connection.Registration.{
  ReadsBack, ReadsBack-has_field, ReadsBack-string_field,
}
use cpp_socket_chat.Client.Rooms as Service
use cpp_socket_chat.Client.Rooms.{RoomService, answered, requested, exchange, entered, on_joined}

clipped_reply-short :
    (text : Bytes) → length text ≤ 1024 → clipped_reply room_join_ok text ≡ reply room_join_ok text
unfolding clipped_reply reply
clipped_reply-short text h =
    let n : min (length text) 1024 ≡ length text % 65536 = omega (arith, h) in
    ap (λ n. record { type = room_join_ok; size = n; payload = take n text }) n

-- The answer to a request to join, by whether the room lets the client in.
abbrev pub answer : Bool → Bytes → Packet
answer true text = clipped_reply room_join_ok text
answer false text = reply room_join_fail (bytes "Failed to join room. Room not found or full.")

-- The server before it answers: the client that was let in has the room code, and the other members are
-- told of it.
abbrev pub let_in : Bool → ℕ → Bytes → Bytes → Server → Server
let_in true fd code user s =
    broadcast_packet_for_room (clipped_reply room_user_join user) code (pos fd) (record s {
      client_manager = Clients.set_room_code fd code s.client_manager;
      room_manager = (Rooms.join_room fd code s.room_manager).1;
    })
let_in false fd code user s = record s { room_manager = (Rooms.join_room fd code s.room_manager).1 }

module _ (json : Json) (code text : Bytes) where
  -- What the JSON library makes of the texts of a request and of its answer, which are the same.
  pub record CarriesCode : Type 0 where
    pub reads_back : ReadsBack json (bytes "roomCode") code text
    pub value : json.value_string reads_back.object (bytes "roomCode") [] ≡ ok code
    pub short : length text ≤ 1024
    pub filled : 0 < length text

module _ (json : Json) (fd : ℕ) (code text : Bytes) where
  module _ (k : CarriesCode json code text) where
    request-built : create_room_join_packet json code ≡ built (reply join_room text)
    unfolding create_room_join_packet build
    request-built = rw (k.reads_back.written, le→not-ltb 1024 (length text) k.short) refl

    admitted-answer :
        (c : ClientInfo) (user : Bytes) (s : Server) (b : Bool)
        → user_json json fd c ≡ ok user
        → conclude fd (json_failure room_join_fail) (
            admitted json fd code c b
              (record s { room_manager = (Rooms.join_room fd code s.room_manager).1 }))
          ≡ send_packet fd (answer b text) (let_in b fd code user s)
    unfolding admitted ◌>>=◌ conclude State.set_room_code room_code_json
    admitted-answer c user s true h = rw (k.reads_back.written, h) refl
    admitted-answer c user s false h = refl

    request-answered :
        (c : ClientInfo) (user : Bytes) (s : Server)
        → Clients.get_client fd s.client_manager ≡ some c
        → is_empty c.room_code ≡ true
        → user_json json fd c ≡ ok user
        → handle_join_room json fd (reply join_room text) s
          ≡ send_packet fd
              (answer (can_join fd code s.room_manager) text)
              (let_in (can_join fd code s.room_manager) fd code user s)
    unfolding handle_join_room join_body join_as ◌>>=◌ State.get_client State.join_room
    request-answered c user s e outside h =
        rw
          (
            payload_text-reply join_room text k.short,
            k.reads_back.read,
            ReadsBack-has_field json (bytes "roomCode") code text k.reads_back,
            ReadsBack-string_field json (bytes "roomCode") code text k.reads_back,
            e,
            outside,
            sym (join_room-can_join fd code s.room_manager),
          )
          (admitted-answer c user s (Rooms.join_room fd code s.room_manager).0 h)

    reply-filled : nat_beq (reply room_join_ok text).size 0 ≡ false
    unfolding reply
    reply-filled = let filled = k.filled in let short = k.short in ground (arith, filled, short)

    answer-parsed : parse_room_response_packet json (answer true text) ≡ ok code
    unfolding parse_room_response_packet
    answer-parsed =
        let whole = clipped_reply-short text k.short in
        rw
          (
            whole,
            payload_text-reply room_join_ok text k.short,
            reply-filled,
            k.reads_back.read,
            k.value,
          )
          refl

  module _ (net : INetworkClient) (r : RoomService json net) where
    -- The service behind the answer.
    abbrev pub joined_by : Bool → net.State → Option Bytes × RoomService json net
    joined_by true n = (some code, record r { network = n; current_room_code = code })
    joined_by false n = (none, record r { network = n })

    on_joined-answer :
        CarriesCode json code text
        → is_empty code ≡ false
        → (b : Bool) (n : net.State)
        → on_joined json net (answer b text).type (answer b text) (record r { network = n })
          ≡ returned (joined_by b n)
    unfolding on_joined clipped_reply reply entered
    on_joined-answer k given true n = rw (answer-parsed k, given) refl
    on_joined-answer k given false n = refl

    -- A client that is in no room asks to join one, its network takes the request, and delivers the
    -- server's answer to it. Then, as the room lets the client in or not, the server puts the client into
    -- the room, gives it the room code and tells the other members, and the call reports the room and
    -- takes the client to be in it; or the server gives it no room code, and the call reports no room and
    -- keeps the code that it had.
    pub join_room-served :
        (k : CarriesCode json code text) (c : ClientInfo) (user : Bytes) (s : Server)
        (n m : net.State)
        → is_empty code ≡ false
        → Clients.get_client fd s.client_manager ≡ some c
        → is_empty c.room_code ≡ true
        → user_json json fd c ≡ ok user
        → net.send (reply join_room text) r.network ≡ (true, n)
        → net.receive n ≡ (some (answer (can_join fd code s.room_manager) text), m)
        → (handle_join_room json fd (reply join_room text) s
            ≡ send_packet fd
                (answer (can_join fd code s.room_manager) text)
                (let_in (can_join fd code s.room_manager) fd code user s))
          × (Service.join_room json net code r
              ≡ returned (joined_by (can_join fd code s.room_manager) m))
    unfolding Service.join_room exchange requested answered
    join_room-served k c user s n m given e outside h sent got = (
      request-answered k c user s e outside h,
      rw (request-built k, sent, got)
          (on_joined-answer k given (can_join fd code s.room_manager) m),
    )
