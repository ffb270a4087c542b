-- ===== src/Client/Rooms.antt =====
-- RoomService (client/src/core/RoomService.cpp). What it prints is left out, and so is the test for a
-- null pointer: a service is made with its network client.
pub mod Codes
pub mod Served
use cpp_socket_chat.Prelude.{
  ℤ, Bool, true, false, Option, none, some, [], Bytes, not, is_empty, if◌then◌else◌,
}
use cpp_socket_chat.Json.{Json, Result, ok, throw}
use cpp_socket_chat.Protocol.{PacketType, Packet, room_create_ok, room_join_ok, room_exit_ok}
use cpp_socket_chat.Client.Network.{INetworkClient}
use cpp_socket_chat.Client.Packets.{
  create_room_create_packet, create_room_join_packet, create_room_exit_packet,
  parse_room_response_packet,
}
use cpp_socket_chat.Client.Services.{Outcome, returned, raised, with_request}

module _ (json : Json) (net : INetworkClient) where
  pub record RoomService : Type 0 where
    pub network : net.State
    pub current_room_code : Bytes

  module _ {A : Type 0} (failure : A)
      (next : Packet → RoomService → Outcome (A × RoomService)) where
    -- From the result of Receive, and from that of Send.
    unfoldable pub answered : RoomService → Option Packet × net.State → Outcome (A × RoomService)
    answered r (none, s) = returned (failure, record r { network = s })
    answered r (some p, s) = next p (record r { network = s })

    unfoldable pub requested : RoomService → Bool × net.State → Outcome (A × RoomService)
    requested r (false, s) = returned (failure, record r { network = s })
    requested r (true, s) = answered r (net.receive s)

    -- A request, and what its response makes of the service.
    exchange : Packet → RoomService → Outcome (A × RoomService)
    unfolding requested answered
    exchange request r = requested r (net.send request r.network)

  -- The room code of a response; the empty text is none.
  entered : Result Bytes → RoomService → Outcome (Option Bytes × RoomService)
  entered (throw e) r = raised e
  entered (ok code) r =
      if not (is_empty code)
      then returned (some code, record r { current_room_code = code })
      else returned (none, r)

  -- The responses to CREATE_ROOM, to JOIN_ROOM and to EXIT_ROOM, by their types.
  unfoldable pub on_created :
      PacketType → Packet → RoomService → Outcome (Option Bytes × RoomService)
  unfolding entered
  on_created room_create_ok response r = entered (parse_room_response_packet json response) r
  on_created _ response r = returned (none, r)

  unfoldable pub on_joined :
      PacketType → Packet → RoomService → Outcome (Option Bytes × RoomService)
  unfolding entered
  on_joined room_join_ok response r = entered (parse_room_response_packet json response) r
  on_joined _ response r = returned (none, r)

  unfoldable pub on_exited : PacketType → RoomService → Outcome (Bool × RoomService)
  on_exited room_exit_ok r = returned (true, record r { current_room_code = [] })
  on_exited _ r = returned (false, r)

  -- RoomService::CreateRoom; the code is what `outRoomCode` is set to.
  unfoldable pub create_room : Bytes → ℤ → RoomService → Outcome (Option Bytes × RoomService)
  unfolding exchange
  create_room room_name max_users r =
      with_request (create_room_create_packet json room_name max_users)
        λ request. exchange none (λ response. on_created response.type response) request r

  -- RoomService::JoinRoom; it returns true where this gives a code.
  unfoldable pub join_room : Bytes → RoomService → Outcome (Option Bytes × RoomService)
  unfolding exchange
  join_room room_code r =
      with_request (create_room_join_packet json room_code)
        λ request. exchange none (λ response. on_joined response.type response) request r

  -- RoomService::ExitRoom
  unfoldable pub exit_room : RoomService → Outcome (Bool × RoomService)
  unfolding exchange
  exit_room r =
      if is_empty r.current_room_code
      then returned (false, r)
      else exchange false (λ response. on_exited response.type) create_room_exit_packet r
