-- ===== src/Client/Chat.antt =====
-- ChatService (client/src/core/ChatService.cpp). Another thread may clear `m_is_receiving`: `still i`
-- is what the loop reads of it at the head of its i-th round.
pub mod Loop
pub mod Shown
pub mod Across
use cpp_socket_chat.Prelude.{
  ℕ, zero, suc, Bool, true, false, Option, none, some, List, [], ◌∷◌, Bytes, is_empty, not, ◌&&◌,
  if◌then◌else◌,
}
use cpp_socket_chat.Json.{Json, JsonError, Result, ok, throw}
use cpp_socket_chat.Protocol.{
  PacketType, Packet, message_chat, room_user_join, room_user_exit, message_system,
}
use cpp_socket_chat.Client.Network.{INetworkClient}
use cpp_socket_chat.Client.Packets.{Message, create_message_send_packet, parse_message_packet}
use cpp_socket_chat.Client.Services.{Outcome, returned, with_request}

-- The packets that are shown.
abbrev pub is_shown : PacketType → Bool
is_shown message_chat = true
is_shown room_user_join = true
is_shown room_user_exit = true
is_shown message_system = true
is_shown _ = false

-- How the receive loop ends: by its test or a failed reception, or by an exception of the parser.
pub data LoopEnd : Type 0 where
  ended : LoopEnd
  raised : JsonError → LoopEnd
  out_of_fuel : LoopEnd

module _ (json : Json) (net : INetworkClient) where
  -- ChatService::SendMessage
  unfoldable pub send_message : Bytes → net.State → Outcome (Bool × net.State)
  send_message content s =
      if is_empty content
      then returned (false, s)
      else with_request (create_message_send_packet json content)
          λ request. returned (net.send request s)

  pub record Heard : Type 0 where
    pub messages : List Message
    pub network : net.State
    pub end : LoopEnd

  -- What a packet adds to what the rest of the loop hears.
  unfoldable pub hear : Packet → net.State → Heard → Heard
  hear p s rest = if not (is_shown p.type) then rest else elim (parse_message_packet json p) [
    | ok message ↦ record rest { messages = message ∷ rest.messages }
    | throw e ↦ record { messages = []; network = s; end = raised e }
  ]

  -- ChatService::ReceiveLoop; `messages` is what the callback is given.
  unfoldable pub receive_loop : ℕ → (ℕ → Bool) → ℕ → net.State → Heard
  unfolding hear
  receive_loop zero still i s = record { messages = []; network = s; end = out_of_fuel }
  receive_loop (suc fuel) still i s =
      let rest = receive_loop fuel still (suc i) (net.receive s).1 in
      if not (still i && net.is_connected s)
      then record { messages = []; network = s; end = ended }
      else elim (net.receive s).0 [
        | none ↦ record { messages = []; network = (net.receive s).1; end = ended }
        | some p ↦ hear p (net.receive s).1 rest
      ]

  -- ChatService::StartReceiving: each round makes what is pending less, so this fuel is enough.
  unfoldable pub start_receiving : (ℕ → Bool) → net.State → Heard
  start_receiving still s = receive_loop (suc (net.pending s)) still 0 s
