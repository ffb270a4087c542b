-- ===== src/Client/Connection.antt =====
-- ConnectionService (client/src/core/ConnectionService.cpp). What it prints is left out.
pub mod Registration
use cpp_socket_chat.Prelude.{
  ℕ, Bool, true, false, Option, none, some, [], ◌∷◌, ◌++◌, Bytes, bytes, length, ltb, ◌||◌, not,
  is_empty, if◌then◌else◌,
}
use cpp_socket_chat.Json.{Json, JsonError, parse_error, other_error, Result, ok, throw, ◌>>=◌}
use cpp_socket_chat.Protocol.{
  max_nickname_len, PacketType, Packet, nickname_response_ok, payload_text,
}
use cpp_socket_chat.Client.Network.{INetworkClient}
use cpp_socket_chat.Client.Packets.{create_nickname_request_packet}
use cpp_socket_chat.Client.Services.{Outcome, returned, raised, with_request}

-- ConnectionService::ValidateNickname
unfoldable pub validate_nickname : Bytes → Bool
validate_nickname nickname = not (is_empty nickname || ltb max_nickname_len (length nickname))

module _ (json : Json) (net : INetworkClient) where
  pub record ConnectionService : Type 0 where
    pub network : net.State
    pub current_user : Bytes

  -- The reason for a refusal is read to be printed: an exception that is no parse error gets out.
  refused : Result Bytes → ConnectionService → Outcome (Bool × ConnectionService)
  refused (ok reason) c = returned (false, c)
  refused (throw (parse_error e)) c = returned (false, c)
  refused (throw (other_error e)) c = raised (other_error e)

  -- From the response.
  unfoldable pub registered :
      Bytes → Packet → PacketType → ConnectionService → Outcome (Bool × ConnectionService)
  unfolding refused
  registered nickname response nickname_response_ok c =
      returned (true, record c { current_user = nickname })
  registered nickname response _ c =
      refused
        (do
          entries ← json.parse (payload_text response)
          json.value_string entries (bytes "reason") (bytes "알 수 없는 이유"))
        c

  -- From the results of Send and Receive.
  received :
      Bytes → Option Packet × net.State → ConnectionService → Outcome (Bool × ConnectionService)
  unfolding registered
  received nickname (none, s) c = returned (false, record c { network = s })
  received nickname (some response, s) c =
      registered nickname response response.type (record c { network = s })

  sent : Bytes → Bool × net.State → ConnectionService → Outcome (Bool × ConnectionService)
  unfolding received
  sent nickname (false, s) c = returned (false, record c { network = s })
  sent nickname (true, s) c = received nickname (net.receive s) c

  -- ConnectionService::RegisterNickname
  unfoldable pub register_nickname : Bytes → ConnectionService → Outcome (Bool × ConnectionService)
  unfolding sent
  register_nickname nickname c =
      if not (validate_nickname nickname)
      then returned (false, c)
      else with_request (create_nickname_request_packet json nickname)
          λ request. sent nickname (net.send request c.network) c

  -- ConnectionService::Disconnect
  unfoldable pub disconnect : ConnectionService → ConnectionService
  disconnect c = record c { network = net.close c.network }
