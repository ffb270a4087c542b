-- ===== src/Client/Ui/ChatClient.antt =====
-- ChatClient (client/src/ui/ChatClient.cpp), the program without rooms. The thread that it starts is the
-- one of Client/Ui/Receiver: its OnMessageReceived shows a message by ConsoleUI::DisplayMessage.
use cpp_socket_chat.Prelude.{
  ℕ, zero, suc, ◌≡◌, refl, Bool, true, false, not, ◌||◌, ℤ, List, [], ◌∷◌, Bytes, bytes, bytes_beq,
  is_empty, if◌then◌else◌,
}
use cpp_socket_chat.Json.{Json}
use cpp_socket_chat.Client.Network.{INetworkClient}
use cpp_socket_chat.Client.Packets.{Message, format_for_display}
use cpp_socket_chat.Client.Services
use cpp_socket_chat.Client.Services.{Outcome}
use cpp_socket_chat.Client.Connection.{ConnectionService, register_nickname}
use cpp_socket_chat.Client.Chat.{send_message}
use cpp_socket_chat.Client.Ui.Streams.{Console}
use cpp_socket_chat.Client.Ui.Display.{
  show_input_prompt, display_message, display_system_message, display_error, get_connection_info,
  get_nickname, get_message_input,
}
use cpp_socket_chat.Client.Ui.Receiver.{Shared, starting, receive_step, join, on_message_received}
use cpp_socket_chat.Client.Ui.Session.{
  Main, testing, reading, left, Turn, main_thread, receiver_thread,
}
use cpp_socket_chat.Client.Ui.Lobby.{run_outcome, value_of}
use cpp_socket_chat.Client.Ui.{◌>>=◌, Run, done, stopped, overflowed, raised, out_of_rounds}

-- ChatClient::OnMessageReceived
unfoldable pub message_received : Message → Console → Console
message_received message c = display_message message c

-- It is what the lobby's thread shows.
pub message_received-eq :
    (m : Message) (c : Console)
    → message_received m c ≡ on_message_received (format_for_display false m) c
unfolding message_received display_message on_message_received
message_received-eq m c = refl

module _ (json : Json) (net : INetworkClient) where
  pub record ChatClient : Type 0 where
    pub shared : Shared json net
    pub current_user : Bytes
    pub main : Main

  abbrev pub with_console : Console → ChatClient → ChatClient
  with_console c l = record l { shared = record l.shared { console = c } }

  -- ChatClient::SetupConnection
  unfoldable pub setup_connection :
      (Bytes → ℤ → net.State → Bool × net.State) → ChatClient → Run (Bool × ChatClient)
  setup_connection connect l =
      let (host, (port, c)) = get_connection_info l.shared.console in
      value_of port >>= λ number.
      let (success, n) = connect host number l.shared.network in
      let shown =
        if success
        then display_system_message (bytes "서버에 연결되었습니다.") c
        else display_error (bytes "서버 연결에 실패했습니다.") c in
      done (success, record l { shared = record l.shared { console = shown; network = n } })

  nickname_answered :
      (ChatClient → Run (Bool × ChatClient))
      → ChatClient
      → Bool × ConnectionService json net
      → Run (Bool × ChatClient)
  nickname_answered again l (success, s) =
      let l1 = record l {
        shared = record l.shared { network = s.network };
        current_user = s.current_user;
      } in
      if success then done (true, l1) else again l1

  -- ChatClient::RegisterUser, for a number of rounds
  unfoldable pub register_user : ℕ → ChatClient → Run (Bool × ChatClient)
  unfolding nickname_answered
  register_user zero l =
      if not (net.is_connected l.shared.network) then done (false, l) else stopped out_of_rounds
  register_user (suc n) l =
      if not (net.is_connected l.shared.network)
      then done (false, l)
      else (let (nickname, c) = get_nickname l.shared.console in
          run_outcome (
            register_nickname json net nickname
              (record { network = l.shared.network; current_user = l.current_user }))
          >>= nickname_answered (register_user n) (with_console c l))

  unfoldable pub prompted : ChatClient → ChatClient
  prompted l = record (with_console (show_input_prompt l.shared.console) l) { main = testing }

  -- SendMessage, whose result is not looked at.
  message_sent : Outcome (Bool × net.State) → ChatClient → Run ChatClient
  unfolding prompted
  message_sent (Services.returned (success, n)) l =
      done (prompted (record l { shared = record l.shared { network = n } }))
  message_sent Services.overflowed l = stopped overflowed
  message_sent (Services.raised e) l = stopped (raised e)

  -- A round of ChatClient::InputLoop, behind GetMessageInput.
  unfoldable pub on_input : Bytes → ChatClient → Run ChatClient
  unfolding message_sent prompted
  on_input text l =
      if l.shared.console.eof || not (net.is_connected l.shared.network)
      then done (record l { main = left })
      else if bytes_beq text (bytes "/exit")
      then done (record l { main = left })
      else if is_empty text
      then done (prompted l)
      else message_sent (send_message json net text l.shared.network) l

  main_as : Main → ChatClient → Run ChatClient
  unfolding on_input
  main_as testing l = done (
      if net.is_connected l.shared.network
      then record l { main = reading }
      else record l { main = left })
  main_as reading l =
      let (text, c) = get_message_input l.shared.console in on_input text (with_console c l)
  main_as _ l = done l

  -- A turn of the thread of InputLoop, or of the other one.
  unfoldable pub step : Turn → ChatClient → Run ChatClient
  unfolding main_as
  step (main_thread time) l = main_as l.main l
  step receiver_thread l =
      receive_step json net l.shared >>= λ shared. done (record l { shared = shared })

  unfoldable pub input_loop : List Turn → ChatClient → Run ChatClient
  unfolding step
  input_loop [] l = done l
  input_loop (t ∷ ts) l = step t l >>= input_loop ts

  -- Behind the loop: StopReceiving, and the join in ChatClient::~ChatClient with the disconnection.
  unfoldable pub destroy : ChatClient → Run ChatClient
  destroy l = elim l.main [
    | left ↦ join json net (record l.shared { is_receiving = false }) >>= λ shared. done (record l {
      shared = record shared {
        network =
            if net.is_connected shared.network then net.close shared.network else shared.network;
      };
    })
    | _ ↦ stopped out_of_rounds
  ]

  -- ChatClient::StartChatSession
  unfoldable pub start_chat_session : List Turn → ChatClient → Run ChatClient
  unfolding input_loop
  start_chat_session turns l =
      let c = display_system_message (bytes "채팅이 시작되었습니다! (종료: /exit)") l.shared.console in
      input_loop turns (record l {
        shared = record l.shared { console = show_input_prompt c; receiver = starting };
        main = testing;
      })

  -- ChatClient::Run, for a number of rounds of RegisterUser and the turns of the session
  module _ (connect : Bytes → ℤ → net.State → Bool × net.State) (rounds : ℕ)
      (turns : List Turn) where
    registered : Bool × ChatClient → Run ChatClient
    registered (false, l) = done l
    registered (true, l) = start_chat_session turns l

    connected : Bool × ChatClient → Run ChatClient
    unfolding registered
    connected (false, l) = done l
    connected (true, l) = register_user rounds l >>= registered

    unfoldable pub run_client : ChatClient → Run ChatClient
    unfolding connected
    run_client l = setup_connection connect l >>= connected
