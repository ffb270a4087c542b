-- ===== src/Client/Ui/Session.antt =====
-- A chat session of the lobby (Lobby::StartChatSession and Lobby::InputLoop,
-- client/src/ui/Lobby.cpp): two threads that share the console, the connection and the flag of the
-- receive loop. A list of turns says which of them goes on.
pub mod Exit
pub mod Typed
pub mod Threads
use cpp_socket_chat.Prelude.{
  Bool, true, false, not, ◌||◌, negsuc, Option, none, some, List, [], ◌∷◌, Bytes, bytes, is_empty,
  bytes_beq, if◌then◌else◌,
}
use cpp_socket_chat.Json.{Json}
use cpp_socket_chat.Protocol.{Packet, PacketType, room_exit_ok}
use cpp_socket_chat.Client.Network.{INetworkClient}
use cpp_socket_chat.Client.Packets.{Message, chat, format_for_display, create_room_exit_packet}
use cpp_socket_chat.Client.Services
use cpp_socket_chat.Client.Services.{Outcome}
use cpp_socket_chat.Client.Chat.{send_message}
use cpp_socket_chat.Client.Ui.Streams.{Console, print_line}
use cpp_socket_chat.Client.Ui.Display.{
  clear_line, show_input_prompt, display_system_message, get_message_input,
}
use cpp_socket_chat.Client.Ui.Receiver.{Shared, starting, is_finished, receive_step, join}
use cpp_socket_chat.Client.Ui.{
  ◌>>=◌, Run, done, stopped, overflowed, raised, thread_replaced, out_of_rounds,
}

-- Where the thread of InputLoop is: before the loop's test, behind GetMessageInput's wait, in the
-- Receive of ExitRoom, and behind the loop.
pub data Main : Type 0 where
  testing reading exiting left : Main

-- Whose turn it is; the first thread may read the local time in its turn.
pub data Turn : Type 0 where
  main_thread : Bytes → Turn
  receiver_thread : Turn

-- Message my_message("", "", input, time)
abbrev pub own_message : Bytes → Bytes → Message
own_message text time = record {
  content = text;
  sender_nickname = [];
  sender_ip = [];
  timestamp = time;
  sender_fd = negsuc 0;
  type = chat;
}

-- What is shown of a message that was sent.
unfoldable pub show_own : Bytes → Bytes → Console → Console
show_own text time c = print_line (format_for_display true (own_message text time)) (clear_line c)

module _ (json : Json) (net : INetworkClient) where
  pub record Session : Type 0 where
    pub shared : Shared json net
    pub current_room_code : Bytes
    pub main : Main

  -- `m` behind ShowInputPrompt at the end of a round.
  unfoldable pub prompted : Session → Session
  prompted s = record s {
    shared = record s.shared { console = show_input_prompt s.shared.console };
    main = testing;
  }

  -- What SendMessage returns.
  unfoldable pub message_sent : Bytes → Bytes → Outcome (Bool × net.State) → Session → Run Session
  unfolding prompted
  message_sent text time (Services.returned (true, n)) s = done (
      prompted (record s {
        shared = record s.shared { console = show_own text time s.shared.console; network = n };
      }))
  message_sent text time (Services.returned (false, n)) s =
      done (prompted (record s { shared = record s.shared { network = n } }))
  message_sent text time Services.overflowed s = stopped overflowed
  message_sent text time (Services.raised e) s = stopped (raised e)

  -- The sending in ExitRoom.
  exit_sent : Bool × net.State → Session → Session
  exit_sent (true, n) s = record s { shared = record s.shared { network = n }; main = exiting }
  exit_sent (false, n) s = record s { shared = record s.shared { network = n }; main = left }

  -- The command /exit.
  unfoldable pub leave : Session → Session
  unfolding exit_sent
  leave s =
      if is_empty s.current_room_code
      then record s { main = left }
      else exit_sent (net.send create_room_exit_packet s.shared.network) s

  -- A round of InputLoop, behind GetMessageInput.
  unfoldable pub on_input : Bytes → Bytes → Session → Run Session
  unfolding message_sent leave prompted
  on_input time text s =
      if s.shared.console.eof || not (net.is_connected s.shared.network)
      then done (record s { main = left })
      else if bytes_beq text (bytes "/exit")
      then done (leave s)
      else if is_empty text
      then done (prompted s)
      else message_sent text time (send_message json net text s.shared.network) s

  -- The type of the response in ExitRoom.
  exit_response : PacketType → Session → Session
  exit_response room_exit_ok s = record s { current_room_code = []; main = left }
  exit_response _ s = record s { main = left }

  -- The rest of ExitRoom, from Receive.
  exit_answered : Option Packet × net.State → Session → Session
  unfolding exit_response
  exit_answered (none, n) s = record s { shared = record s.shared { network = n }; main = left }
  exit_answered (some p, n) s =
      exit_response p.type (record s { shared = record s.shared { network = n } })

  unfoldable pub main_as : Main → Bytes → Session → Run Session
  unfolding on_input exit_answered
  main_as testing time s = done (
      if net.is_connected s.shared.network
      then record s { main = reading }
      else record s { main = left })
  main_as reading time s =
      let (text, c) = get_message_input s.shared.console in
      on_input time text (record s { shared = record s.shared { console = c } })
  main_as exiting time s = done (exit_answered (net.receive s.shared.network) s)
  main_as left time s = done s

  received : Session → Shared json net → Run Session
  received s shared = done (record s { shared = shared })

  -- A turn of one of the threads.
  unfoldable pub step : Turn → Session → Run Session
  unfolding main_as received
  step (main_thread time) s = main_as s.main time s
  step receiver_thread s = receive_step json net s.shared >>= received s

  unfoldable pub run : List Turn → Session → Run Session
  unfolding step
  run [] s = done s
  run (t ∷ ts) s = step t s >>= run ts

  -- InputLoop from the end of its loop to the end of the other thread, if the turns lead there.
  unfoldable pub close_session : Session → Run Session
  close_session s = elim s.main [
    | left ↦ join json net (record s.shared { is_receiving = false }) >>= λ shared.
        done (record s { shared = shared })
    | _ ↦ stopped out_of_rounds
  ]

  -- StartChatSession and InputLoop, up to the return to the lobby. A thread that is finished here was
  -- joined: the end of a session joins it.
  unfoldable pub chat_session : List Turn → Session → Run Session
  unfolding run close_session
  chat_session turns s =
      if is_finished s.shared.receiver
      then (let c = display_system_message (bytes "채팅이 시작되었습니다! (종료: /exit)") s.shared.console in
          let start = record s {
            shared = record s.shared { console = show_input_prompt c; receiver = starting };
            main = testing;
          } in
          run turns start >>= close_session)
      else stopped thread_replaced
