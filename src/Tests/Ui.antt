-- ===== src/Tests/Ui.antt =====
-- The console program of the client at concrete inputs.
use cpp_socket_chat.Prelude.{
  pos, ◌≡◌, ◌≢◌, refl, true, false, some, inr, List, [], ◌∷◌, ◌++◌, Bytes, bytes,
}
use mathlib.Core.Option.{some-injective}
use cpp_socket_chat.Members.{member}
use cpp_socket_chat.Protocol.{
  Packet, room_exit_ok, message_chat, message_send, to_code, of_code, htons, wire, reply,
  payload_text,
}
use cpp_socket_chat.Server.Parser.{payload_size}
use cpp_socket_chat.Client.Network.{NetworkClient, receive, send, is_connected}
use cpp_socket_chat.Client.Network.Interface.{network_client}
use cpp_socket_chat.Client.Packets.{create_message_send_packet}
use cpp_socket_chat.Client.Chat.{start_receiving}
use cpp_socket_chat.Numerals.{is_space, digits, skip_spaces}
use cpp_socket_chat.Client.Ui.Streams.{
  Console, get_line, read_int, print, print_line, split_line, good,
}
use cpp_socket_chat.Client.Ui.Receiver
use cpp_socket_chat.Client.Ui.Receiver.{Shared, starting, looking, receiving, finished}
use cpp_socket_chat.Client.Ui.Receiver.Alone.{join-start_receiving, ending}
use cpp_socket_chat.Client.Ui.Session
use cpp_socket_chat.Client.Ui.Session.{
  Session, Turn, main_thread, receiver_thread, exiting, reading, left, leave,
}
use cpp_socket_chat.Client.Ui.Session.Exit.{exit_race}
use cpp_socket_chat.Client.Ui.Session.Typed.{typed_line-sent, sent_session}
use cpp_socket_chat.Client.Ui.Session.Threads.{Returns}
use cpp_socket_chat.Client.Ui.Lobby.{Lobby, register_user, fresh_lobby}
use cpp_socket_chat.Client.Ui.Lobby.Menu.{show_lobby_menu, handle_create_room}
use cpp_socket_chat.Client.Ui.Lobby.Asks.{
  typed_name, typed_limit, AsksWithin, handle_create_room-AsksWithin,
}
use cpp_socket_chat.Client.Ui.Lobby.Stuck.{IsOver, register_user_endless}
use cpp_socket_chat.Client.Ui.Lobby.Threads.{IsAlone, show_lobby_menu-Returns}
use cpp_socket_chat.Client.Ui.{done, stopped, out_of_rounds}
use cpp_socket_chat.Tests.Toy.{toy}

-- { "message": "hi" }
abbrev hi : Bytes
hi = 4 ∷ 1 ∷ 7 ∷ (bytes "message" ++ 1 ∷ 2 ∷ 104 ∷ 105 ∷ 0 ∷ [])

abbrev greeting : Packet
greeting = record { type = message_chat; size = 15; payload = hi }

abbrev goodbye : Packet
goodbye = record { type = room_exit_ok; size = 0; payload = [] }

abbrev connection : NetworkClient
connection = record {
  connected = true;
  incoming = wire goodbye ++ wire greeting;
  outgoing = [];
  outcomes = some 100 ∷ (some 100 ∷ []);
}

abbrev typing : Bytes → Console
typing input = record { input = input; eof = false; fail = false; output = []; errors = [] }

abbrev beginning : Shared toy network_client
beginning = record {
  console = typing [];
  network = connection;
  is_receiving = false;
  receiver = starting;
}

join-start_receiving_example :
    Receiver.join toy network_client beginning
    ≡ ending (start_receiving toy network_client (λ i. true) connection) (typing [])
join-start_receiving_example = join-start_receiving beginning refl

abbrev leaving : Session toy network_client
leaving = record {
  shared = record beginning { is_receiving = true; receiver = receiving };
  current_room_code = 120 ∷ [];
  main = exiting;
}

abbrev behind : NetworkClient
behind = record connection { incoming = wire greeting }

not_exit : (q : Packet) → greeting ≡ q → q.type ≢ room_exit_ok
not_exit q e h = cc

exit_race_example :
    (Session.run toy network_client (receiver_thread ∷ (main_thread [] ∷ [])) leaving
      ≡ done (record leaving {
        shared = record leaving.shared {
          network = record connection { incoming = [] };
          receiver = looking;
        };
        main = left;
      }))
    × (Session.run toy network_client (main_thread [] ∷ []) leaving
        ≡ done (record leaving {
          shared = record leaving.shared { network = behind };
          current_room_code = [];
          main = left;
        }))
unfolding receive wire htons to_code of_code payload_size payload_text bytes
exit_race_example =
    exit_race [] leaving goodbye behind refl refl refl refl
      λ q e h. not_exit q (some-injective greeting q e) h

-- "hi" is typed, and a second line behind it.
abbrev chatting : Session toy network_client
chatting = record {
  shared = record beginning { console = typing (104 ∷ 105 ∷ 10 ∷ 47 ∷ []); receiver = receiving };
  current_room_code = 120 ∷ [];
  main = reading;
}

abbrev chatted : Session toy network_client
chatted = sent_session (104 ∷ 105 ∷ []) (bytes "10:00") (47 ∷ []) (reply message_send hi) chatting

typed_line-sent_example :
    (Session.step toy network_client (main_thread (bytes "10:00")) chatting ≡ done chatted)
    × (chatted.shared.network.outgoing ≡ [] ++ wire (reply message_send hi))
unfolding good member bytes create_message_send_packet toy reply send wire htons to_code
    payload_text
typed_line-sent_example =
    typed_line-sent (bytes "10:00") (104 ∷ 105 ∷ []) (47 ∷ []) chatting (reply message_send hi) refl
      refl refl refl refl refl refl refl refl

-- A lobby in which this will be typed.
abbrev entered : Bytes → Lobby toy network_client
entered input = record (fresh_lobby toy network_client input connection) { is_running = true }

-- The name "room" and the limit 5, a line each
abbrev wish : Bytes
wish = bytes "room" ++ 10 ∷ (53 ∷ (10 ∷ []))

-- They lead to a request.
typed_wish :
    ((typed_name (typing wish)).0 ≡ bytes "room") × ((typed_limit (typing wish)).0 ≡ some (pos 5))
unfolding bytes get_line read_int print print_line good split_line skip_spaces is_space digits
typed_wish = (refl, refl)

handle_create_room-AsksWithin_example :
    AsksWithin done (entered wish) (handle_create_room toy network_client done (entered wish))
handle_create_room-AsksWithin_example = handle_create_room-AsksWithin done (entered wish)

register_user_endless_example :
    register_user toy network_client 7 (entered (32 ∷ [])) ≡ stopped out_of_rounds
unfolding is_connected IsOver skip_spaces
register_user_endless_example =
    register_user_endless toy network_client 7 (entered (32 ∷ [])) refl (inr refl)

-- A room is joined, and left.
abbrev script : Bytes
script = bytes "2" ++ 10 ∷ (bytes "x" ++ 10 ∷ (bytes "/exit" ++ 10 ∷ (bytes "3" ++ 10 ∷ [])))

abbrev turns : List Turn
turns = receiver_thread ∷ (main_thread [] ∷ (main_thread [] ∷ (main_thread [] ∷ [])))

show_lobby_menu-Returns_example :
    Returns IsAlone (show_lobby_menu toy network_client (turns ∷ (turns ∷ [])) (entered script))
unfolding IsAlone Receiver.is_finished
show_lobby_menu-Returns_example =
    show_lobby_menu-Returns (turns ∷ (turns ∷ [])) (entered script) refl
