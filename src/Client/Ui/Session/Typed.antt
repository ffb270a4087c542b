-- ===== src/Client/Ui/Session/Typed.antt =====
-- A line that is typed in a chat session.
use cpp_socket_chat.Prelude.{
  ◌≡◌, true, false, ◌∷◌, ◌++◌, Bytes, bytes, bytes_beq, is_empty, arith, nat_eq,
}
use cpp_socket_chat.Json.{Json}
use cpp_socket_chat.Members.{member}
use cpp_socket_chat.Protocol.{Packet, wire}
use cpp_socket_chat.Client.Network.{INetworkClient, send, is_connected}
use cpp_socket_chat.Client.Network.Send.{send-outgoing}
use cpp_socket_chat.Client.Network.Interface.{network_client}
use cpp_socket_chat.Client.Packets.{built, create_message_send_packet}
use cpp_socket_chat.Client.Chat.{send_message}
use cpp_socket_chat.Client.Ui.Streams.{Console, newline, good}
use cpp_socket_chat.Client.Ui.Streams.Reading.{get_line-line}
use cpp_socket_chat.Client.Ui.Display.{get_message_input, show_input_prompt}
use cpp_socket_chat.Client.Ui.Session.{
  Session, main_thread, testing, reading, show_own, prompted, message_sent, on_input, main_as, step,
}
use cpp_socket_chat.Client.Ui.{done}

-- The console behind a message that was sent: the message, as one's own, and the prompt again.
abbrev pub sent_console : Bytes → Bytes → Console → Console
sent_console text time c = show_input_prompt (show_own text time c)

good-eof : (c : Console) → good c ≡ true → c.eof ≡ false
unfolding good
good-eof c h = ground (arith, h)

on_input-sent :
    (json : Json) (net : INetworkClient) (time text : Bytes) (s : Session json net)
    (request : Packet)
    → s.shared.console.eof ≡ false
    → net.is_connected s.shared.network ≡ true
    → bytes_beq text (bytes "/exit") ≡ false
    → is_empty text ≡ false
    → create_message_send_packet json text ≡ built request
    → (net.send request s.shared.network).0 ≡ true
    → on_input json net time text s
      ≡ done (record s {
        shared = record s.shared {
          console = sent_console text time s.shared.console;
          network = (net.send request s.shared.network).1;
        };
        main = testing;
      })
unfolding on_input message_sent prompted send_message
on_input-sent json net time text s request going on no_exit given made taken =
    simp (going, on, no_exit, given, made, taken)

module _ {json : Json} where
  -- What the session is when `request` was sent.
  abbrev pub sent_session :
      Bytes → Bytes → Bytes → Packet → Session json network_client → Session json network_client
  sent_session text time rest request s = record s {
    shared = record s.shared {
      console = sent_console text time (record s.shared.console { input = rest });
      network = (send request s.shared.network).1;
    };
    main = testing;
  }

  -- A text is typed behind which the input goes on, the connection stands, and the packet of the text
  -- is sent: the server gets the bytes of this packet behind what was sent before, the text is shown as
  -- one's own message with the local time, and the session goes on with the rest of the input.
  pub typed_line-sent :
      (time text rest : Bytes) (s : Session json network_client) (request : Packet)
      → s.main ≡ reading
      → good s.shared.console ≡ true
      → s.shared.console.input ≡ text ++ newline ∷ rest
      → member newline text ≡ false
      → is_empty text ≡ false
      → bytes_beq text (bytes "/exit") ≡ false
      → s.shared.network.connected ≡ true
      → create_message_send_packet json text ≡ built request
      → (send request s.shared.network).0 ≡ true
      → (step json network_client (main_thread time) s
          ≡ done (sent_session text time rest request s))
        × ((sent_session text time rest request s).shared.network.outgoing
            ≡ s.shared.network.outgoing ++ wire request)
  unfolding step main_as on_input message_sent prompted send_message get_message_input is_connected
  typed_line-sent time text rest s request at_reading works typed one_line given no_exit on made
        taken =
      (
        rw (at_reading, get_line-line text rest s.shared.console one_line works typed)
            (on_input-sent json network_client time text
              (record s {
                shared = record s.shared { console = record s.shared.console { input = rest } };
                main = reading;
              })
              request (good-eof s.shared.console works) on no_exit given made taken),
        (send-outgoing request s.shared.network taken).0,
      )
