-- ===== src/Client/Chat/Shown.antt =====
-- The messages that a client shows of the packets that are sent to it.
use cpp_socket_chat.Prelude.{
  ℕ, zero, suc, ◌<◌, ◌≤◌, ◌≡◌, refl, ap, ◌∙◌, inl, inr, true, List, [], ◌∷◌, map, concat, arith,
  Bool-cases, not, length, length-append, if◌then◌else◌,
}
use cpp_socket_chat.Json.{Json, ok, throw, Result-cases}
use cpp_socket_chat.Protocol.{Packet, wire}
use cpp_socket_chat.Protocol.Wire.{length-wire}
use cpp_socket_chat.Server.Parser.Delivery.{AllSendable}
use cpp_socket_chat.Client.Network.{NetworkClient, receive, is_connected}
use cpp_socket_chat.Client.Network.Receive.{receive-wire, receive_nothing}
use cpp_socket_chat.Client.Network.Interface.{network_client}
use cpp_socket_chat.Client.Packets.{Message, parse_message_packet}
use cpp_socket_chat.Client.Chat.Loop.{receive_loop-some, receive_loop-none}
use cpp_socket_chat.Client.Chat.{Heard, hear, receive_loop, start_receiving, is_shown}

length-wires : (ps : List Packet) → AllSendable ps → length ps ≤ length (concat (map wire ps))
length-wires [] v = omega arith
length-wires (p ∷ ps) v =
    omega
      (arith, length-append (wire p) (concat (map wire ps)), length-wire p v.0, length-wires ps v.1)

module _ (json : Json) where
  -- The packets that are shown, each read, up to one whose text raises an exception.
  unfoldable pub messages_of : List Packet → List Message
  messages_of [] = []
  messages_of (p ∷ ps) =
      if not (is_shown p.type) then messages_of ps else elim (parse_message_packet json p) [
        | ok message ↦ message ∷ messages_of ps
        | throw e ↦ []
      ]

  hear-messages :
      (p : Packet) (ps : List Packet) (n : NetworkClient) (rest : Heard json network_client)
      → rest.messages ≡ messages_of ps
      → (hear json network_client p n rest).messages ≡ messages_of (p ∷ ps)
  unfolding hear messages_of
  hear-messages p ps n rest e = elim (Bool-cases (is_shown p.type)) [
    | inr hidden ↦ rw (hidden, messages_of) e
    | inl shown ↦ elim (Result-cases (parse_message_packet json p)) [
      | inl (m, r) ↦ rw (shown, messages_of, r) (ap (◌∷◌ m) e)
      | inr (x, r) ↦ rw (shown, messages_of, r) refl
    ]
  ]

  receive_loop-messages :
      (ps : List Packet) (fuel i : ℕ) (n : NetworkClient)
      → AllSendable ps
      → length ps < fuel
      → n.connected ≡ true
      → n.incoming ≡ concat (map wire ps)
      → (receive_loop json network_client fuel (λ _. true) i n).messages ≡ messages_of ps
  unfolding is_connected messages_of
  receive_loop-messages [] (suc fuel) i n v enough on e =
      receive_loop-none json network_client fuel (λ _. true) i n (receive_nothing n e)
  receive_loop-messages (p ∷ ps) (suc fuel) i n v enough on e =
      let rest = record n { incoming = concat (map wire ps) } in
      ap (λ h. h.messages)
        (receive_loop-some json network_client fuel (λ _. true) i n rest p on
          (ap (λ bs. receive (record n { incoming = bs })) e
            ∙ receive-wire p (concat (map wire ps)) n v.0))
      ∙ hear-messages p ps rest (receive_loop json network_client fuel (λ _. true) (suc i) rest)
          (receive_loop-messages ps fuel (suc i) rest v.1 (omega (arith, enough)) on refl)
  receive_loop-messages ps zero i n v enough on e = elim enough [ ]

  -- A client that is connected, and is not told to stop, shows the messages of the packets that were
  -- sent to it, if each fits a receiver's buffer: in the order in which they were sent, up to one whose
  -- text makes the parser raise an exception.
  pub start_receiving-messages :
      (ps : List Packet) (n : NetworkClient)
      → AllSendable ps
      → n.connected ≡ true
      → n.incoming ≡ concat (map wire ps)
      → (start_receiving json network_client (λ _. true) n).messages ≡ messages_of ps
  unfolding start_receiving
  start_receiving-messages ps n v on e =
      receive_loop-messages ps (suc (length n.incoming)) 0 n v
        (omega (arith, length-wires ps v, ap length e)) on e
