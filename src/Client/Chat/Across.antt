-- ===== src/Client/Chat/Across.antt =====
-- A chat message from the server's handler to the screen of another member of the room.
use cpp_socket_chat.Prelude.{
  ℕ, ◌≤◌, ◌≡◌, refl, sym, ap, ◌∙◌, inl, inr, true, false, Bool-cases, some, List, [], ◌∷◌, map,
  concat, Bytes, bytes, arith, length, nat_beq, nat_beq_iff, nat_eq, is_empty, bytes_eq,
  if◌then◌else◌,
}
use cpp_socket_chat.Json.{Json, ok}
use cpp_socket_chat.Map.{lookup}
use cpp_socket_chat.Members.{member, Distinct}
use cpp_socket_chat.Protocol.{Packet, message_chat, reply, payload_text, wire}
use cpp_socket_chat.Protocol.Wire.{reply-IsSendable}
use cpp_socket_chat.Server.Clients
use cpp_socket_chat.Server.Clients.{ClientInfo}
use cpp_socket_chat.Server.Room.{Room}
use cpp_socket_chat.Server.State.{Server}
use cpp_socket_chat.Server.State.Broadcast.{others, addressed}
use cpp_socket_chat.Server.Handlers.Message.{chat_json, handle_message}
use cpp_socket_chat.Server.Handlers.Message.Delivery.{handle_message-posted}
use cpp_socket_chat.Client.Network.{NetworkClient}
use cpp_socket_chat.Client.Network.Interface.{network_client}
use cpp_socket_chat.Client.Chat.{start_receiving}
use cpp_socket_chat.Client.Chat.Shown.{messages_of, start_receiving-messages}

-- The packets that were handed to the sender for one client, in order.
abbrev pub packets_for : ℕ → List (ℕ × Packet) → List Packet
packets_for g [] = []
packets_for g ((fd, p) ∷ sent) =
    let rest = packets_for g sent in if nat_beq fd g then p ∷ rest else rest

not_addressed :
    (g fd : ℕ) (p : Packet) (gs : List ℕ)
    → member g gs ≡ false
    → packets_for g (addressed p (others fd gs)) ≡ []
unfolding member
not_addressed g fd p [] out = refl
not_addressed g fd p (h ∷ gs) out = elim (Bool-cases (nat_beq h fd)) [
  | inl same ↦ rw same (not_addressed g fd p gs (ground (arith, out)))
  | inr other ↦
      let apart : nat_beq h g ≡ false = ground (arith, out) in
      let rest : member g gs ≡ false = ground (arith, out) in
      rw (other, apart) (not_addressed g fd p gs rest)
]

addressed_once :
    (g fd : ℕ) (p : Packet) (gs : List ℕ)
    → member g gs ≡ true
    → Distinct gs
    → nat_beq g fd ≡ false
    → packets_for g (addressed p (others fd gs)) ≡ p ∷ []
unfolding member
addressed_once g fd p [] inside d other = cc
addressed_once g fd p (h ∷ gs) inside d other = elim (Bool-cases (nat_beq h g)) [
  | inl same ↦
      let first : nat_beq h fd ≡ false = ground (arith, same, other) in
      let e : h ≡ g = (nat_beq_iff h g).0 same in
      let rest : member g gs ≡ false = ap (λ x. member x gs) (sym e) ∙ d.0 in
      rw (first, same) (ap (◌∷◌ p) (not_addressed g fd p gs rest))
  | inr apart ↦
      let rest : member g gs ≡ true = ground (arith, apart, inside) in
      elim (Bool-cases (nat_beq h fd)) [
        | inl self ↦ rw self (addressed_once g fd p gs rest d.1 other)
        | inr free ↦ rw (free, apart) (addressed_once g fd p gs rest d.1 other)
      ]
]

module _ (json : Json) (timestamp : Bytes) (fd g : ℕ) (packet : Packet) (s : Server)
    (sender : ClientInfo) (n : NetworkClient) where
  -- A chat message from an authenticated client in a room, that is valid JSON and no longer than 1,024
  -- bytes once it is dressed: if the server has sent nothing before, then another member of the room,
  -- whose connection delivers what the server sends to it, and who receives until that ends, shows what
  -- the client makes of this message, and nothing else.
  pub message_shown :
      (request message : json.Value) (text : Bytes) (room : Room)
      → Clients.get_client fd s.client_manager ≡ some sender
      → sender.is_authenticated ≡ true
      → is_empty sender.room_code ≡ false
      → json.parse (payload_text packet) ≡ ok request
      → json.index request (bytes "message") ≡ ok message
      → json.dump (chat_json json fd sender message timestamp) ≡ ok text
      → length text ≤ 1024
      → lookup sender.room_code s.room_manager.rooms ≡ some room
      → Distinct room.clients
      → member g room.clients ≡ true
      → nat_beq g fd ≡ false
      → s.outbox ≡ []
      → n.connected ≡ true
      → n.incoming
        ≡ concat (map wire (packets_for g (handle_message json timestamp fd packet s).outbox))
      → (start_receiving json network_client (λ _. true) n).messages
        ≡ messages_of json (reply message_chat text ∷ [])
  message_shown request message text room c a h p m d fits r distinct inside other empty on e =
      start_receiving-messages json (reply message_chat text ∷ []) n
        (reply-IsSendable message_chat text (λ k x. cc) fits, tt) on
        (e ∙ ap (λ ps. concat (map wire ps)) sent)
    where
      sent :
          packets_for g (handle_message json timestamp fd packet s).outbox
          ≡ reply message_chat text ∷ []
      sent =
          ap (λ (t : Server). packets_for g t.outbox)
            (handle_message-posted json timestamp fd packet s sender request message text room c a h
              p m d fits r)
          ∙ rw empty
              (addressed_once g fd (reply message_chat text) room.clients inside distinct other)
