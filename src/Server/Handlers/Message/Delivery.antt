-- ===== src/Server/Handlers/Message/Delivery.antt =====
-- To whom a chat message goes.
use cpp_socket_chat.Prelude.{
  ℕ, pos, not, Bool, true, false, Option, none, some, List, [], Bytes, bytes, ◌≡◌, ◌≤◌, refl, ap,
  ◌∙◌, inl, inr, arith, nat_beq, length, ltb, is_empty, append-nil, le→not-ltb, Option-cases,
  Bool-cases, nat_eq, bytes_eq, if◌then◌else◌,
}
use cpp_socket_chat.Json.{Json, ok, Result-cases}
use cpp_socket_chat.Map.{lookup}
use cpp_socket_chat.Protocol.{Packet, message_chat, reply, payload_text}
use cpp_socket_chat.Server.Clients
use cpp_socket_chat.Server.Clients.{ClientInfo}
use cpp_socket_chat.Server.Room.{Room}
use cpp_socket_chat.Server.Rooms.Membership.{is_member, member_of}
use cpp_socket_chat.Server.State.{Server, ◌>>=◌, broadcast_packet_for_room}
use cpp_socket_chat.Server.State.Broadcast.{
  others, addressed, posted, AllTo, broadcast-posted, broadcast_nowhere, addressed-members,
}
use cpp_socket_chat.Server.Handlers.Message.{chat_json, message_body, message_from, handle_message}

-- A chat message from an authenticated client, to another member of that client's room.
abbrev pub ChatFor : Server → ℕ → ℕ → Packet → Type 0
ChatFor s fd g p =
    (sender : ClientInfo) × (Clients.get_client fd s.client_manager ≡ some sender)
    × (sender.is_authenticated ≡ true)
    × (p.type ≡ message_chat)
    × (nat_beq g fd ≡ false)
    × (is_member g sender.room_code s.room_manager ≡ true)

-- Some packets were sent, each such a chat message, and nothing else was changed.
abbrev pub OnlyChats : Server → ℕ → Server → Type 0
OnlyChats s fd s' = (ps : List (ℕ × Packet)) × (s' ≡ posted ps s) × AllTo (ChatFor s fd) ps

no_chats : (s : Server) (fd : ℕ) → OnlyChats s fd s
no_chats s fd = ([], rw append-nil, tt)

module _ (json : Json) (timestamp : Bytes) (fd : ℕ) (packet : Packet) (s : Server)
    (sender : ClientInfo) where
  body-broadcast :
      (request message : json.Value) (text : Bytes)
      → json.parse (payload_text packet) ≡ ok request
      → json.index request (bytes "message") ≡ ok message
      → json.dump (chat_json json fd sender message timestamp) ≡ ok text
      → length text ≤ 1024
      → (message_body json timestamp fd sender packet s).1
        ≡ broadcast_packet_for_room (reply message_chat text) sender.room_code (pos fd) s
  unfolding message_body ◌>>=◌
  body-broadcast request message text p m d fits = rw (p, m, d, le→not-ltb 1024 (length text) fits)

  -- An authenticated client's message, from a room, that is valid JSON and not too long once it is
  -- dressed, goes to each other member of the room, once and in the order of their entry; nothing
  -- else changes.
  pub handle_message-posted :
      (request message : json.Value) (text : Bytes) (room : Room)
      → Clients.get_client fd s.client_manager ≡ some sender
      → sender.is_authenticated ≡ true
      → is_empty sender.room_code ≡ false
      → json.parse (payload_text packet) ≡ ok request
      → json.index request (bytes "message") ≡ ok message
      → json.dump (chat_json json fd sender message timestamp) ≡ ok text
      → length text ≤ 1024
      → lookup sender.room_code s.room_manager.rooms ≡ some room
      → handle_message json timestamp fd packet s
        ≡ posted (addressed (reply message_chat text) (others fd room.clients)) s
  unfolding handle_message message_from
  handle_message-posted request message text room c a h p m d fits r = ground (
    arith,
    body-broadcast request message text p m d fits,
    broadcast-posted (reply message_chat text) sender.room_code fd s room r,
  )

  broadcast-OnlyChats :
      (text : Bytes)
      → Clients.get_client fd s.client_manager ≡ some sender
      → sender.is_authenticated ≡ true
      → OnlyChats s fd
          (broadcast_packet_for_room (reply message_chat text) sender.room_code (pos fd) s)
  unfolding reply
  broadcast-OnlyChats text c a =
      elim (Option-cases (lookup sender.room_code s.room_manager.rooms)) [
        | inl e ↦
            rw (broadcast_nowhere (reply message_chat text) sender.room_code fd s e) (no_chats s fd)
        | inr (room, e) ↦ (
          addressed (reply message_chat text) (others fd room.clients),
          broadcast-posted (reply message_chat text) sender.room_code fd s room e,
          addressed-members (ChatFor s fd) fd (reply message_chat text) room.clients
              (λ g inside other. (sender, c, a, refl, other, ap (member_of g) e ∙ inside)),
        )
      ]

  body-OnlyChats :
      Clients.get_client fd s.client_manager ≡ some sender
      → sender.is_authenticated ≡ true
      → OnlyChats s fd (message_body json timestamp fd sender packet s).1
  unfolding message_body ◌>>=◌
  body-OnlyChats c a = elim (Result-cases (json.parse (payload_text packet))) [
    | inr (x, e) ↦ rw e (no_chats s fd)
    | inl (request, p) ↦ elim (Result-cases (json.index request (bytes "message"))) [
      | inr (x, e) ↦ rw (p, e) (no_chats s fd)
      | inl (message, m) ↦
          elim (Result-cases (json.dump (chat_json json fd sender message timestamp))) [
            | inr (x, e) ↦ rw (p, m, e) (no_chats s fd)
            | inl (text, d) ↦ elim (Bool-cases (ltb 1024 (length text))) [
              | inl long ↦ rw (p, m, d, long) (no_chats s fd)
              | inr fits ↦ rw (p, m, d, fits) (broadcast-OnlyChats text c a)
            ]
          ]
    ]
  ]

module _ (json : Json) (timestamp : Bytes) (fd : ℕ) (packet : Packet) (s : Server) where
  known-OnlyChats :
      (sender : ClientInfo) (known : Bool)
      → Clients.get_client fd s.client_manager ≡ some sender
      → sender.is_authenticated ≡ known
      → OnlyChats s fd (
          if not known
          then s
          else if is_empty sender.room_code
          then s
          else (message_body json timestamp fd sender packet s).1)
  known-OnlyChats sender false c a = no_chats s fd
  known-OnlyChats sender true c a = elim (Bool-cases (is_empty sender.room_code)) [
    | inl roomless ↦ rw roomless (no_chats s fd)
    | inr housed ↦ rw housed (body-OnlyChats json timestamp fd packet s sender c a)
  ]

  from-OnlyChats :
      (sender : Option ClientInfo)
      → Clients.get_client fd s.client_manager ≡ sender
      → OnlyChats s fd (message_from json timestamp fd sender packet s)
  unfolding message_from
  from-OnlyChats none c = no_chats s fd
  from-OnlyChats (some sender) c = known-OnlyChats sender sender.is_authenticated c refl

  -- Whatever the packet, handling a message changes neither manager, and sends nothing but chat
  -- messages from an authenticated client to other members of that client's room.
  pub handle_message-OnlyChats : OnlyChats s fd (handle_message json timestamp fd packet s)
  unfolding handle_message
  handle_message-OnlyChats = from-OnlyChats (Clients.get_client fd s.client_manager) refl
