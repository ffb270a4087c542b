-- ===== src/Server/Threads/Joined.antt =====
-- Two requests of one client to join two rooms, in two threads.
use cpp_socket_chat.Prelude.{
  ℕ, ◌≡◌, refl, ◌∙◌, Bool, true, false, Option, some, List, [], ◌∷◌, Bytes, bytes, bytes_eq, nat_eq,
  ==_refl, is_empty, if◌then◌else◌,
}
use cpp_socket_chat.Json.{Json, ok}
use cpp_socket_chat.Protocol.{Packet, payload_text, join_room, room_join_fail}
use cpp_socket_chat.Server.Clients
use cpp_socket_chat.Server.Clients.{ClientInfo}
use cpp_socket_chat.Server.Rooms
use cpp_socket_chat.Server.Rooms.{RoomManager}
use cpp_socket_chat.Server.Rooms.Membership.{is_member, can_join, is_member-join_room}
use cpp_socket_chat.Server.State.{Server}
use cpp_socket_chat.Server.Handlers.{has_field, string_field, json_failure}
use cpp_socket_chat.Server.Threads
use cpp_socket_chat.Server.Threads.{Task, finished, call, turn, interleave, ◌>>=◌}
use cpp_socket_chat.Server.Threads.Handlers as Steps

stays-true : (b x : Bool) → x ≡ true → (if b then true else x) ≡ true
stays-true true x h = refl
stays-true false x h = h

module _ (json : Json) where
  -- A packet is the request to join the room with this code.
  pub record Asks (packet : Packet) (code : Bytes) : Type 0 where
    pub request : json.Value
    pub parsed : json.parse (payload_text packet) ≡ ok request
    pub has : has_field json json.is_string request (bytes "roomCode") ≡ ok true
    pub found : string_field json request (bytes "roomCode") ≡ ok code

  -- What a thread does with the request, from the result of getClient.
  abbrev joining : ℕ → Bytes → Option ClientInfo → Task
  joining fd code client =
      Steps.join_as json fd code client (Threads.conclude_with fd)
        λ e. Threads.send fd (json_failure room_join_fail e) (λ u. finished) λ x. finished

  asking-call :
      (dis : ℕ → ℕ) (timestamp : Bytes) (fd : ℕ) (packet : Packet) (code : Bytes)
      → Asks packet code
      → Steps.task_of json join_room dis timestamp fd packet
        ≡ call (λ s. s) (λ s. joining fd code (Clients.get_client fd s.client_manager))
  unfolding Steps.task_of Threads.conclude Steps.join_body ◌>>=◌ Threads.lift Threads.get_client
      Threads.reads
  asking-call dis timestamp fd packet code u = rw (u.parsed, u.has, u.found) refl

  -- The server behind joinRoom.
  abbrev entered : ℕ → Bytes → Server → Server
  entered fd code s = record s { room_manager = (Rooms.join_room fd code s.room_manager).1 }

  joining-call :
      (fd : ℕ) (code : Bytes) (c : ClientInfo)
      → is_empty c.room_code ≡ true
      → (next : Server → Task) × (joining fd code (some c) ≡ call (entered fd code) next)
  unfolding Steps.join_as ◌>>=◌ Threads.enter_room
  joining-call fd code c outside = rw outside (_, refl)

  -- The two threads.
  unfoldable pub both : (dis : ℕ → ℕ) → Bytes → ℕ → Packet → Packet → List Task
  both dis timestamp fd p q =
      Steps.task_of json join_room dis timestamp fd p
      ∷ (Steps.task_of json join_room dis timestamp fd q ∷ [])

  entered-both :
      (dis : ℕ → ℕ) (timestamp : Bytes) (fd : ℕ) (p q : Packet) (a b : Bytes) (c : ClientInfo)
      (s : Server)
      → Asks p a
      → Asks q b
      → Clients.get_client fd s.client_manager ≡ some c
      → is_empty c.room_code ≡ true
      → (interleave (0 ∷ (1 ∷ (0 ∷ (1 ∷ [])))) (both dis timestamp fd p q) s).1
        ≡ entered fd b (entered fd a s)
  unfolding interleave turn both
  entered-both dis timestamp fd p q a b c s u v known outside =
      let (next_a, called_a) = joining-call fd a c outside in
      let (next_b, called_b) = joining-call fd b c outside in
      rw
        (
          asking-call dis timestamp fd p a u,
          asking-call dis timestamp fd q b v,
          known,
          called_a,
          called_b,
        )
        refl

  -- Each of two threads looks up the client, which is in no room, before either of them joins a room
  -- that has a place for it: then the client is a member of both rooms.
  pub joins_both :
      (dis : ℕ → ℕ) (timestamp : Bytes) (fd : ℕ) (p q : Packet) (a b : Bytes) (c : ClientInfo)
      (s : Server)
      → Asks p a
      → Asks q b
      → Clients.get_client fd s.client_manager ≡ some c
      → is_empty c.room_code ≡ true
      → can_join fd a s.room_manager ≡ true
      → can_join fd b (Rooms.join_room fd a s.room_manager).1 ≡ true
      → (is_member fd a
            (interleave (0 ∷ (1 ∷ (0 ∷ (1 ∷ [])))) (both dis timestamp fd p q) s).1.room_manager
          ≡ true)
        × (is_member fd b
              (interleave (0 ∷ (1 ∷ (0 ∷ (1 ∷ [])))) (both dis timestamp fd p q) s).1.room_manager
            ≡ true)
  joins_both dis timestamp fd p q a b c s u v known outside open_a open_b =
      rw (entered-both dis timestamp fd p q a b c s u v known outside) (
        is_member-join_room fd b (entered fd a s).room_manager fd a
            ∙ stays-true _ _ (
                is_member-join_room fd a s.room_manager fd a
                ∙ rw (open_a, ==_refl a, ==_refl fd) refl),
        is_member-join_room fd b (entered fd a s).room_manager fd b
            ∙ rw (open_b, ==_refl b, ==_refl fd) refl,
      )
