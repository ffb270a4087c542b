-- ===== src/Server/Handlers/Rooms/Creator.antt =====
-- The creator of a room who is in another room already.
use cpp_socket_chat.Prelude.{
  ℕ, ℤ, not, Bool, true, false, Option, none, some, Bytes, ◌≡◌, ◌∙◌, arith, is_empty, nat_eq,
  bytes_eq,
}
use cpp_socket_chat.Json.{Json, JsonError, Result, ok, throw}
use cpp_socket_chat.Protocol.{Packet, PacketType}
use cpp_socket_chat.Server.Clients.{ClientInfo}
use cpp_socket_chat.Server.Rooms.Membership.{is_member, is_member-join_room, is_member-add_room}
use cpp_socket_chat.Server.State
use cpp_socket_chat.Server.State.{Server, Act, pure, ◌>>=◌}
use cpp_socket_chat.Server.State.Ensures.{
  Post, Ensures, Ensures-gets, Ensures-if, Ensures-lift, Ensures-pure, Ensures-bind,
}
use cpp_socket_chat.Server.Handlers.{conclude, refuse}
use cpp_socket_chat.Server.Handlers.Rooms.{
  enter_if, enter_created, created, create_body, handle_create_room,
}

module _ (g : ℕ) (j : Bytes) where
  abbrev Inside : Server → Type 0
  Inside s = is_member g j s.room_manager ≡ true

  abbrev Anything : {A : Type 0} → A → Type 0
  Anything a = Unit {0}

  refuse-Inside :
      (fd : ℕ) (t : PacketType) (reason : Bytes) → Ensures Inside Anything (refuse fd t reason)
  unfolding refuse State.send_packet
  refuse-Inside fd t reason = record { at = λ s h. (h, tt) }

  conclude-Inside :
      (fd : ℕ) (handler : JsonError → Packet) (r : Result (Option Packet) × Server)
      → Post Inside Anything r
      → Inside (conclude fd handler r)
  unfolding conclude State.send_packet
  conclude-Inside fd handler (ok none, s) h = h.0
  conclude-Inside fd handler (ok (some p), s) h = h.0
  conclude-Inside fd handler (throw e, s) h = h

  add_room-Inside :
      (dis : ℕ → ℕ) (name : Bytes) (limit : ℤ)
      → Ensures Inside Anything (State.add_room dis name limit)
  unfolding State.add_room
  add_room-Inside dis name limit = record {
    at = λ s h. (is_member-add_room dis name limit s.room_manager g j ∙ h, tt);
  }

  enter_if-Inside :
      (fd : ℕ) (code : Bytes) (b : Bool) → Ensures Inside Anything (enter_if fd code b)
  unfolding enter_if State.set_room_code pure
  enter_if-Inside fd code true = record { at = λ s h. (h, tt) }
  enter_if-Inside fd code false = record { at = λ s h. (h, tt) }

  join_room-Inside : (fd : ℕ) (code : Bytes) → Ensures Inside Anything (State.join_room fd code)
  unfolding State.join_room
  join_room-Inside fd code = record {
    at = λ s h. (ground (arith, is_member-join_room fd code s.room_manager g j), tt);
  }

  enter_created-Inside :
      (fd : ℕ) (code : Bytes) (c : Option ClientInfo)
      → Ensures Inside Anything (enter_created fd code c)
  unfolding enter_created
  enter_created-Inside fd code none = Ensures-pure tt tt
  enter_created-Inside fd code (some c) =
      Ensures-bind _ _ (join_room-Inside fd code) λ b _. enter_if-Inside fd code b

  created-Inside :
      (json : Json) (fd : ℕ) (code : Bytes) → Ensures Inside Anything (created json fd code)
  unfolding created State.get_client
  created-Inside json fd code =
      Ensures-if (is_empty code) _ _ (λ _. Ensures-pure _ tt)
        λ _. Ensures-gets _ _ λ s i.
          (Ensures-bind _ _ (enter_created-Inside fd code _)
              λ _ _. Ensures-lift _ _ λ text _. Ensures-pure _ tt).at
            s i

  -- Creating a room takes nobody out of a room: a client that is in one is in two behind it.
  pub create_keeps_members :
      (json : Json) (dis : ℕ → ℕ) (fd : ℕ) (packet : Packet) (s : Server)
      → is_member g j s.room_manager ≡ true
      → is_member g j (handle_create_room json dis fd packet s).room_manager ≡ true
  unfolding handle_create_room create_body
  create_keeps_members json dis fd packet s h =
      conclude-Inside fd _ (create_body json dis fd packet s) (body.at s h)
    where
      body : Ensures Inside Anything (create_body json dis fd packet)
      body = Ensures-lift _ _ λ request _. Ensures-lift _ _ λ has_name _.
          Ensures-if (not has_name) _ _ (λ _. refuse-Inside fd _ _)
            λ _. Ensures-lift _ _ λ has_limit _.
              Ensures-if (not has_limit) _ _ (λ _. refuse-Inside fd _ _)
                λ _. Ensures-lift _ _ λ name _. Ensures-lift _ _ λ limit _.
                  Ensures-bind _ _ (add_room-Inside dis name limit)
                    λ code _. created-Inside json fd code
