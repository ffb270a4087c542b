-- ===== src/Server/Handlers/Rooms/Joins.antt =====
-- What a request to join a room does to the two managers.
use cpp_socket_chat.Prelude.{
  ℕ, pos, not, ◌&&◌, Bool, true, false, none, some, Option, Bytes, bytes, ◌≡◌, refl, sym, ap, ◌∙◌,
  inl, inr, Bool-cases, is_empty, subst, if◌then◌else◌, bytes_eq, nat_eq,
}
use cpp_socket_chat.Json.{Json, Result, ok, throw}
use cpp_socket_chat.Map.{UniqueKeys}
use cpp_socket_chat.Protocol.{
  Packet, room_join_fail, room_join_ok, room_user_join, clipped_reply, payload_text,
}
use cpp_socket_chat.Server.Clients
use cpp_socket_chat.Server.Clients.{ClientInfo}
use cpp_socket_chat.Server.Rooms
use cpp_socket_chat.Server.Rooms.Membership.{can_join, join_room-can_join, join_room-refused}
use cpp_socket_chat.Server.State
use cpp_socket_chat.Server.State.{
  Server, Act, pure, lift, modify, ◌>>=◌, ◌>>◌, broadcast_packet_for_room,
}
use cpp_socket_chat.Server.State.Leads.{
  Managers, managers, Leads, Leads-pure, Leads-lift, Leads-known, Leads-gets, Leads-step,
  broadcast-managers,
}
use cpp_socket_chat.Server.Handlers.{refuse, room_code_json, user_json, has_field, string_field}
use cpp_socket_chat.Server.Handlers.Leads.{Leads-refuse, conclude-managers}
use cpp_socket_chat.Server.Handlers.Rooms.{admitted, join_as, join_body, handle_join_room}

abbrev returned : {A : Type 0} → Result A → Option A
returned (ok a) = some a
returned (throw e) = none

-- The room code that a packet asks for: its payload is an object with a text under "roomCode".
module _ (json : Json) where
  abbrev code_in : json.Value → Result Bool → Option Bytes
  code_in request (ok true) = returned (string_field json request (bytes "roomCode"))
  code_in request _ = none

  abbrev code_of : Result json.Value → Option Bytes
  code_of (ok request) = code_in request (has_field json json.is_string request (bytes "roomCode"))
  code_of (throw e) = none

  abbrev pub requested_code : Packet → Option Bytes
  requested_code packet = code_of (json.parse (payload_text packet))

-- The managers when the client was let in.
abbrev pub entered : ℕ → Bytes → Managers → Managers
entered fd code v = record {
  clients = Clients.set_room_code fd code v.clients;
  rooms = (Rooms.join_room fd code v.rooms).1;
}

-- The managers behind the request of a client for a room code.
abbrev pub joined_managers : ℕ → Option Bytes → Option ClientInfo → Managers → Managers
joined_managers fd none client v = v
joined_managers fd (some code) none v = v
joined_managers fd (some code) (some c) v =
    if is_empty c.room_code && can_join fd code v.rooms then entered fd code v else v

module _ (json : Json) (fd : ℕ) (v : Managers) (unique : UniqueKeys v.rooms.rooms) where
  welcome-Leads :
      (code : Bytes) (c : ClientInfo) (w : Managers)
      → Leads w
          (λ u. u ≡ w)
          (lift (room_code_json json code) >>= λ text. lift (user_json json fd c) >>= λ user.
            modify (broadcast_packet_for_room (clipped_reply room_user_join user) code (pos fd))
            >> pure (some (clipped_reply room_join_ok text)))
  welcome-Leads code c w = Leads-lift _ _ refl λ text.
      Leads-lift _ _ refl
        λ user. Leads-step _ _ (λ s h. broadcast-managers _ _ _ s ∙ h) (Leads-pure _ refl)

  admitted-managers :
      (code : Bytes) (c : ClientInfo) (s : Server) (joined : Bool)
      → managers s ≡ v
      → can_join fd code v.rooms ≡ joined
      → managers (admitted json fd code c joined (State.join_room fd code s).1).1
        ≡ (if joined then entered fd code v else v)
  unfolding admitted ◌>>=◌ State.set_room_code State.join_room
  admitted-managers code c s true h can =
      (welcome-Leads code c (entered fd code v)).at
        (State.set_room_code fd code (State.join_room fd code s).1).1 (ap (entered fd code) h)
  admitted-managers code c s false h can =
      ap (λ (u : Managers). record u { rooms = (Rooms.join_room fd code u.rooms).1 }) h
      ∙ ap (λ rooms. record v { rooms = rooms }) (join_room-refused fd code v.rooms unique can)

  let_in-Leads :
      (code : Bytes) (c : ClientInfo)
      → Leads v
          (λ u. u ≡ (if can_join fd code v.rooms then entered fd code v else v))
          (State.join_room fd code >>= admitted json fd code c)
  unfolding ◌>>=◌ State.join_room
  let_in-Leads code c = record {
    at = λ s h.
        let can =
          join_room-can_join fd code s.room_manager
          ∙ ap (λ (u : Managers). can_join fd code u.rooms) h in
        subst
          (λ b.
            managers
              (admitted json fd code c (Rooms.join_room fd code s.room_manager).0
                (State.join_room fd code s).1).1
            ≡ (if b then entered fd code v else v))
          can (admitted-managers code c s (Rooms.join_room fd code s.room_manager).0 h (sym can));
  }

  join_as-Leads :
      (code : Bytes) (client : Option ClientInfo)
      → Leads v (λ u. u ≡ joined_managers fd (some code) client v) (join_as json fd code client)
  unfolding join_as
  join_as-Leads code none = Leads-refuse fd _ _ refl
  join_as-Leads code (some c) = elim (Bool-cases (is_empty c.room_code)) [
    | inl roomless ↦ rw roomless (let_in-Leads code c)
    | inr housed ↦ rw housed (Leads-refuse fd _ _ refl)
  ]

  abbrev Expected : Option Bytes → Managers → Type 0
  Expected code u = u ≡ joined_managers fd code (Clients.get_client fd v.clients) v

  entry-Leads :
      (code : Result Bytes)
      → Leads v
          (Expected (returned code))
          (lift code >>= λ c. State.get_client fd >>= join_as json fd c)
  unfolding State.get_client
  entry-Leads code =
      Leads-known code _ (λ x e. rw e refl)
        λ c e. rw e (
          Leads-gets (λ u. Clients.get_client fd u.clients) (join_as json fd c)
            (join_as-Leads c (Clients.get_client fd v.clients)))

  tested-Leads :
      (request : json.Value) (has_code : Result Bool)
      → Leads v (Expected (code_in json request has_code)) (
          lift has_code >>= λ valid.
          if not valid
          then refuse fd room_join_fail (bytes "Invalid JSON format: missing 'roomCode' field.")
          else (lift (string_field json request (bytes "roomCode")) >>= λ c.
              State.get_client fd >>= join_as json fd c))
  tested-Leads request has_code =
      Leads-known has_code _ (λ x e. rw e refl)
        λ valid e. elim (Bool-cases valid) [
          | inl given ↦ rw (e, given) (entry-Leads (string_field json request (bytes "roomCode")))
          | inr missing ↦ rw (e, missing) (Leads-refuse fd _ _ refl)
        ]

  join_body-Leads :
      (packet : Packet) → Leads v (Expected (requested_code json packet)) (join_body json fd packet)
  unfolding join_body
  join_body-Leads packet =
      Leads-known (json.parse (payload_text packet)) _ (λ x e. rw e refl)
        λ request e. rw e (tested-Leads request _)

module _ (json : Json) (fd : ℕ) (packet : Packet) (s : Server) where
  -- When no two rooms have one code: if the packet asks for a room code, the client is known and is in no
  -- room, and the room with this code can be joined, then a request to join makes the client a member of
  -- that room and gives it the room code. Otherwise it changes nothing in either manager.
  pub handle_join_room-managers :
      UniqueKeys s.room_manager.rooms
      → managers (handle_join_room json fd packet s)
        ≡ joined_managers fd
            (requested_code json packet)
            (Clients.get_client fd s.client_manager)
            (managers s)
  unfolding handle_join_room
  handle_join_room-managers unique =
      conclude-managers fd _ (join_body json fd packet s)
      ∙ (join_body-Leads json fd (managers s) unique packet).at s refl
