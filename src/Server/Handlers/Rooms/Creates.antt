-- ===== src/Server/Handlers/Rooms/Creates.antt =====
-- What a request to create a room does to the two managers.
use cpp_socket_chat.Prelude.{
  ℕ, ℤ, ◌∷◌, bytes_eq, nat_eq, ◌<◌, not, Bool, true, false, none, some, Option, [], Bytes, ◌≡◌,
  refl, sym, ap, ◌∙◌, ◌⊎◌, inl, inr, arith, length, is_empty, subst,
}
use cpp_socket_chat.Json.{Json}
use cpp_socket_chat.Map.{lookup, insert}
use cpp_socket_chat.Protocol.{Packet, room_create_ok, clipped_reply}
use cpp_socket_chat.Server.Clients
use cpp_socket_chat.Server.Clients.{ClientInfo, ClientManager}
use cpp_socket_chat.Server.Room.{new_room}
use cpp_socket_chat.Server.Rooms
use cpp_socket_chat.Server.Rooms.{RoomManager}
use cpp_socket_chat.Server.Rooms.Codes.{add_room-Adds}
use cpp_socket_chat.Server.Rooms.Membership.{can_join, join_room-can_join}
use cpp_socket_chat.Server.State
use cpp_socket_chat.Server.State.{Server, Act, pure, lift, ◌>>=◌, ◌>>◌}
use cpp_socket_chat.Server.State.Leads.{
  Managers, managers, Leads, Leads-pure, Leads-if, Leads-lift, Leads-gets,
}
use cpp_socket_chat.Server.Handlers.{room_code_json}
use cpp_socket_chat.Server.Handlers.Leads.{Leads-refuse, conclude-managers}
use cpp_socket_chat.Server.Handlers.Rooms.{
  enter_if, enter_created, created, create_body, handle_create_room,
}

-- The managers when the room has let the client in, or has not.
abbrev pub entered_as : Bool → ℕ → Bytes → Managers → Managers
entered_as true fd code u = record {
  clients = Clients.set_room_code fd code u.clients;
  rooms = (Rooms.join_room fd code u.rooms).1;
}
entered_as false fd code u = record u { rooms = (Rooms.join_room fd code u.rooms).1 }

-- A known client is put into the new room, if the room's limit lets it in.
abbrev pub entered_by : Option ClientInfo → ℕ → Bytes → Managers → Managers
entered_by none fd code u = u
entered_by (some c) fd code u = entered_as (can_join fd code u.rooms) fd code u

-- Nothing is changed but the numbers that were drawn; or there were fewer than a hundred rooms, an empty
-- one is added under a code of eight characters that was not in use, and the client is put into it.
abbrev pub Creates : ℕ → Managers → Managers → Type 0
Creates fd v w =
    ((w.clients ≡ v.clients) × (w.rooms.rooms ≡ v.rooms.rooms))
    ⊎ ((name : Bytes) × (max_users : ℤ) × (code : Bytes) × (added : RoomManager) × (length code ≡ 8)
        × (lookup code v.rooms.rooms ≡ none)
        × (length v.rooms.rooms < 100)
        × (added.rooms ≡ insert code (new_room code name max_users) v.rooms.rooms)
        × (w
            ≡ entered_by (Clients.get_client fd v.clients) fd code
                (record { clients = v.clients; rooms = added })))

pub eight-given : (code : Bytes) → length code ≡ 8 → is_empty code ≡ false
eight-given [] h = absurd (omega (arith, h))
eight-given (b ∷ bs) h = refl

module _ (json : Json) (fd : ℕ) (code : Bytes) where
  -- The answer, behind the entry.
  abbrev granting : Act (Option Packet)
  granting =
      lift (room_code_json json code) >>= λ text. pure (some (clipped_reply room_create_ok text))

  module _ (R : Managers → Type 0) where
    granting-Leads : (u : Managers) → R u → Leads u R granting
    granting-Leads u r = Leads-lift _ _ r λ text. Leads-pure _ r

    entered_as-R :
        (u : Managers) (s : Server) (b : Bool)
        → managers s ≡ u
        → R (entered_as b fd code u)
        → R (managers ((enter_if fd code b >> granting) (State.join_room fd code s).1).1)
    unfolding enter_if ◌>>=◌ State.join_room State.set_room_code
    entered_as-R u s true e r =
        (granting-Leads (entered_as true fd code u) r).at _ (ap (entered_as true fd code) e)
    entered_as-R u s false e r =
        (granting-Leads (entered_as false fd code u) r).at _ (ap (entered_as false fd code) e)

    entered_by-Leads :
        (client : Option ClientInfo) (u : Managers)
        → R (entered_by client fd code u)
        → Leads u R (enter_created fd code client >> granting)
    unfolding enter_created ◌>>=◌ State.join_room
    entered_by-Leads none u r = granting-Leads u r
    entered_by-Leads (some c) u r = record {
      at = λ s e. entered_as-R u s (Rooms.join_room fd code s.room_manager).0 e (
          subst (λ b. R (entered_as b fd code u))
            (sym (
              join_room-can_join fd code s.room_manager
              ∙ ap (λ (m : Managers). can_join fd code m.rooms) e))
            r);
    }

    pub created-Leads :
        (u : Managers)
        → is_empty code ≡ false
        → R (entered_by (Clients.get_client fd u.clients) fd code u)
        → Leads u R (created json fd code)
    unfolding created State.get_client
    created-Leads u given r = rw given (
        Leads-gets (λ m. Clients.get_client fd m.clients) _
          (entered_by-Leads (Clients.get_client fd u.clients) u r))

  created-managers : (s : Server) → code ≡ [] → managers (created json fd code s).1 ≡ managers s
  unfolding created pure
  created-managers s e = rw e refl

module _ (json : Json) (dis : ℕ → ℕ) (fd : ℕ) where
  added-Creates :
      (name : Bytes) (max_users : ℤ) (s : Server)
      → Creates fd
          (managers s)
          (managers ((State.add_room dis name max_users >>= created json fd) s).1)
  unfolding ◌>>=◌ State.add_room
  added-Creates name max_users s =
      let (code, added) = Rooms.add_room dis name max_users s.room_manager in
      let after = record s { room_manager = added } in
      elim (add_room-Adds dis name max_users s.room_manager) [
        | inl (nothing, same) ↦
            let e = created-managers json fd code after nothing in
            inl (ap (λ (u : Managers). u.clients) e, ap (λ (u : Managers). u.rooms.rooms) e ∙ same)
        | inr (eight, fresh, space, ins) ↦
            (created-Leads json fd code (Creates fd (managers s)) (managers after)
                (eight-given code eight)
                (inr (name, max_users, code, added, eight, fresh, space, ins, refl))).at
              after refl
      ]

  create_body-Leads :
      (packet : Packet) (v : Managers) → Leads v (Creates fd v) (create_body json dis fd packet)
  unfolding create_body
  create_body-Leads packet v = Leads-lift _ _ unchanged λ request.
      Leads-lift _ _ unchanged λ has_name.
        Leads-if (not has_name) _ _ (Leads-refuse fd _ _ unchanged) (
          Leads-lift _ _ unchanged λ has_limit.
            Leads-if (not has_limit) _ _ (Leads-refuse fd _ _ unchanged) (
              Leads-lift _ _ unchanged λ name. Leads-lift _ _ unchanged λ max_users. record {
                at = λ s e.
                    subst
                      (λ w.
                        Creates fd w
                          (managers ((State.add_room dis name max_users >>= created json fd) s).1))
                      e (added-Creates name max_users s);
              }))
    where
      unchanged : Creates fd v v
      unchanged = inl (refl, refl)

  -- A request to create a room changes nothing but this: if there are fewer than a hundred rooms, an
  -- empty room is added under a code of eight characters that was not in use; the client, if it is known
  -- and the new room can be joined, is made a member of it and has its room code.
  pub handle_create_room-Creates :
      (packet : Packet) (s : Server)
      → Creates fd (managers s) (managers (handle_create_room json dis fd packet s))
  unfolding handle_create_room
  handle_create_room-Creates packet s =
      subst (Creates fd (managers s))
        (sym (conclude-managers fd _ (create_body json dis fd packet s)))
        ((create_body-Leads packet (managers s)).at s refl)
