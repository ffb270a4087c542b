-- ===== src/Server/Handlers/Rooms/Effect.antt =====
-- What a request to leave a room does to the two managers.
use cpp_socket_chat.Prelude.{
  ℕ, false, none, some, Option, [], ◌≡◌, refl, sym, ap, ◌∙◌, ◌⊎◌, inl, inr, bytes_eq, nat_eq,
  Bool-cases, is_empty, subst,
}
use cpp_socket_chat.Json.{Json}
use cpp_socket_chat.Protocol.{Packet, room_exit_ok, empty_reply}
use cpp_socket_chat.Server.Clients
use cpp_socket_chat.Server.Clients.{ClientInfo}
use cpp_socket_chat.Server.Rooms
use cpp_socket_chat.Server.State
use cpp_socket_chat.Server.State.{
  Server, Act, pure, lift, gets, modify, ◌>>=◌, ◌>>◌, broadcast_packet_for_room,
}
use cpp_socket_chat.Server.State.Leads.{
  Managers, managers, Leads, Leads-lift, Leads-gets, Leads-step, broadcast-managers,
}
use cpp_socket_chat.Server.Handlers.Leads.{Leads-refuse, conclude-managers}
use cpp_socket_chat.Server.Handlers.Rooms.{exit_as, exit_body, handle_exit_room}

-- Nothing is changed; or the client was in a room, has left it, and has no room code.
abbrev pub Exits : ℕ → Managers → Managers → Type 0
Exits fd v w =
    (w ≡ v)
    ⊎ ((c : ClientInfo) × (Clients.get_client fd v.clients ≡ some c)
        × (is_empty c.room_code ≡ false)
        × (w ≡ record {
          clients = Clients.set_room_code fd [] v.clients;
          rooms = Rooms.leave_room fd c.room_code v.rooms;
        }))

module _ (json : Json) (fd : ℕ) (v : Managers) where
  leaves-Leads :
      (c : ClientInfo)
      → Clients.get_client fd v.clients ≡ some c
      → is_empty c.room_code ≡ false
      → Leads v (Exits fd v) (
          State.leave_room fd c.room_code
          >> (State.set_room_code fd [] >> pure (some (empty_reply room_exit_ok))))
  unfolding ◌>>=◌ State.leave_room State.set_room_code
  leaves-Leads c e housed = record {
    at = λ s h. inr (
      c,
      e,
      housed,
      ap
          (λ (u : Managers). record {
            clients = Clients.set_room_code fd [] u.clients;
            rooms = Rooms.leave_room fd c.room_code u.rooms;
          })
          h,
    );
  }

  exit_as-Leads :
      (client : Option ClientInfo)
      → Clients.get_client fd v.clients ≡ client
      → Leads v (Exits fd v) (exit_as json fd client)
  unfolding exit_as
  exit_as-Leads none e = Leads-refuse fd _ _ (inl refl)
  exit_as-Leads (some c) e = elim (Bool-cases (is_empty c.room_code)) [
    | inl roomless ↦ rw roomless (Leads-refuse fd _ _ (inl refl))
    | inr housed ↦ rw housed (
        Leads-lift _ _ (inl refl)
          λ user. Leads-step _ _ (λ s h. broadcast-managers _ _ _ s ∙ h) (leaves-Leads c e housed))
  ]

  exit_body-Leads : Leads v (Exits fd v) (exit_body json fd)
  unfolding exit_body State.get_client
  exit_body-Leads =
      Leads-gets (λ u. Clients.get_client fd u.clients) _
        (exit_as-Leads (Clients.get_client fd v.clients) refl)

module _ (json : Json) (fd : ℕ) (packet : Packet) (s : Server) where
  -- A request to leave a room changes nothing but this: the client, if it was in a room, is taken out of
  -- that room, and has no room code.
  pub handle_exit_room-Exits : Exits fd (managers s) (managers (handle_exit_room json fd packet s))
  unfolding handle_exit_room
  handle_exit_room-Exits =
      subst (Exits fd (managers s)) (sym (conclude-managers fd _ (exit_body json fd s)))
        ((exit_body-Leads json fd (managers s)).at s refl)
