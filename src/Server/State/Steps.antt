-- ===== src/Server/State/Steps.antt =====
-- The steps of the handlers on both managers keep the server's invariant.
use cpp_socket_chat.Prelude.{
  ℕ, ℤ, true, false, [], ◌≡◌, ap, ◌∙◌, inl, inr, arith, Bytes, is_empty, nat_eq, bytes_eq, nat_beq,
  nat_beq_iff, bytes_beq_iff,
}
use cpp_socket_chat.Map.{lookup-adjust_cases}
use cpp_socket_chat.Server.Clients
use cpp_socket_chat.Server.Clients.{ClientInfo, ClientManager}
use cpp_socket_chat.Server.Clients.Names
use cpp_socket_chat.Server.Clients.Names.{Connected, set_nickname-room_code}
use cpp_socket_chat.Server.Rooms
use cpp_socket_chat.Server.Rooms.Invariant
use cpp_socket_chat.Server.Rooms.Membership.{
  is_member, can_join, is_member-join_room, is_member-leave_room, is_member-add_room,
}
use cpp_socket_chat.Server.State
use cpp_socket_chat.Server.State.{Server}
use cpp_socket_chat.Server.State.Invariant.{Inv}

pub set_nickname-Inv :
    (fd : ℕ) (n : Bytes) (s : Server)
    → Clients.is_nickname_taken n s.client_manager ≡ false
    → Inv s
    → Inv (State.set_nickname fd n s).1
unfolding State.set_nickname
set_nickname-Inv fd n s free i = record {
  clients = Names.set_nickname-IsWf fd n s.client_manager free i.clients;
  rooms = i.rooms;
  housed = λ j d h full.
      let (c, before, same) = set_nickname-room_code fd n s.client_manager j d h in
      rw same (i.housed j c before (rw same at full));
  fits = i.fits;
}

pub add_room-Inv :
    (dis : ℕ → ℕ) (name : Bytes) (max_users : ℤ) (s : Server)
    → Inv s
    → Inv (State.add_room dis name max_users s).1
unfolding State.add_room
add_room-Inv dis name max_users s i = record {
  clients = i.clients;
  rooms = Invariant.add_room-IsWf dis name max_users s.room_manager i.rooms;
  housed = λ j d h full.
      is_member-add_room dis name max_users s.room_manager j d.room_code ∙ i.housed j d h full;
  fits = i.fits;
}

-- A client is moved to another room code: where the others were members they still are, and the
-- client is a member of the new one, if it is no empty text.
moved-Inv :
    (fd : ℕ) (code : Bytes) (s : Server) (rooms : Rooms.RoomManager)
    → Inv s
    → Invariant.IsWf rooms
    → ((g : ℕ) (j : Bytes)
        → nat_beq fd g ≡ false
        → is_member g j s.room_manager ≡ true
        → is_member g j rooms ≡ true)
    → (is_empty code ≡ false → is_member fd code rooms ≡ true)
    → Inv (record s {
      client_manager = Clients.set_room_code fd code s.client_manager;
      room_manager = rooms;
    })
unfolding Clients.set_room_code
moved-Inv fd code s rooms i w others self = record {
  clients = Names.set_room_code-IsWf fd code s.client_manager i.clients;
  rooms = w;
  housed = λ j d h full. elim (lookup-adjust_cases fd j _ s.client_manager.clients d h) [
    | inl (v, same, before, x) ↦
        let moved = ap (λ (y : ClientInfo). y.room_code) x in
        rw (← same, moved) (self (rw moved at full))
    | inr (other, before) ↦ others j d.room_code other (i.housed j d before full)
  ];
  fits = i.fits;
}

pub join_room-Inv : (fd : ℕ) (code : Bytes) (s : Server) → Inv s → Inv (State.join_room fd code s).1
unfolding State.join_room
join_room-Inv fd code s i = record {
  clients = i.clients;
  rooms = Invariant.join_room-IsWf fd code s.room_manager i.rooms;
  housed = λ j d h full.
      ground (arith, is_member-join_room fd code s.room_manager j d.room_code, i.housed j d h full);
  fits = i.fits;
}

-- A client who was let in is given the room's code.
pub entered-Inv :
    (fd : ℕ) (code : Bytes) (s : Server)
    → can_join fd code s.room_manager ≡ true
    → Inv s
    → Inv (State.set_room_code fd code (State.join_room fd code s).1).1
unfolding State.join_room State.set_room_code
entered-Inv fd code s space i =
    moved-Inv fd code s (Rooms.join_room fd code s.room_manager).1 i
      (Invariant.join_room-IsWf fd code s.room_manager i.rooms)
      (λ g j other before. ground (arith, is_member-join_room fd code s.room_manager g j))
      (λ full. ground (
        arith,
        is_member-join_room fd code s.room_manager fd code,
        bytes_beq_iff code code,
        nat_beq_iff fd fd,
      ))

-- A client who leaves a room is given no code.
pub left-Inv :
    (fd : ℕ) (code : Bytes) (s : Server)
    → Inv s
    → Inv (State.set_room_code fd [] (State.leave_room fd code s).1).1
unfolding State.leave_room State.set_room_code
left-Inv fd code s i =
    moved-Inv fd [] s (Rooms.leave_room fd code s.room_manager) i
      (Invariant.leave_room-IsWf fd code s.room_manager i.rooms)
      (λ g j other before. ground (arith, is_member-leave_room fd code s.room_manager g j i.rooms))
      (λ full. cc)
