-- ===== src/Server/Rooms/Membership.antt =====
-- Who is in which room: the abstract view of the room manager, and what each operation makes of it.
use cpp_socket_chat.Prelude.{
  ℕ, ◌≡◌, refl, sym, ap, ◌∙◌, inl, inr, ℤ, Bool, true, false, ◌&&◌, not, Option, none, some, [],
  ◌∷◌, ◌++◌, Bytes, arith, length, to_size_t, leb, Option-cases, ==_iff, ◌==◌, bytes_eq, nat_eq,
  if◌then◌else◌,
}
use cpp_socket_chat.Map.{
  UniqueKeys, adjust_same, lookup, lookup-insert, lookup-erase, lookup-adjust,
}
use cpp_socket_chat.Members.{member, erase_first}
use cpp_socket_chat.Members.Laws.{member-push, member-erase_first, member-none}
use cpp_socket_chat.Server.Room.{
  Room, new_room, accept_new_user, leave_user, get_current_user_count,
}
use cpp_socket_chat.Server.Rooms.{
  RoomManager, add_room, join_room, join_found, joined, leave_room, leave_found,
}
use cpp_socket_chat.Server.Rooms.Codes.{add_room-Adds}
use cpp_socket_chat.Server.Rooms.Invariant.{IsWf}

abbrev pub member_of : ℕ → Option Room → Bool
member_of fd none = false
member_of fd (some r) = member fd r.clients

abbrev pub is_member : ℕ → Bytes → RoomManager → Bool
is_member fd code m = member_of fd (lookup code m.rooms)

-- There is a room under the code, it has space, and the client is not in it.
abbrev pub has_space : ℕ → Option Room → Bool
has_space fd none = false
has_space fd (some r) =
    not (leb (to_size_t r.max_user_cnt) (length r.clients)) && not (member fd r.clients)

abbrev pub can_join : ℕ → Bytes → RoomManager → Bool
can_join fd code m = has_space fd (lookup code m.rooms)

join_found-has_space :
    (fd : ℕ) (code : Bytes) (r : Option Room) (m : RoomManager)
    → (join_found fd code r m).0 ≡ has_space fd r
unfolding join_found joined accept_new_user
join_found-has_space fd code none m = refl
join_found-has_space fd code (some r) m = ground arith

-- Joining succeeds exactly if the room exists, is not full and does not hold the client.
pub join_room-can_join :
    (fd : ℕ) (code : Bytes) (m : RoomManager) → (join_room fd code m).0 ≡ can_join fd code m
unfolding join_room
join_room-can_join fd code m = join_found-has_space fd code (lookup code m.rooms) m

join_found-refused :
    (fd : ℕ) (code : Bytes) (r : Room) (m : RoomManager)
    → UniqueKeys m.rooms
    → lookup code m.rooms ≡ some r
    → has_space fd (some r) ≡ false
    → (join_found fd code (some r) m).1 ≡ m
unfolding join_found joined accept_new_user
join_found-refused fd code r m u e h = ground (arith, adjust_same code r m.rooms u e)

-- A join that is refused changes nothing.
pub join_room-refused :
    (fd : ℕ) (code : Bytes) (m : RoomManager)
    → UniqueKeys m.rooms
    → can_join fd code m ≡ false
    → (join_room fd code m).1 ≡ m
unfolding join_room
join_room-refused fd code m u h = elim (Option-cases (lookup code m.rooms)) [
  | inl e ↦ rw (e, join_found) refl
  | inr (r, e) ↦ rw e (join_found-refused fd code r m u e (ap (has_space fd) (sym e) ∙ h))
]

join_found-member :
    (fd : ℕ) (code : Bytes) (r : Room) (m : RoomManager) (g : ℕ) (j : Bytes)
    → lookup code m.rooms ≡ some r
    → is_member g j (join_found fd code (some r) m).1
      ≡ (if has_space fd (some r) && (code == j && fd == g) then true else is_member g j m)
unfolding join_found joined accept_new_user
join_found-member fd code r m g j e = ground (
  arith,
  ==_iff code j,
  lookup-adjust code j (λ (x : Room). r) m.rooms,
  lookup-adjust code j (λ (x : Room). record r { clients = r.clients ++ fd ∷ [] }) m.rooms,
  member-push fd g r.clients,
)

-- Joining puts the client into the room if the room can be joined, and changes no other membership.
pub is_member-join_room :
    (fd : ℕ) (code : Bytes) (m : RoomManager) (g : ℕ) (j : Bytes)
    → is_member g j (join_room fd code m).1
      ≡ (if can_join fd code m && (code == j && fd == g) then true else is_member g j m)
unfolding join_room
is_member-join_room fd code m g j = elim (Option-cases (lookup code m.rooms)) [
  | inl e ↦ rw (e, join_found) refl
  | inr (r, e) ↦ rw e (join_found-member fd code r m g j e)
]

leave_found-member :
    (fd : ℕ) (code : Bytes) (r : Room) (m : RoomManager) (g : ℕ) (j : Bytes)
    → IsWf m
    → lookup code m.rooms ≡ some r
    → is_member g j (leave_found fd code (some r) m)
      ≡ (if code == j && fd == g then false else is_member g j m)
unfolding leave_found leave_user get_current_user_count
leave_found-member fd code r m g j w e =
    let left = erase_first fd r.clients in
    ground (
      arith,
      e,
      ==_iff code j,
      lookup-erase code j m.rooms,
      lookup-adjust code j (leave_user fd) m.rooms,
      member-erase_first fd g r.clients (w.at_key code r e).distinct,
      member-none g left,
    )

-- In a manager that is as it should be, leaving takes the client out of that room, and changes no other
-- membership.
pub is_member-leave_room :
    (fd : ℕ) (code : Bytes) (m : RoomManager) (g : ℕ) (j : Bytes)
    → IsWf m
    → is_member g j (leave_room fd code m)
      ≡ (if code == j && fd == g then false else is_member g j m)
unfolding leave_room
is_member-leave_room fd code m g j w = elim (Option-cases (lookup code m.rooms)) [
  | inl e ↦ rw (e, leave_found) (ground (arith, ==_iff code j))
  | inr (r, e) ↦ rw e (leave_found-member fd code r m g j w e)
]

-- A room that is added holds nobody, and changes nobody's membership.
pub is_member-add_room :
    (dis : ℕ → ℕ) (name : Bytes) (max_users : ℤ) (m : RoomManager) (g : ℕ) (j : Bytes)
    → is_member g j (add_room dis name max_users m).1 ≡ is_member g j m
unfolding new_room member
is_member-add_room dis name max_users m g j = elim (add_room-Adds dis name max_users m) [
  | inl (_, e) ↦ ap (λ rooms. member_of g (lookup j rooms)) e
  | inr (coded, fresh, space, e) ↦
      ap (λ rooms. member_of g (lookup j rooms)) e
      ∙ ground (
        arith,
        ==_iff (add_room dis name max_users m).0 j,
        lookup-insert (add_room dis name max_users m).0 j
            (new_room (add_room dis name max_users m).0 name max_users) m.rooms,
      )
]
