-- ===== src/Server/Rooms/Invariant.antt =====
-- What the room manager keeps true of its rooms.
use cpp_socket_chat.Prelude.{
  ℕ, ◌≤◌, ◌<◌, ◌≡◌, refl, sym, ap, subst, ◌∙◌, inl, inr, ℤ, some, [], ◌∷◌, Bytes, arith, length,
  length-append, to_size_t, leb, nat_beq, Option-cases, Bool-cases, bytes_eq, nat_eq,
}
use cpp_socket_chat.Map.{
  UniqueKeys, lookup, insert, erase, adjust, lookup-adjust_cases, lookup-insert_cases,
  lookup-erase_cases, insert-UniqueKeys, erase-UniqueKeys, adjust-UniqueKeys, length-insert-le,
  length-erase-le, length-adjust,
}
use cpp_socket_chat.Members.{member, Distinct}
use cpp_socket_chat.Members.Laws.{push-Distinct, erase_first-Distinct, length-erase_first-le}
use cpp_socket_chat.Server.Room.{
  Room, JoinResult, success, room_full, already_in, new_room, accept_new_user, leave_user,
  get_current_user_count,
}
use cpp_socket_chat.Server.Rooms.{
  RoomManager, add_room, remove_room, join_room, join_found, joined, leave_room, leave_found,
}
use cpp_socket_chat.Server.Rooms.Codes.{add_room-Adds}

-- A room under its code: nobody is in it twice, and it holds no more than its limit.
pub record IsRoom (code : Bytes) (r : Room) : Type 0 where
  pub named : r.room_code ≡ code
  pub coded : length code ≡ 8
  pub distinct : Distinct r.clients
  pub within : length r.clients ≤ to_size_t r.max_user_cnt

pub record IsWf (m : RoomManager) : Type 0 where
  pub keys : UniqueKeys m.rooms
  pub bounded : length m.rooms ≤ 100
  pub at_key : (code : Bytes) (r : Room) → lookup code m.rooms ≡ some r → IsRoom code r

pub accept_new_user-IsRoom :
    (fd : ℕ) (code : Bytes) (r : Room) → IsRoom code r → IsRoom code (accept_new_user fd r).1
unfolding accept_new_user
accept_new_user-IsRoom fd code r v =
    elim (Bool-cases (leb (to_size_t r.max_user_cnt) (length r.clients))) [
      | inl full ↦ rw full v
      | inr space ↦ elim (Bool-cases (member fd r.clients)) [
        | inl inside ↦ rw (space, inside) v
        | inr outside ↦
            rw (space, outside)
              record {
                named = v.named;
                coded = v.coded;
                distinct = push-Distinct fd r.clients outside v.distinct;
                within = ground (arith, space, length-append r.clients (fd ∷ []));
              }
      ]
    ]

pub leave_user-IsRoom :
    (fd : ℕ) (code : Bytes) (r : Room) → IsRoom code r → IsRoom code (leave_user fd r)
unfolding leave_user
leave_user-IsRoom fd code r v = record {
  named = v.named;
  coded = v.coded;
  distinct = erase_first-Distinct fd r.clients v.distinct;
  within = omega (arith, length-erase_first-le fd r.clients, v.within);
}

-- A write to one room that keeps it a room.
adjust-IsWf :
    (code : Bytes) (f : Room → Room) (m : RoomManager)
    → ((r : Room) → lookup code m.rooms ≡ some r → IsRoom code (f r))
    → IsWf m
    → IsWf (record m { rooms = adjust code f m.rooms })
adjust-IsWf code f m keep w = record {
  keys = adjust-UniqueKeys code f m.rooms w.keys;
  bounded = omega (arith, length-adjust code f m.rooms, w.bounded);
  at_key = λ j r h. elim (lookup-adjust_cases code j f m.rooms r h) [
    | inl (v, same, before, e) ↦ rw (e, ← same) (keep v (rw same before))
    | inr (other, before) ↦ w.at_key j r before
  ];
}

erase-IsWf :
    (code : Bytes) (m : RoomManager) → IsWf m → IsWf (record m { rooms = erase code m.rooms })
erase-IsWf code m w = record {
  keys = erase-UniqueKeys code m.rooms w.keys;
  bounded = omega (arith, length-erase-le code m.rooms, w.bounded);
  at_key = λ j r h. w.at_key j r (lookup-erase_cases code j m.rooms r h).1;
}

insert-IsWf :
    (code : Bytes) (r : Room) (m : RoomManager) (drawn : ℕ)
    → IsRoom code r
    → length m.rooms < 100
    → IsWf m
    → IsWf (record { rooms = insert code r m.rooms; drawn = drawn })
insert-IsWf code r m drawn v space w = record {
  keys = insert-UniqueKeys code r m.rooms w.keys;
  bounded = omega (arith, length-insert-le code r m.rooms);
  at_key = λ j x h. elim (lookup-insert_cases code j r m.rooms x h) [
    | inl (same, e) ↦ rw (e, ← same) v
    | inr (other, before) ↦ w.at_key j x before
  ];
}

new_room-IsRoom :
    (code name : Bytes) (max_users : ℤ)
    → length code ≡ 8
    → IsRoom code (new_room code name max_users)
unfolding new_room
new_room-IsRoom code name max_users coded = record {
  named = refl;
  coded = coded;
  distinct = tt;
  within = omega arith;
}

same_rooms : (m m' : RoomManager) → m'.rooms ≡ m.rooms → IsWf m → IsWf m'
same_rooms m m' e w = record {
  keys = subst UniqueKeys (sym e) w.keys;
  bounded = omega (arith, ap length e, w.bounded);
  at_key = λ j r h. w.at_key j r (ap (lookup j) (sym e) ∙ h);
}

-- Whatever the name and the limit that a client asks for, a room manager stays as it should be.
pub add_room-IsWf :
    (dis : ℕ → ℕ) (name : Bytes) (max_users : ℤ) (m : RoomManager)
    → IsWf m
    → IsWf (add_room dis name max_users m).1
add_room-IsWf dis name max_users m w = elim (add_room-Adds dis name max_users m) [
  | inl (_, e) ↦ same_rooms m _ e w
  | inr (coded, fresh, space, e) ↦
      same_rooms
        (record {
          rooms =
              insert (add_room dis name max_users m).0
                (new_room (add_room dis name max_users m).0 name max_users) m.rooms;
          drawn = 0;
        })
        _ e (insert-IsWf _ _ m 0 (new_room-IsRoom _ name max_users coded) space w)
]

pub remove_room-IsWf : (code : Bytes) (m : RoomManager) → IsWf m → IsWf (remove_room code m)
unfolding remove_room
remove_room-IsWf code m w = erase-IsWf code m w

joined-IsWf :
    (code : Bytes) (a : JoinResult × Room) (m : RoomManager)
    → IsRoom code a.1
    → IsWf m
    → IsWf (joined code a m).1
unfolding joined
joined-IsWf code (success, r) m v w = adjust-IsWf code (λ _. r) m (λ _ _. v) w
joined-IsWf code (room_full, r) m v w = adjust-IsWf code (λ _. r) m (λ _ _. v) w
joined-IsWf code (already_in, r) m v w = adjust-IsWf code (λ _. r) m (λ _ _. v) w

pub join_room-IsWf :
    (fd : ℕ) (code : Bytes) (m : RoomManager) → IsWf m → IsWf (join_room fd code m).1
unfolding join_room
join_room-IsWf fd code m w = elim (Option-cases (lookup code m.rooms)) [
  | inl e ↦ rw (e, join_found) w
  | inr (r, e) ↦
      rw (e, join_found)
        (joined-IsWf code (accept_new_user fd r) m
          (accept_new_user-IsRoom fd code r (w.at_key code r e)) w)
]

pub leave_room-IsWf :
    (fd : ℕ) (code : Bytes) (m : RoomManager) → IsWf m → IsWf (leave_room fd code m)
unfolding leave_room
leave_room-IsWf fd code m w = elim (Option-cases (lookup code m.rooms)) [
  | inl e ↦ rw (e, leave_found) w
  | inr (r, e) ↦ elim (Bool-cases (nat_beq (get_current_user_count (leave_user fd r)) 0)) [
    | inl none_left ↦ rw (e, leave_found, none_left) (erase-IsWf code m w)
    | inr some_left ↦
        rw (e, leave_found, some_left)
          (adjust-IsWf code (leave_user fd) m
            (λ x h. leave_user-IsRoom fd code x (w.at_key code x h)) w)
  ]
]
