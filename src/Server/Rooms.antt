-- ===== src/Server/Rooms.antt =====
-- RoomManager (server/src/domain/room/RoomManager.cpp and its header). The random numbers are a
-- parameter: `dis i` is what the i-th call of `dis(gen)` returns, and `drawn` counts the calls. Each
-- method runs under the manager's mutex: it is one step.
pub mod Codes
pub mod Invariant
pub mod Membership
use cpp_socket_chat.Prelude.{
  ℕ, zero, suc, ◌+◌, ℤ, Bool, true, false, Option, none, some, List, [], ◌∷◌, ◌++◌, Bytes, bytes,
  leb, nat_beq, length, bytes_eq, if◌then◌else◌,
}
use cpp_socket_chat.Map.{Map, lookup, insert, erase, adjust}
use cpp_socket_chat.Server.Room.{
  Room, JoinResult, success, room_full, already_in, new_room, accept_new_user, leave_user,
  get_current_user_count,
}

abbrev pub max_room_cnt : ℕ
max_room_cnt = 100

pub record RoomManager : Type 0 where
  pub rooms : Map Bytes Room
  pub drawn : ℕ

unfoldable pub chars : Bytes
unfolding bytes
chars = bytes "abcdefghijklmnopqrstuvwxyzABCDEFGHIJKLMNOPQRSTUVWXYZ0123456789"

-- chars[i]: the literal ends with a NUL.
unfoldable pub char_at : Bytes → ℕ → ℕ
char_at [] i = 0
char_at (c ∷ cs) zero = c
char_at (c ∷ cs) (suc i) = char_at cs i

module _ (dis : ℕ → ℕ) where
  -- The loop that appends one character after another.
  unfoldable pub code_loop : ℕ → ℕ → Bytes
  unfolding char_at chars
  code_loop zero at = []
  code_loop (suc n) at = char_at chars (dis at) ∷ code_loop n (suc at)

  unfoldable pub generate_room_code : ℕ → Bytes
  unfolding code_loop
  generate_room_code at = code_loop 8 at

  -- The `do … while` loop: `tries` is 100 - attempts at its head. The result is the code, if one was
  -- found, and the count of the numbers drawn.
  unfoldable pub find_code : ℕ → Map Bytes Room → ℕ → Option Bytes × ℕ
  find_code zero rooms at = (none, at + 8)
  find_code (suc tries) rooms at =
      let code = generate_room_code at in
      let again = find_code tries rooms (at + 8) in
      elim (lookup code rooms) [ none ↦ (some code, at + 8) | some r ↦ again ]

  emplace : Bytes → ℤ → Option Bytes × ℕ → RoomManager → Bytes × RoomManager
  emplace name max_users (none, at) m = ([], record m { drawn = at })
  emplace name max_users (some code, at) m =
      (code, record { rooms = insert code (new_room code name max_users) m.rooms; drawn = at })

  -- The empty text stands for a failure.
  unfoldable pub add_room : Bytes → ℤ → RoomManager → Bytes × RoomManager
  unfolding emplace
  add_room name max_users m =
      if leb max_room_cnt (length m.rooms)
      then ([], m)
      else emplace name max_users (find_code 100 m.rooms m.drawn) m

unfoldable pub remove_room : Bytes → RoomManager → RoomManager
remove_room code m = record m { rooms = erase code m.rooms }

joined : Bytes → JoinResult × Room → RoomManager → Bool × RoomManager
joined code (success, r) m = (true, record m { rooms = adjust code (λ _. r) m.rooms })
joined code (room_full, r) m = (false, record m { rooms = adjust code (λ _. r) m.rooms })
joined code (already_in, r) m = (false, record m { rooms = adjust code (λ _. r) m.rooms })

join_found : ℕ → Bytes → Option Room → RoomManager → Bool × RoomManager
join_found fd code none m = (false, m)
join_found fd code (some r) m = joined code (accept_new_user fd r) m

unfoldable pub join_room : ℕ → Bytes → RoomManager → Bool × RoomManager
unfolding join_found joined
join_room fd code m = join_found fd code (lookup code m.rooms) m

leave_found : ℕ → Bytes → Option Room → RoomManager → RoomManager
leave_found fd code none m = m
leave_found fd code (some r) m =
    let left = leave_user fd r in
    if nat_beq (get_current_user_count left) 0
    then record m { rooms = erase code m.rooms }
    else record m { rooms = adjust code (leave_user fd) m.rooms }

unfoldable pub leave_room : ℕ → Bytes → RoomManager → RoomManager
unfolding leave_found
leave_room fd code m = leave_found fd code (lookup code m.rooms) m

unfoldable pub get_room : Bytes → RoomManager → Option Room
get_room code m = lookup code m.rooms
