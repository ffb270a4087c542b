-- ===== src/Server/Room.antt =====
-- Room (server/src/domain/room/Room.cpp and its header).
pub mod Limit
use cpp_socket_chat.Prelude.{
  ℕ, ℤ, List, [], ◌∷◌, ◌++◌, Bytes, leb, length, to_size_t, nat_eq, if◌then◌else◌,
}
use cpp_socket_chat.Members.{member, erase_first}

pub data JoinResult : Type 0 where
  success room_full already_in : JoinResult

pub record Room : Type 0 where
  pub room_code : Bytes
  pub room_name : Bytes
  pub max_user_cnt : ℤ
  pub clients : List ℕ

unfoldable pub new_room : Bytes → Bytes → ℤ → Room
new_room code name max_users = record {
  room_code = code;
  room_name = name;
  max_user_cnt = max_users;
  clients = [];
}

-- The comparison of `clients.size()` with the `int` is one of unsigned numbers.
unfoldable pub accept_new_user : ℕ → Room → JoinResult × Room
accept_new_user fd r =
    if leb (to_size_t r.max_user_cnt) (length r.clients)
    then (room_full, r)
    else if member fd r.clients
    then (already_in, r)
    else (success, record r { clients = r.clients ++ fd ∷ [] })

unfoldable pub leave_user : ℕ → Room → Room
leave_user fd r = record r { clients = erase_first fd r.clients }

-- The conversion to `int` changes nothing: the descriptors are different `int`s.
unfoldable pub get_current_user_count : Room → ℕ
get_current_user_count r = length r.clients

unfoldable pub get_client_fds : Room → List ℕ
get_client_fds r = r.clients
