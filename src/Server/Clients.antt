-- ===== src/Server/Clients.antt =====
-- ClientManager (server/src/domain/client/ClientManager.cpp and its header). Each method runs under
-- the manager's mutex: it is one step.
pub mod Names
pub mod Renamed
pub mod Race
use cpp_socket_chat.Prelude.{
  ℕ, ℤ, Bool, true, false, not, ◌&&◌, Option, none, some, List, [], ◌∷◌, Bytes, fd_eq, nat_eq,
  bytes_eq, if◌then◌else◌,
}
use cpp_socket_chat.Map.{Map, lookup, insert, erase, adjust}
use cpp_socket_chat.Members.{member, add, remove}

pub record ClientInfo : Type 0 where
  pub fd : ℕ
  pub ip : Bytes
  pub nickname : Bytes
  pub is_authenticated : Bool
  pub recv_buffer : Bytes
  pub room_code : Bytes

pub record ClientManager : Type 0 where
  pub clients : Map ℕ ClientInfo
  pub nicknames : List Bytes

abbrev pub fresh_client : ℕ → Bytes → ClientInfo
fresh_client fd ip = record {
  fd = fd;
  ip = ip;
  nickname = [];
  is_authenticated = false;
  recv_buffer = [];
  room_code = [];
}

unfoldable pub add_client : ℕ → Bytes → ClientManager → ClientManager
add_client fd ip m = record m { clients = insert fd (fresh_client fd ip) m.clients }

unfoldable pub get_client : ℕ → ClientManager → Option ClientInfo
get_client fd m = lookup fd m.clients

remove_found : ℕ → Option ClientInfo → ClientManager → ClientManager
remove_found fd none m = m
remove_found fd (some c) m = record {
  clients = erase fd m.clients;
  nicknames = if c.is_authenticated then remove c.nickname m.nicknames else m.nicknames;
}

unfoldable pub remove_client : ℕ → ClientManager → ClientManager
unfolding remove_found
remove_client fd m = remove_found fd (lookup fd m.clients) m

authenticated_fds : ℤ → Map ℕ ClientInfo → List ℕ
authenticated_fds exclude_fd [] = []
authenticated_fds exclude_fd ((fd, c) ∷ m) =
    let rest = authenticated_fds exclude_fd m in
    if not (fd_eq fd exclude_fd) && c.is_authenticated then fd ∷ rest else rest

unfoldable pub get_all_authenticated_client_fds : ℤ → ClientManager → List ℕ
unfolding authenticated_fds
get_all_authenticated_client_fds exclude_fd m = authenticated_fds exclude_fd m.clients

unfoldable pub is_nickname_taken : Bytes → ClientManager → Bool
is_nickname_taken nickname m = member nickname m.nicknames

set_found : ℕ → Bytes → Option ClientInfo → ClientManager → ClientManager
set_found fd nickname none m = m
set_found fd nickname (some c) m = record {
  clients = adjust fd (λ c. record c { nickname = nickname; is_authenticated = true }) m.clients;
  nicknames = add nickname m.nicknames;
}

unfoldable pub set_nickname : ℕ → Bytes → ClientManager → ClientManager
unfolding set_found
set_nickname fd nickname m = set_found fd nickname (lookup fd m.clients) m

unfoldable pub remove_nickname : Bytes → ClientManager → ClientManager
remove_nickname nickname m = record m { nicknames = remove nickname m.nicknames }

-- The writes of other code through the pointer that `getClient` returns.
unfoldable pub set_room_code : ℕ → Bytes → ClientManager → ClientManager
set_room_code fd code m = record m {
  clients = adjust fd (λ c. record c { room_code = code }) m.clients;
}

unfoldable pub set_recv_buffer : ℕ → Bytes → ClientManager → ClientManager
set_recv_buffer fd buffer m = record m {
  clients = adjust fd (λ c. record c { recv_buffer = buffer }) m.clients;
}
