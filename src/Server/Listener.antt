-- ===== src/Server/Listener.antt =====
-- Listener (server/src/network/Listener.cpp), with what the kernel answers as an argument. A descriptor
-- that is handed to ::close is noted in a list, in order.
use cpp_socket_chat.Prelude.{
  ℕ, ℤ, pos, negsuc, Bool, true, false, not, Option, none, some, List, [], ◌∷◌, ◌++◌, if◌then◌else◌,
}

pub record Listener : Type 0 where
  pub port : ℤ
  pub socket_fd : ℤ

-- Listener::Listener
abbrev pub new_listener : ℤ → Listener
new_listener port = record { port = port; socket_fd = negsuc 0 }

-- What socket, bind and listen return, the flags that fcntl reads, and whether it sets them.
pub record SocketCalls : Type 0 where
  pub socket : Option ℕ
  pub bound : Bool
  pub listening : Bool
  pub flags : Option ℕ
  pub set : Bool

-- make_nonblocking, as whether it returns something else than -1
unfoldable pub make_nonblocking : Option ℕ → Bool → Bool
make_nonblocking none set = false
make_nonblocking (some flags) set = set

close_fd : ℤ → List ℕ → List ℕ
close_fd (pos fd) closes = closes ++ fd ∷ []
close_fd (negsuc n) closes = closes

-- Listener::close, which leaves the descriptor where it is.
unfoldable pub close : Listener → List ℕ → List ℕ
unfolding close_fd
close l closes = close_fd l.socket_fd closes

-- Listener::initialize, from the result of socket
unfoldable pub open_socket : SocketCalls → Option ℕ → Listener → List ℕ → Bool × (Listener × List ℕ)
open_socket calls none l closes = (false, (record l { socket_fd = negsuc 0 }, closes))
open_socket calls (some fd) l closes =
    let l1 = record l { socket_fd = pos fd } in
    if not calls.bound
    then (false, (l1, close l1 closes))
    else if not calls.listening
    then (false, (l1, close l1 closes))
    else if not (make_nonblocking calls.flags calls.set)
    then (false, (l1, closes))
    else (true, (l1, closes))

-- Listener::initialize
unfoldable pub initialize : SocketCalls → Listener → List ℕ → Bool × (Listener × List ℕ)
unfolding open_socket
initialize calls l closes = open_socket calls calls.socket l closes
