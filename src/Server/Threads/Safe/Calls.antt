-- ===== src/Server/Threads/Safe/Calls.antt =====
-- The calls of a handler: each keeps the rooms as they should be, and sends what fits.
use cpp_socket_chat.Prelude.{
  ◌≡◌, inl, inr, Bool-cases, ◌≤◌, ℕ, Bool, true, false, Option, none, some, Bytes, length, ℤ,
  if◌then◌else◌,
}
use cpp_socket_chat.Protocol.{PacketType, max_payload_size, reply}
use cpp_socket_chat.Protocol.Codes.{IsNamed}
use cpp_socket_chat.Protocol.Wire.{reply-IsSendable}
use cpp_socket_chat.Server.Clients.{ClientInfo}
use cpp_socket_chat.Server.Rooms.Invariant.{add_room-IsWf, join_room-IsWf, leave_room-IsWf}
use cpp_socket_chat.Server.Handlers.Rules.{Fits}
use cpp_socket_chat.Server.Threads
use cpp_socket_chat.Server.Threads.{Task, finished, interleave, Part, ◌>>=◌}
use cpp_socket_chat.Server.Threads.Handlers as Steps
use cpp_socket_chat.Server.Threads.Safe.{
  IsSafe, at_call, Keeps, Any, pure-Keeps, reads-Keeps, writes-Keeps, bind-Keeps, send-Keeps,
}

pub get_client-Keeps : (fd : ℕ) → Keeps Any (Threads.get_client fd)
unfolding Threads.get_client
get_client-Keeps fd = reads-Keeps _

pub set_room_code-Keeps : (fd : ℕ) (code : Bytes) → Keeps Any (Threads.set_room_code fd code)
unfolding Threads.set_room_code
set_room_code-Keeps fd code = writes-Keeps _ λ s h. (h.0, h.1)

pub set_nickname-Keeps : (fd : ℕ) (n : Bytes) → Keeps Any (Threads.set_nickname fd n)
unfolding Threads.set_nickname
set_nickname-Keeps fd n = writes-Keeps _ λ s h. (h.0, h.1)

pub leave_room-Keeps : (fd : ℕ) (code : Bytes) → Keeps Any (Threads.leave_room fd code)
unfolding Threads.leave_room
leave_room-Keeps fd code = writes-Keeps _ λ s h. (leave_room-IsWf fd code s.room_manager h.0, h.1)

pub enter_room-Keeps : (fd : ℕ) (code : Bytes) → Keeps Any (Threads.enter_room fd code)
unfolding Threads.enter_room
enter_room-Keeps fd code = record {
  keeps = λ next caught n c.
      at_call (λ s h. (join_room-IsWf fd code s.room_manager h.0, h.1)) λ s. n _ tt;
}

pub add_room-Keeps : (dis : ℕ → ℕ) (name : Bytes) (n : ℤ) → Keeps Any (Threads.add_room dis name n)
unfolding Threads.add_room
add_room-Keeps dis name m = record {
  keeps = λ next caught n c.
      at_call (λ s h. (add_room-IsWf dis name m s.room_manager h.0, h.1)) λ s. n _ tt;
}

pub refuse-Keeps :
    (fd : ℕ) (t : PacketType) (reason : Bytes)
    → IsNamed t
    → length reason ≤ max_payload_size
    → Keeps Fits (Threads.refuse fd t reason)
unfolding Threads.refuse
refuse-Keeps fd t reason named h =
    bind-Keeps _ (send-Keeps fd _ (reply-IsSendable t reason named h)) λ u _. pure-Keeps none tt

pub enter_if-Keeps : (fd : ℕ) (code : Bytes) (b : Bool) → Keeps Any (Steps.enter_if fd code b)
unfolding Steps.enter_if
enter_if-Keeps fd code true = set_room_code-Keeps fd code
enter_if-Keeps fd code false = pure-Keeps tt tt

pub enter_created-Keeps :
    (fd : ℕ) (code : Bytes) (c : Option ClientInfo) → Keeps Any (Steps.enter_created fd code c)
unfolding Steps.enter_created
enter_created-Keeps fd code none = pure-Keeps tt tt
enter_created-Keeps fd code (some c) =
    bind-Keeps _ (enter_room-Keeps fd code) λ b _. enter_if-Keeps fd code b

pub if-IsSafe :
    (b : Bool) (x y : Task) → IsSafe x → (b ≡ false → IsSafe y) → IsSafe (if b then x else y)
if-IsSafe b x y p q = elim (Bool-cases b) [ inl e ↦ rw e p | inr e ↦ rw e (q e) ]

-- A response that ends a handler.
pub answer-Keeps :
    (t : PacketType) (text : Bytes)
    → IsNamed t
    → length text ≤ max_payload_size
    → Keeps Fits (Threads.pure (some (reply t text)))
answer-Keeps t text named h = pure-Keeps _ (reply-IsSendable t text named h)
