-- ===== src/Server/Threads/Alone.antt =====
-- A task whose steps nothing comes between is the handler that is taken whole.
pub mod Whole
use cpp_socket_chat.Prelude.{
  ℕ, ℤ, pos, ◌≡◌, refl, ap, ◌∙◌, sym, Bool, true, false, not, Option, none, some, Option-cases, inl,
  inr, List, [], ◌∷◌, Bytes, bytes, is_empty, fd_eq, ltb, length, if◌then◌else◌, Bool-cases,
}
use cpp_socket_chat.Json.{Json, JsonError, Result, ok, throw}
use cpp_socket_chat.Protocol.{
  PacketType, Packet, nickname_request, message_send, create_room, join_room, exit_room,
  max_payload_size,
}
use cpp_socket_chat.Server.Clients
use cpp_socket_chat.Server.Clients.{ClientInfo}
use cpp_socket_chat.Server.Room.{Room, get_client_fds}
use cpp_socket_chat.Server.Rooms
use cpp_socket_chat.Server.State
use cpp_socket_chat.Server.State.{Server, Act, continue, send_packet}
use cpp_socket_chat.Server.Handlers
use cpp_socket_chat.Server.Handlers.Rooms as WholeRooms
use cpp_socket_chat.Server.Handlers.Nickname as WholeNickname
use cpp_socket_chat.Server.Handlers.Message as WholeMessage
use cpp_socket_chat.Server.Handlers.Message.{chat_json}
use cpp_socket_chat.Server.Handlers.Dispatch.{handle, run_handler, find_handler}
use cpp_socket_chat.Server.Threads
use cpp_socket_chat.Server.Threads.{Task, finished, call, Part, ◌>>=◌}
use cpp_socket_chat.Server.Threads.Handlers as Steps

-- The server when a task has run with nothing between its steps.
unfoldable pub alone : Task → Server → Server
alone finished s = s
alone (call f next) s = alone (next s) (f s)

-- The result of a whole action, handed on.
abbrev pub handed : {A : Type 0} → Result A × Server → (A → Task) → (JsonError → Task) → Server
handed (ok a, s) next caught = alone (next a) s
handed (throw e, s) next caught = alone (caught e) s

-- A part of a task does what an action of the whole handler does.
pub record Does {A : Type 0} (p : Part A) (m : Act A) : Type 0 where
  pub does :
      (s : Server) (next : A → Task) (caught : JsonError → Task)
      → alone (p next caught) s ≡ handed (m s) next caught

pub pure-Does : {A : Type 0} (a : A) → Does (Threads.pure a) (State.pure a)
unfolding Threads.pure State.pure
pure-Does a = record { does = λ s next caught. refl }

pub lift-Does : {A : Type 0} (r : Result A) → Does (Threads.lift r) (State.lift r)
unfolding Threads.lift State.lift
lift-Does (ok a) = record { does = λ s next caught. refl }
lift-Does (throw e) = record { does = λ s next caught. refl }

pub reads-Does : {A : Type 0} (f : Server → A) → Does (Threads.reads f) (State.gets f)
unfolding Threads.reads State.gets alone
reads-Does f = record { does = λ s next caught. refl }

pub writes-Does : (f : Server → Server) → Does (Threads.writes f) (State.modify f)
unfolding Threads.writes State.modify alone
writes-Does f = record { does = λ s next caught. refl }

handed-bind :
    {A B : Type 0} (r : Result A × Server) (p : A → Part B) (f : A → Act B)
    → ((a : A) → Does (p a) (f a))
    → (next : B → Task) (caught : JsonError → Task)
    → handed r (λ a. p a next caught) caught ≡ handed (continue r f) next caught
handed-bind (ok a, s) p f h next caught = (h a).does s next caught
handed-bind (throw e, s) p f h next caught = refl

pub bind-Does :
    {A B : Type 0} {p : Part A} {m : Act A} (q : A → Part B) (f : A → Act B)
    → Does p m
    → ((a : A) → Does (q a) (f a))
    → Does (p >>= q) (State.◌>>=◌ m f)
unfolding ◌>>=◌ State.◌>>=◌
bind-Does {p} {m} q f d h = record {
  does =
      λ s next caught. d.does s (λ a. q a next caught) caught ∙ handed-bind (m s) q f h next caught;
}

pub if-Does :
    {A : Type 0} (b : Bool) {p q : Part A} {m n : Act A}
    → Does p m
    → Does q n
    → Does (if b then p else q) (if b then m else n)
if-Does true d e = d
if-Does false d e = e

pub send-Does : (fd : ℕ) (p : Packet) → Does (Threads.send fd p) (State.modify (send_packet fd p))
unfolding Threads.send
send-Does fd p = writes-Does (send_packet fd p)

sent_each :
    (exclude_fd : ℤ) (p : Packet) (fds : List ℕ) (s : Server) (next : Unit {0} → Task)
    (caught : JsonError → Task)
    → alone (Threads.send_each exclude_fd p fds next caught) s
      ≡ alone (next tt) (State.send_each exclude_fd p fds s)
unfolding Threads.send_each Threads.send Threads.writes State.send_each alone
sent_each exclude_fd p [] s next caught = refl
sent_each exclude_fd p (fd ∷ fds) s next caught = elim (Bool-cases (fd_eq fd exclude_fd)) [
  | inl same ↦ rw same (sent_each exclude_fd p fds s next caught)
  | inr other ↦ rw other (sent_each exclude_fd p fds (send_packet fd p s) next caught)
]

sent_room :
    (exclude_fd : ℤ) (p : Packet) (code : Bytes) (room : Option Room) (s : Server)
    (next : Unit {0} → Task) (caught : JsonError → Task)
    → Rooms.get_room code s.room_manager ≡ room
    → alone (Threads.to_members p code exclude_fd room next caught) s
      ≡ alone (next tt) (State.send_room p exclude_fd room s)
unfolding State.send_room Threads.to_members Threads.pure Threads.reads ◌>>=◌ alone
sent_room exclude_fd p code none s next caught e = refl
sent_room exclude_fd p code (some room) s next caught e =
    sent_each exclude_fd p (Threads.fds_of (Rooms.get_room code s.room_manager)) s next caught
    ∙ ap (λ r. alone (next tt) (State.send_each exclude_fd p (Threads.fds_of r) s)) e

pub broadcast-Does :
    (p : Packet) (code : Bytes) (exclude_fd : ℤ)
    → Does
        (Threads.broadcast_packet_for_room p code exclude_fd)
        (State.modify (State.broadcast_packet_for_room p code exclude_fd))
unfolding Threads.broadcast_packet_for_room Threads.reads ◌>>=◌ State.modify
    State.broadcast_packet_for_room alone
broadcast-Does p code exclude_fd = record {
  does = λ s next caught.
      sent_room exclude_fd p code (Rooms.get_room code s.room_manager) s next caught refl;
}

pub get_client-Does : (fd : ℕ) → Does (Threads.get_client fd) (State.get_client fd)
unfolding Threads.get_client State.get_client
get_client-Does fd = reads-Does _

pub set_room_code-Does :
    (fd : ℕ) (code : Bytes) → Does (Threads.set_room_code fd code) (State.set_room_code fd code)
unfolding Threads.set_room_code State.set_room_code
set_room_code-Does fd code = writes-Does _

pub set_nickname-Does :
    (fd : ℕ) (n : Bytes) → Does (Threads.set_nickname fd n) (State.set_nickname fd n)
unfolding Threads.set_nickname State.set_nickname
set_nickname-Does fd n = writes-Does _

pub leave_room-Does :
    (fd : ℕ) (code : Bytes) → Does (Threads.leave_room fd code) (State.leave_room fd code)
unfolding Threads.leave_room State.leave_room
leave_room-Does fd code = writes-Does _

pub enter_room-Does :
    (fd : ℕ) (code : Bytes) → Does (Threads.enter_room fd code) (State.join_room fd code)
unfolding Threads.enter_room State.join_room alone
enter_room-Does fd code = record { does = λ s next caught. refl }

pub add_room-Does :
    (dis : ℕ → ℕ) (name : Bytes) (n : ℤ)
    → Does (Threads.add_room dis name n) (State.add_room dis name n)
unfolding Threads.add_room State.add_room alone
add_room-Does dis name n = record { does = λ s next caught. refl }

pub refuse-Does :
    (fd : ℕ) (t : PacketType) (reason : Bytes)
    → Does (Threads.refuse fd t reason) (Handlers.refuse fd t reason)
unfolding Threads.refuse Handlers.refuse Threads.send Threads.writes Threads.pure ◌>>=◌ alone
refuse-Does fd t reason = record { does = λ s next caught. refl }

pub enter_created-Does :
    (fd : ℕ) (code : Bytes) (c : Option ClientInfo)
    → Does (Steps.enter_created fd code c) (WholeRooms.enter_created fd code c)
unfolding Steps.enter_created WholeRooms.enter_created Steps.enter_if WholeRooms.enter_if
enter_created-Does fd code none = pure-Does tt
enter_created-Does fd code (some c) = bind-Does _ _ (enter_room-Does fd code) entered
  where
    entered : (b : Bool) → Does (Steps.enter_if fd code b) (WholeRooms.enter_if fd code b)
    entered true = set_room_code-Does fd code
    entered false = pure-Does tt

pub alone-if :
    (b : Bool) (x y : Task) (u v s : Server)
    → alone x s ≡ u
    → alone y s ≡ v
    → alone (if b then x else y) s ≡ (if b then u else v)
alone-if true x y u v s p q = p
alone-if false x y u v s p q = q
