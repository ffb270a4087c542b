-- ===== src/Server/Threads/Safe.antt =====
-- What the threads keep true, in whatever order they take their turns.
pub mod Calls
pub mod Handled
use cpp_socket_chat.Prelude.{
  ◌≡◌, ℕ, zero, suc, ℤ, pos, Bool, true, false, not, Option, none, some, List, [], ◌∷◌, map, Bytes,
  bytes, is_empty, ltb, length, fd_eq, if◌then◌else◌, Bool-cases, inl, inr,
}
use cpp_socket_chat.Json.{Json, JsonError, Result, ok, throw}
use cpp_socket_chat.Protocol.{
  PacketType, Packet, nickname_request, message_send, create_room, join_room, exit_room,
  max_payload_size,
}
use cpp_socket_chat.Server.Clients.{ClientInfo}
use cpp_socket_chat.Server.Room.{Room}
use cpp_socket_chat.Server.Rooms
use cpp_socket_chat.Server.Rooms.Invariant.{IsWf, add_room-IsWf, join_room-IsWf, leave_room-IsWf}
use cpp_socket_chat.Server.State.{Server, send_packet}
use cpp_socket_chat.Server.Handlers.Message.{chat_json}
use cpp_socket_chat.Server.State.Invariant.{AllFit, AllFit-push}
use cpp_socket_chat.Protocol.Wire.{IsSendable}
use cpp_socket_chat.Server.Handlers.Rules.{Fits}
use cpp_socket_chat.Server.Threads
use cpp_socket_chat.Server.Threads.{Task, finished, call, turn, interleave, Part, ◌>>=◌}
use cpp_socket_chat.Server.Threads.Handlers as Steps

-- The rooms are as they should be, and every packet that was sent fits the buffer of a receiver.
abbrev pub IsKept : Server → Type 0
IsKept s = IsWf s.room_manager × AllFit s.outbox

-- Every step of a task keeps the server so.
pub data IsSafe : Task → Type 0 where
  at_end : IsSafe finished
  at_call :
      {f : Server → Server} {next : Server → Task}
      → ((s : Server) → IsKept s → IsKept (f s))
      → ((s : Server) → IsSafe (next s))
      → IsSafe (call f next)

abbrev pub AllSafe : List Task → Type 0
AllSafe [] = Unit
AllSafe (t ∷ ts) = IsSafe t × AllSafe ts

pub turn-IsKept :
    (i : ℕ) (ts : List Task) (s : Server)
    → AllSafe ts
    → IsKept s
    → AllSafe (turn i ts s).0 × IsKept (turn i ts s).1
unfolding turn
turn-IsKept i [] s safe h = (tt, h)
turn-IsKept zero (finished ∷ ts) s safe h = (safe, h)
turn-IsKept zero (call f next ∷ ts) s (at_call keeps goes, safe) h = ((goes s, safe), keeps s h)
turn-IsKept (suc i) (t ∷ ts) s (first, safe) h =
    let (rest, after) = turn-IsKept i ts s safe h in ((first, rest), after)

-- A part of a task whose steps do, if what follows each of its results does.
pub record Keeps {A : Type 0} (Q : A → Type 0) (p : Part A) : Type 0 where
  pub keeps :
      (next : A → Task) (caught : JsonError → Task)
      → ((a : A) → Q a → IsSafe (next a))
      → ((e : JsonError) → IsSafe (caught e))
      → IsSafe (p next caught)

-- Nothing is asked of a result.
abbrev pub Any : {A : Type 0} → A → Type 0
Any a = Unit

pub pure-Keeps : {A : Type 0} {Q : A → Type 0} (a : A) → Q a → Keeps Q (Threads.pure a)
unfolding Threads.pure
pure-Keeps a q = record { keeps = λ next caught n c. n a q }

pub lift-Keeps : {A : Type 0} (r : Result A) → Keeps Any (Threads.lift r)
unfolding Threads.lift
lift-Keeps (ok a) = record { keeps = λ next caught n c. n a tt }
lift-Keeps (throw e) = record { keeps = λ next caught n c. c e }

pub reads-Keeps : {A : Type 0} (f : Server → A) → Keeps Any (Threads.reads f)
unfolding Threads.reads
reads-Keeps f = record { keeps = λ next caught n c. at_call (λ s h. h) λ s. n (f s) tt }

pub writes-Keeps :
    (f : Server → Server) → ((s : Server) → IsKept s → IsKept (f s)) → Keeps Any (Threads.writes f)
unfolding Threads.writes
writes-Keeps f h = record { keeps = λ next caught n c. at_call h λ s. n tt tt }

pub bind-Keeps :
    {A B : Type 0} {Q : A → Type 0} {R : B → Type 0} {p : Part A} (q : A → Part B)
    → Keeps Q p
    → ((a : A) → Q a → Keeps R (q a))
    → Keeps R (p >>= q)
unfolding ◌>>=◌
bind-Keeps q k h = record {
  keeps = λ next caught n c. k.keeps _ caught (λ a x. (h a x).keeps next caught n c) c;
}

pub if-Keeps :
    {A : Type 0} {Q : A → Type 0} (b : Bool) {p q : Part A}
    → (b ≡ true → Keeps Q p)
    → (b ≡ false → Keeps Q q)
    → Keeps Q (if b then p else q)
if-Keeps b {p} {q} k l = elim (Bool-cases b) [ inl e ↦ rw e (k e) | inr e ↦ rw e (l e) ]

pub send-Keeps : (fd : ℕ) (p : Packet) → IsSendable p → Keeps Any (Threads.send fd p)
unfolding Threads.send send_packet
send-Keeps fd p v = writes-Keeps _ λ s h. (h.0, AllFit-push s.outbox fd p h.1 v)

pub send_each-Keeps :
    (exclude_fd : ℤ) (p : Packet) (fds : List ℕ)
    → IsSendable p
    → Keeps Any (Threads.send_each exclude_fd p fds)
unfolding Threads.send_each
send_each-Keeps exclude_fd p [] v = record { keeps = λ next caught n c. n tt tt }
send_each-Keeps exclude_fd p (fd ∷ fds) v = record {
  keeps = λ next caught n c. elim (Bool-cases (fd_eq fd exclude_fd)) [
    | inl same ↦ rw same ((send_each-Keeps exclude_fd p fds v).keeps next caught n c)
    | inr other ↦ rw other (
        (send-Keeps fd p v).keeps _ caught
          (λ u x. (send_each-Keeps exclude_fd p fds v).keeps next caught n c) c)
  ];
}

to_members-Keeps :
    (p : Packet) (code : Bytes) (exclude_fd : ℤ) (room : Option Room)
    → IsSendable p
    → Keeps Any (Threads.to_members p code exclude_fd room)
unfolding Threads.to_members
to_members-Keeps p code exclude_fd none v = pure-Keeps tt tt
to_members-Keeps p code exclude_fd (some room) v =
    bind-Keeps _ (reads-Keeps _) λ fds _. send_each-Keeps exclude_fd p fds v

pub broadcast-Keeps :
    (p : Packet) (code : Bytes) (exclude_fd : ℤ)
    → IsSendable p
    → Keeps Any (Threads.broadcast_packet_for_room p code exclude_fd)
unfolding Threads.broadcast_packet_for_room
broadcast-Keeps p code exclude_fd v =
    bind-Keeps _ (reads-Keeps _) λ room _. to_members-Keeps p code exclude_fd room v

-- The end of a handler: a response that fits, or none.
conclude_with-IsSafe : (fd : ℕ) (p : Option Packet) → Fits p → IsSafe (Threads.conclude_with fd p)
unfolding Threads.conclude_with
conclude_with-IsSafe fd none v = at_end
conclude_with-IsSafe fd (some p) v = (send-Keeps fd p v).keeps _ _ (λ u x. at_end) (λ e. at_end)

pub conclude-IsSafe :
    (fd : ℕ) (handler : JsonError → Packet) {p : Part (Option Packet)}
    → ((e : JsonError) → IsSendable (handler e))
    → Keeps Fits p
    → IsSafe (Threads.conclude fd handler p)
unfolding Threads.conclude
conclude-IsSafe fd handler h k =
    k.keeps _ _ (conclude_with-IsSafe fd)
      λ e. (send-Keeps fd (handler e) (h e)).keeps _ _ (λ u x. at_end) (λ x. at_end)
