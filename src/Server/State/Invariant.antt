-- ===== src/Server/State/Invariant.antt =====
-- What the handlers keep true of the server.
use cpp_socket_chat.Prelude.{
  ℕ, ℤ, Bool, true, false, List, [], ◌∷◌, ◌++◌, ◌≡◌, inl, inr, Bytes, is_empty, fd_eq, Option-cases,
  if◌then◌else◌,
}
use cpp_socket_chat.Protocol.{Packet}
use cpp_socket_chat.Protocol.Wire.{IsSendable}
use cpp_socket_chat.Server.Clients.{ClientInfo}
use cpp_socket_chat.Server.Clients.Names
use cpp_socket_chat.Server.Clients.Names.{Connected}
use cpp_socket_chat.Server.Rooms
use cpp_socket_chat.Server.Rooms.Invariant
use cpp_socket_chat.Server.Rooms.Membership.{is_member}
use cpp_socket_chat.Server.State.{
  Server, send_packet, send_each, send_room, broadcast_packet_for_room,
}

abbrev pub AllFit : List (ℕ × Packet) → Type 0
AllFit [] = Unit
AllFit ((fd, p) ∷ ps) = IsSendable p × AllFit ps

-- Both managers are as they should be; a client that has a room code is a member of that room; and
-- every packet that was sent fits the buffer of a receiver.
pub record Inv (s : Server) : Type 0 where
  pub clients : Names.IsWf s.client_manager
  pub rooms : Invariant.IsWf s.room_manager
  pub housed :
      (fd : ℕ) (c : ClientInfo)
      → Connected s.client_manager fd c
      → is_empty c.room_code ≡ false
      → is_member fd c.room_code s.room_manager ≡ true
  pub fits : AllFit s.outbox

pub AllFit-push :
    (ps : List (ℕ × Packet)) (fd : ℕ) (p : Packet)
    → AllFit ps
    → IsSendable p
    → AllFit (ps ++ (fd, p) ∷ [])
AllFit-push [] fd p f v = (v, tt)
AllFit-push ((g, q) ∷ ps) fd p f v = (f.0, AllFit-push ps fd p f.1 v)

pub send_packet-Inv :
    (fd : ℕ) (p : Packet) (s : Server) → IsSendable p → Inv s → Inv (send_packet fd p s)
unfolding send_packet
send_packet-Inv fd p s v i = record {
  clients = i.clients;
  rooms = i.rooms;
  housed = i.housed;
  fits = AllFit-push s.outbox fd p i.fits v;
}

if-Inv : (b : Bool) (s t : Server) → Inv s → Inv t → Inv (if b then s else t)
if-Inv true s t i j = i
if-Inv false s t i j = j

send_each-Inv :
    (exclude_fd : ℤ) (p : Packet) (fds : List ℕ) (s : Server)
    → IsSendable p
    → Inv s
    → Inv (send_each exclude_fd p fds s)
unfolding send_each
send_each-Inv exclude_fd p [] s v i = i
send_each-Inv exclude_fd p (fd ∷ fds) s v i =
    send_each-Inv exclude_fd p fds (if fd_eq fd exclude_fd then s else send_packet fd p s) v
      (if-Inv (fd_eq fd exclude_fd) s (send_packet fd p s) i (send_packet-Inv fd p s v i))

pub broadcast-Inv :
    (p : Packet) (code : Bytes) (exclude_fd : ℤ) (s : Server)
    → IsSendable p
    → Inv s
    → Inv (broadcast_packet_for_room p code exclude_fd s)
unfolding broadcast_packet_for_room
broadcast-Inv p code exclude_fd s v i = elim (Option-cases (Rooms.get_room code s.room_manager)) [
  | inl e ↦ rw (e, send_room) i
  | inr (r, e) ↦ rw (e, send_room) (send_each-Inv exclude_fd p _ s v i)
]
