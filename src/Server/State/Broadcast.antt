-- ===== src/Server/State/Broadcast.antt =====
-- What a room's broadcast sends, and to whom.
use cpp_socket_chat.Prelude.{
  ℕ, pos, Bool, true, false, none, some, List, [], ◌∷◌, ◌++◌, ◌≡◌, refl, ◌∙◌, inl, inr, Bytes,
  arith, nat_beq, nat_beq_iff, append_assoc, append-nil, Bool-cases, nat_eq, bytes_eq,
  if◌then◌else◌,
}
use cpp_socket_chat.Map.{lookup}
use cpp_socket_chat.Members.{member}
use cpp_socket_chat.Protocol.{Packet}
use cpp_socket_chat.Server.Room.{Room, get_client_fds}
use cpp_socket_chat.Server.Rooms
use cpp_socket_chat.Server.State.{
  Server, send_packet, send_each, send_room, broadcast_packet_for_room,
}

-- Everybody but the excluded client, in the same order.
abbrev pub others : ℕ → List ℕ → List ℕ
others fd [] = []
others fd (g ∷ gs) = let rest = others fd gs in if nat_beq g fd then rest else g ∷ rest

abbrev pub addressed : Packet → List ℕ → List (ℕ × Packet)
addressed p [] = []
addressed p (g ∷ gs) = (g, p) ∷ addressed p gs

abbrev pub posted : List (ℕ × Packet) → Server → Server
posted ps s = record s { outbox = s.outbox ++ ps }

posted-send_packet :
    (ps : List (ℕ × Packet)) (g : ℕ) (p : Packet) (s : Server)
    → posted ps (send_packet g p s) ≡ posted ((g, p) ∷ ps) s
unfolding send_packet
posted-send_packet ps g p s = rw append_assoc

send_each-posted :
    (fd : ℕ) (p : Packet) (gs : List ℕ) (s : Server)
    → send_each (pos fd) p gs s ≡ posted (addressed p (others fd gs)) s
unfolding send_each
send_each-posted fd p [] s = rw append-nil
send_each-posted fd p (g ∷ gs) s =
    send_each-posted fd p gs (if nat_beq g fd then s else send_packet g p s) ∙ step (nat_beq g fd)
  where
    step :
        (same : Bool)
        → posted (addressed p (others fd gs)) (if same then s else send_packet g p s)
          ≡ posted (addressed p (if same then others fd gs else g ∷ others fd gs)) s
    step true = refl
    step false = posted-send_packet (addressed p (others fd gs)) g p s

-- A broadcast to a room sends the packet to each of its members but the excluded one, in their order.
pub broadcast-posted :
    (p : Packet) (code : Bytes) (fd : ℕ) (s : Server) (room : Room)
    → lookup code s.room_manager.rooms ≡ some room
    → broadcast_packet_for_room p code (pos fd) s ≡ posted (addressed p (others fd room.clients)) s
unfolding broadcast_packet_for_room Rooms.get_room get_client_fds
broadcast-posted p code fd s room e = rw (e, send_room) (send_each-posted fd p room.clients s)

pub broadcast_nowhere :
    (p : Packet) (code : Bytes) (fd : ℕ) (s : Server)
    → lookup code s.room_manager.rooms ≡ none
    → broadcast_packet_for_room p code (pos fd) s ≡ s
unfolding broadcast_packet_for_room Rooms.get_room
broadcast_nowhere p code fd s e = rw (e, send_room)

-- Every packet of a list meets `P` with its address.
abbrev pub AllTo : (ℕ → Packet → Type 0) → List (ℕ × Packet) → Type 0
AllTo P [] = Unit
AllTo P ((g, p) ∷ ps) = P g p × AllTo P ps

-- Who is addressed is a member, and is not the excluded client.
pub addressed-members :
    (P : ℕ → Packet → Type 0) (fd : ℕ) (p : Packet) (gs : List ℕ)
    → ((g : ℕ) → member g gs ≡ true → nat_beq g fd ≡ false → P g p)
    → AllTo P (addressed p (others fd gs))
unfolding member
addressed-members P fd p [] h = tt
addressed-members P fd p (g ∷ gs) h =
    let rest = addressed-members P fd p gs (λ k m n. h k (ground (arith, m)) n) in
    elim (Bool-cases (nat_beq g fd)) [
      | inl self ↦ rw self rest
      | inr other ↦ rw other (h g (ground (arith, nat_beq_iff g g)) other, rest)
    ]
