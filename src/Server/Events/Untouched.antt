-- ===== src/Server/Events/Untouched.antt =====
-- What the event loop leaves to the workers.
use cpp_socket_chat.Prelude.{
  ℕ, pos, zero, suc, negsuc, ℤ, Bool, true, false, Option, none, some, ◌++◌, Bytes, ◌≡◌, refl, inl,
  inr, subst, nat_beq, Bool-cases,
}
use cpp_socket_chat.Server.Clients.{ClientInfo}
use cpp_socket_chat.Server.Parser.{Parsed, Status, waiting, overflow, out_of_fuel, parse_packets}
use cpp_socket_chat.Server.Events.{
  System, AcceptResult, RecvResult, accept_valid, accept_new_connection, close_connection,
  queue_parsed, receive_from, receive_and_parse, arrived, handle_event,
}

-- The same rooms, and nothing was sent.
abbrev pub Untouched : System → System → Type 0
Untouched t u =
    (u.server.room_manager ≡ t.server.room_manager) × (u.server.outbox ≡ t.server.outbox)

abbrev Leaves : System → Option System → Type 0
Leaves t none = Unit
Leaves t (some u) = Untouched t u

accept_valid-Untouched :
    (fd : ℤ) (ip : Bytes) (registered : Bool) (t : System)
    → Untouched t (accept_valid fd ip registered t)
unfolding accept_valid
accept_valid-Untouched (negsuc n) ip registered t = (refl, refl)
accept_valid-Untouched (pos zero) ip registered t = (refl, refl)
accept_valid-Untouched (pos (suc n)) ip false t = (refl, refl)
accept_valid-Untouched (pos (suc n)) ip true t = (refl, refl)

queue_parsed-Leaves :
    (fd : ℕ) (r : Parsed) (status : Status) (t : System) → Leaves t (queue_parsed fd r status t)
unfolding queue_parsed
queue_parsed-Leaves fd r waiting t = (refl, refl)
queue_parsed-Leaves fd r overflow t = tt
queue_parsed-Leaves fd r out_of_fuel t = tt

receive_from-Leaves :
    (fd : ℕ) (c : Option ClientInfo) (bytes : Option Bytes) (t : System)
    → Leaves t (receive_from fd c bytes t)
unfolding receive_from close_connection
receive_from-Leaves fd none bytes t = (refl, refl)
receive_from-Leaves fd (some c) none t = (refl, refl)
receive_from-Leaves fd (some c) (some bs) t =
    let r = parse_packets (c.recv_buffer ++ bs) in queue_parsed-Leaves fd r r.status t

handle_event-Leaves :
    (fd : ℕ) (conn : AcceptResult) (registered : Bool) (result : RecvResult) (t : System)
    → Leaves t (handle_event fd conn registered result t)
unfolding handle_event accept_new_connection receive_and_parse
handle_event-Leaves fd conn registered result t = elim (Bool-cases (nat_beq fd t.listener_fd)) [
  | inl same ↦ rw same (accept_valid-Untouched _ _ registered t)
  | inr other ↦ rw other (receive_from-Leaves fd _ (arrived result) t)
]

-- An event of the loop, when it is no undefined behaviour, leaves the rooms alone and sends nothing.
pub handle_event-Untouched :
    (fd : ℕ) (conn : AcceptResult) (registered : Bool) (result : RecvResult) (t : System)
    {u : System}
    → handle_event fd conn registered result t ≡ some u
    → Untouched t u
handle_event-Untouched fd conn registered result t e =
    subst (Leaves t) e (handle_event-Leaves fd conn registered result t)
