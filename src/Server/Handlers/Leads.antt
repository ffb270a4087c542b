-- ===== src/Server/Handlers/Leads.antt =====
-- The handlers' own ways to end, for what they lead to.
use cpp_socket_chat.Prelude.{ℕ, Option, none, some, Bytes, ◌≡◌, refl, sym, subst}
use cpp_socket_chat.Json.{JsonError, Result, ok, throw}
use cpp_socket_chat.Protocol.{PacketType, Packet}
use cpp_socket_chat.Server.State.{Server, send_packet}
use cpp_socket_chat.Server.State.Leads.{Managers, managers, Leads}
use cpp_socket_chat.Server.Handlers.{conclude, refuse}

pub Leads-refuse :
    {v : Managers} {R : Managers → Type 0} (fd : ℕ) (t : PacketType) (reason : Bytes)
    → R v
    → Leads v R (refuse fd t reason)
unfolding refuse send_packet
Leads-refuse {v} {R} fd t reason r = record { at = λ s e. subst R (sym e) r }

-- The end of a handler sends, and changes neither manager.
pub conclude-managers :
    (fd : ℕ) (handler : JsonError → Packet) (r : Result (Option Packet) × Server)
    → managers (conclude fd handler r) ≡ managers r.1
unfolding conclude send_packet
conclude-managers fd handler (ok none, s) = refl
conclude-managers fd handler (ok (some p), s) = refl
conclude-managers fd handler (throw e, s) = refl
