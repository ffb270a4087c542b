-- ===== src/Server/Handlers/Rules.antt =====
-- Rules for the handlers' own ways to end: an action's result is a packet that fits, or none.
use cpp_socket_chat.Prelude.{ℕ, ◌≤◌, Option, none, some, Bytes, length}
use cpp_socket_chat.Json.{JsonError, Result, ok, throw}
use cpp_socket_chat.Protocol.{PacketType, Packet, max_payload_size, reply}
use cpp_socket_chat.Protocol.Codes.{IsNamed}
use cpp_socket_chat.Protocol.Wire.{IsSendable, reply-IsSendable}
use cpp_socket_chat.Server.State.{Server, Act, pure}
use cpp_socket_chat.Server.State.Ensures.{Post, Ensures, Ensures-pure}
use cpp_socket_chat.Server.State.Invariant.{Inv, send_packet-Inv}
use cpp_socket_chat.Server.Handlers.{conclude, refuse}

abbrev pub Fits : Option Packet → Type 0
Fits none = Unit
Fits (some p) = IsSendable p

-- The body of a handler keeps the invariant, and what it leaves to send fits.
abbrev pub IsBody : Act (Option Packet) → Type 0
IsBody = Ensures Inv Fits

pub conclude-Inv :
    (fd : ℕ) (handler : JsonError → Packet) (r : Result (Option Packet) × Server)
    → ((e : JsonError) → IsSendable (handler e))
    → Post Inv Fits r
    → Inv (conclude fd handler r)
unfolding conclude
conclude-Inv fd handler (ok none, s) h k = k.0
conclude-Inv fd handler (ok (some p), s) h k = send_packet-Inv fd p s k.1 k.0
conclude-Inv fd handler (throw e, s) h k = send_packet-Inv fd (handler e) s (h e) k

pub refuse-IsBody :
    (fd : ℕ) (t : PacketType) (reason : Bytes)
    → IsNamed t
    → length reason ≤ max_payload_size
    → IsBody (refuse fd t reason)
unfolding refuse
refuse-IsBody fd t reason named h = record {
  at = λ s i. (send_packet-Inv fd (reply t reason) s (reply-IsSendable t reason named h) i, tt);
}

pub answer-IsBody :
    (t : PacketType) (text : Bytes)
    → IsNamed t
    → length text ≤ max_payload_size
    → IsBody (pure (some (reply t text)))
answer-IsBody t text named h = Ensures-pure (some (reply t text)) (reply-IsSendable t text named h)
