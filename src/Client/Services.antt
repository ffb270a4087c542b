-- ===== src/Client/Services.antt =====
-- What the client's services share (client/src/core): a call of theirs returns, or overflows a packet,
-- or raises an exception that they do not catch.
use cpp_socket_chat.Json.{JsonError}
use cpp_socket_chat.Protocol.{Packet}
use cpp_socket_chat.Client.Packets.{Built, built, overflow, thrown}

pub data Outcome (A : Type 0) : Type 0 where
  returned : A → Outcome A
  overflowed : Outcome A
  raised : JsonError → Outcome A

-- A request, if it can be built.
abbrev pub with_request : {A : Type 0} → Built → (Packet → Outcome A) → Outcome A
with_request (built p) f = f p
with_request overflow f = overflowed
with_request (thrown e) f = raised e
