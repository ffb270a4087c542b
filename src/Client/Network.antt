-- ===== src/Client/Network.antt =====
-- INetworkClient (client/include/network/INetworkClient.h), the interface that the services are
-- written against, and NetworkClient (client/src/network/NetworkClient.cpp), which implements it over
-- a socket. A socket is what it will deliver and what its writes return: `incoming` is every byte that
-- ::recv hands over before the connection ends or fails, and each call of ::send takes an element of
-- `outcomes`, the bytes that were taken or a failure; the calls behind the last one fail.
pub mod Receive
pub mod Send
pub mod Interface
use cpp_socket_chat.Prelude.{
  ℕ, ◌+◌, ◌<◌, ◌≡◌, refl, Bool, true, false, Option, none, some, List, [], ◌∷◌, ◌++◌, Bytes, length,
  take, drop, ltb, nat_beq, not, if◌then◌else◌,
}
use cpp_socket_chat.Protocol.{Packet, of_code, header_size, max_payload_size, wire}
use cpp_socket_chat.Server.Parser.{ntohs, payload_size}

-- A packet is `none` where the source's method returns false. The measure `pending` falls whenever a
-- packet is received: what a loop of receptions ends by.
pub record INetworkClient : Type 1 where
  pub State : Type 0
  pub send : Packet → State → Bool × State
  pub receive : State → Option Packet × State
  pub close : State → State
  pub is_connected : State → Bool
  pub pending : State → ℕ
  pub close-is_connected : (s : State) → is_connected (close s) ≡ false
  pub send_offline : (p : Packet) (s : State) → is_connected s ≡ false → send p s ≡ (false, s)
  pub receive-pending :
      (p : Packet) (s : State) → (receive s).0 ≡ some p → pending (receive s).1 < pending s

pub record NetworkClient : Type 0 where
  pub connected : Bool
  pub incoming : Bytes
  pub outgoing : Bytes
  pub outcomes : List (Option ℕ)

-- NetworkClient::NetworkClient
abbrev pub fresh : NetworkClient
fresh = record { connected = false; incoming = []; outgoing = []; outcomes = [] }

-- What ::socket and ::connect lead to: a connection with its traffic, or an error.
pub data ConnectResult : Type 0 where
  established : Bytes → List (Option ℕ) → ConnectResult
  unreachable : ConnectResult

-- NetworkClient::Connect
unfoldable pub connect : ConnectResult → NetworkClient → Bool × NetworkClient
connect (established bytes outcomes) n =
    (true, record n { connected = true; incoming = bytes; outgoing = []; outcomes = outcomes })
connect unreachable n = (false, record n { connected = false; incoming = []; outcomes = [] })

-- NetworkClient::IsConnected
unfoldable pub is_connected : NetworkClient → Bool
is_connected n = n.connected

-- NetworkClient::Close; a descriptor that was closed delivers nothing and takes nothing.
unfoldable pub close : NetworkClient → NetworkClient
close n = if n.connected then record n { connected = false; incoming = []; outcomes = [] } else n

-- The end of NetworkClient::Receive, behind a whole header: the rest of the stream is `bytes`.
receive_payload : Bytes → Bytes → NetworkClient → Option Packet × NetworkClient
receive_payload header bytes n =
    let size = payload_size header in
    if nat_beq size 0
    then (some (record { type = of_code (ntohs header); size = 0; payload = [] }), n)
    else if ltb max_payload_size size
    then (none, close n)
    else if ltb (length bytes) size
    then (none, close n)
    else (
      some (record { type = of_code (ntohs header); size = size; payload = take size bytes }),
      record n { incoming = drop size bytes },
    )

-- NetworkClient::Receive, by two calls of ::recv that wait for all of their bytes
unfoldable pub receive : NetworkClient → Option Packet × NetworkClient
unfolding receive_payload close
receive n =
    let rest = drop header_size n.incoming in
    if ltb (length n.incoming) header_size
    then (none, close n)
    else receive_payload (take header_size n.incoming) rest (record n { incoming = rest })

-- The loop of NetworkClient::Send over what is still to send.
unfoldable pub send_loop : Bytes → List (Option ℕ) → NetworkClient → Bool × NetworkClient
send_loop [] outcomes n = (true, record n { outcomes = outcomes })
send_loop (b ∷ bs) [] n = (false, record n { outcomes = [] })
send_loop (b ∷ bs) (none ∷ outcomes) n = (false, record n { outcomes = outcomes })
send_loop (b ∷ bs) (some k ∷ outcomes) n =
    send_loop (drop k (b ∷ bs)) outcomes (record n { outgoing = n.outgoing ++ take k (b ∷ bs) })

-- NetworkClient::Send
unfoldable pub send : Packet → NetworkClient → Bool × NetworkClient
unfolding send_loop
send p n =
    if not n.connected
    then (false, n)
    else if ltb max_payload_size p.size
    then (false, n)
    else send_loop (wire p) n.outcomes n
