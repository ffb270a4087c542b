-- ===== src/Client/Network/Interface.antt =====
-- NetworkClient fills the interface of the services.
use cpp_socket_chat.Prelude.{◌<◌, ◌≡◌, refl, false, take, drop, some, arith, length, length-drop}
use cpp_socket_chat.Protocol.{Packet}
use cpp_socket_chat.Server.Parser.{payload_size}
use cpp_socket_chat.Client.Network.{
  INetworkClient, NetworkClient, send, receive, close, is_connected,
}

pub close-is_connected : (n : NetworkClient) → is_connected (close n) ≡ false
unfolding close is_connected
close-is_connected n = ground arith

pub send_offline : (p : Packet) (n : NetworkClient) → is_connected n ≡ false → send p n ≡ (false, n)
unfolding send is_connected
send_offline p n h = rw h refl

pub receive-pending :
    (p : Packet) (n : NetworkClient)
    → (receive n).0 ≡ some p
    → length (receive n).1.incoming < length n.incoming
unfolding receive
receive-pending p n h = ground (
  arith,
  length-drop 4 n.incoming,
  length-drop (payload_size (take 4 n.incoming)) (drop 4 n.incoming),
)

-- The socket client, as the services see it.
abbrev pub network_client : INetworkClient
network_client = record {
  State = NetworkClient;
  send = send;
  receive = receive;
  close = close;
  is_connected = is_connected;
  pending = λ n. length n.incoming;
  close-is_connected = close-is_connected;
  send_offline = send_offline;
  receive-pending = receive-pending;
}
