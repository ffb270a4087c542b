-- ===== src/Server/Sender.antt =====
-- PacketSender::send (server/src/network/PacketSender.cpp). The socket is a list of what the calls of
-- ::send return, in order.
pub mod Progress
use cpp_socket_chat.Prelude.{ℕ, zero, suc, List, [], ◌∷◌, ◌++◌, Bytes, take, drop}
use cpp_socket_chat.Protocol.{Packet, wire}

-- `accepted n`: the call took n bytes; `would_block`: EAGAIN or EWOULDBLOCK; `failed`: another error.
pub data SendResult : Type 0 where
  accepted : ℕ → SendResult
  would_block failed : SendResult

-- `pending`: the loop still runs when the listed results are used up.
pub data SendStatus : Type 0 where
  complete broken pending : SendStatus

pub record Sent : Type 0 where
  pub written : Bytes
  pub status : SendStatus

abbrev pub wrote : Bytes → Sent → Sent
wrote bs s = record s { written = bs ++ s.written }

-- The loop over `buffer + total_sent`: what is still to send, and the results to come. The kernel
-- takes no more bytes than it is given.
unfoldable pub send_loop : Bytes → List SendResult → Sent
send_loop [] rs = record { written = []; status = complete }
send_loop (b ∷ bs) [] = record { written = []; status = pending }
send_loop (b ∷ bs) (would_block ∷ rs) = send_loop (b ∷ bs) rs
send_loop (b ∷ bs) (failed ∷ rs) = record { written = []; status = broken }
send_loop (b ∷ bs) (accepted n ∷ rs) = wrote (take n (b ∷ bs)) (send_loop (drop n (b ∷ bs)) rs)

unfoldable pub send : Packet → List SendResult → Sent
send p rs = send_loop (wire p) rs
