-- ===== src/Client/Network/Send.antt =====
-- What the client sends, and that the server gets it.
use cpp_socket_chat.Prelude.{
  ℕ, ◌≤◌, ◌≡◌, refl, sym, ap, ◌∙◌, true, Option, none, some, List, [], ◌∷◌, ◌++◌, arith, Bytes,
  take, drop, append_assoc, append-nil, take-append-drop,
}
use cpp_socket_chat.Protocol.{Packet, wire}
use cpp_socket_chat.Client.Network.{NetworkClient, send, send_loop}

-- A send that succeeds has written all of the buffer, behind what was written before; one that fails
-- has written a part of it.
pub send_loop-outgoing :
    (bs : Bytes) (outcomes : List (Option ℕ)) (n : NetworkClient)
    → (unsent : Bytes) × ((send_loop bs outcomes n).1.outgoing ++ unsent ≡ n.outgoing ++ bs)
      × ((send_loop bs outcomes n).0 ≡ true → unsent ≡ [])
unfolding send_loop
send_loop-outgoing [] outcomes n = ([], refl, λ h. refl)
send_loop-outgoing (b ∷ bs) [] n = (b ∷ bs, refl, λ h. cc)
send_loop-outgoing (b ∷ bs) (none ∷ outcomes) n = (b ∷ bs, refl, λ h. cc)
send_loop-outgoing (b ∷ bs) (some k ∷ outcomes) n =
    let (unsent, whole, done) =
      send_loop-outgoing (drop k (b ∷ bs)) outcomes
        (record n { outgoing = n.outgoing ++ take k (b ∷ bs) }) in
    (
      unsent,
      whole
          ∙ append_assoc n.outgoing (take k (b ∷ bs)) (drop k (b ∷ bs))
          ∙ ap (◌++◌ n.outgoing) (take-append-drop k (b ∷ bs)),
      done,
    )

send_loop-whole :
    (bs : Bytes) (outcomes : List (Option ℕ)) (n : NetworkClient)
    → (send_loop bs outcomes n).0 ≡ true
    → (send_loop bs outcomes n).1.outgoing ≡ n.outgoing ++ bs
send_loop-whole bs outcomes n h =
    let (unsent, whole, done) = send_loop-outgoing bs outcomes n in
    sym (append-nil (send_loop bs outcomes n).1.outgoing)
    ∙ ap (◌++◌ (send_loop bs outcomes n).1.outgoing) (sym (done h))
    ∙ whole

-- `Send` returns true only if the socket has all of the packet's bytes in network order, behind what
-- it had before; and then the packet is no larger than a receiver's buffer.
pub send-outgoing :
    (p : Packet) (n : NetworkClient)
    → (send p n).0 ≡ true
    → ((send p n).1.outgoing ≡ n.outgoing ++ wire p) × (p.size ≤ 1024)
unfolding send
send-outgoing p n h = ground (arith, send_loop-whole (wire p) n.outcomes n)
