-- ===== src/Server/Sender/Progress.antt =====
-- What the send loop writes, and that it ends if the socket goes on taking bytes.
use cpp_socket_chat.Prelude.{
  ℕ, zero, suc, ◌≤◌, ◌≡◌, refl, sym, ◌∙◌, ap, List, [], ◌∷◌, ◌++◌, arith, Bytes, length,
  length-drop, take, drop, take-append-drop, append_assoc, append-nil,
}
use cpp_socket_chat.Protocol.{Packet, wire}
use cpp_socket_chat.Server.Sender.{
  SendResult, accepted, would_block, failed, complete, Sent, send_loop, send,
}

-- What was written, with what was not, is the buffer; and the loop is complete exactly if it wrote all.
abbrev pub WritesPrefix : Bytes → Sent → Type 0
WritesPrefix buffer s =
    (unsent : Bytes) × (s.written ++ unsent ≡ buffer)
    × (s.status ≡ complete → unsent ≡ [])
    × (unsent ≡ [] → s.status ≡ complete)

send_loop-WritesPrefix :
    (buffer : Bytes) (rs : List SendResult) → WritesPrefix buffer (send_loop buffer rs)
unfolding send_loop
send_loop-WritesPrefix [] rs = ([], refl, (λ e. refl), (λ e. refl))
send_loop-WritesPrefix (b ∷ bs) [] = (b ∷ bs, refl, (λ e. cc), (λ e. cc))
send_loop-WritesPrefix (b ∷ bs) (would_block ∷ rs) = send_loop-WritesPrefix (b ∷ bs) rs
send_loop-WritesPrefix (b ∷ bs) (failed ∷ rs) = (b ∷ bs, refl, (λ e. cc), (λ e. cc))
send_loop-WritesPrefix (b ∷ bs) (accepted n ∷ rs) =
    let (unsent, whole, done, all) = send_loop-WritesPrefix (drop n (b ∷ bs)) rs in
    (
      unsent,
      append_assoc (take n (b ∷ bs)) (send_loop (drop n (b ∷ bs)) rs).written unsent
          ∙ ap (◌++◌ (take n (b ∷ bs))) whole
          ∙ take-append-drop n (b ∷ bs),
      done,
      all,
    )

-- Whatever the socket does, what `send` writes is a prefix of the packet's bytes in network order;
-- it is all of them exactly if the loop ends with its test.
pub send-WritesPrefix : (p : Packet) (rs : List SendResult) → WritesPrefix (wire p) (send p rs)
unfolding send
send-WritesPrefix p rs = send_loop-WritesPrefix (wire p) rs

-- The number of results that took a byte or more.
abbrev pub productive : List SendResult → ℕ
productive [] = 0
productive (accepted zero ∷ rs) = productive rs
productive (accepted (suc n) ∷ rs) = suc (productive rs)
productive (would_block ∷ rs) = productive rs
productive (failed ∷ rs) = productive rs

abbrev pub NoFailure : List SendResult → Type 0
NoFailure [] = Unit
NoFailure (accepted n ∷ rs) = NoFailure rs
NoFailure (would_block ∷ rs) = NoFailure rs
NoFailure (failed ∷ rs) = ⊥

send_loop_completes :
    (buffer : Bytes) (rs : List SendResult)
    → NoFailure rs
    → length buffer ≤ productive rs
    → (send_loop buffer rs).status ≡ complete
unfolding send_loop
send_loop_completes [] rs f h = refl
send_loop_completes (b ∷ bs) [] f h = elim h [ ]
send_loop_completes (b ∷ bs) (would_block ∷ rs) f h = send_loop_completes (b ∷ bs) rs f h
send_loop_completes (b ∷ bs) (failed ∷ rs) f h = absurd f
send_loop_completes (b ∷ bs) (accepted zero ∷ rs) f h = send_loop_completes (b ∷ bs) rs f h
send_loop_completes (b ∷ bs) (accepted (suc n) ∷ rs) f h =
    send_loop_completes (drop n bs) rs f (omega (arith, length-drop n bs))

-- A socket that does not fail and takes bytes often enough gets the whole packet.
pub send_completes :
    (p : Packet) (rs : List SendResult)
    → NoFailure rs
    → length (wire p) ≤ productive rs
    → ((send p rs).status ≡ complete) × ((send p rs).written ≡ wire p)
unfolding send
send_completes p rs f h =
    let done = send_loop_completes (wire p) rs f h in
    let (unsent, whole, rest, _) = send_loop-WritesPrefix (wire p) rs in
    (done, sym (append-nil _) ∙ ap (◌++◌ (send_loop (wire p) rs).written) (sym (rest done)) ∙ whole)
