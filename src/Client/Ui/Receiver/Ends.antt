-- ===== src/Client/Ui/Receiver/Ends.antt =====
-- The thread of the receive loop, run to its end.
use cpp_socket_chat.Prelude.{
  ℕ, zero, suc, ◌*◌, ◌≤◌, ◌<◌, ◌≡◌, ◌≢◌, refl, inl, inr, false, Option, none, some, arith,
  Bool-cases,
}
use cpp_socket_chat.Json.{Json, Result, ok, throw}
use cpp_socket_chat.Protocol.{Packet}
use cpp_socket_chat.Client.Network.{INetworkClient}
use cpp_socket_chat.Client.Packets.{Message, parse_message_packet}
use cpp_socket_chat.Client.Chat.{is_shown}
use cpp_socket_chat.Client.Ui.Receiver.{
  Shared, Receiver, starting, looking, receiving, finished, finish, show, heard, receive_as,
  receive_step, is_finished, join_rounds, join,
}
use cpp_socket_chat.Client.Ui.{◌>>=◌, Run, done, stopped, out_of_rounds}

-- How many steps are left at most, when so many bytes are to come.
unfoldable weight : Receiver → ℕ → ℕ
weight finished n = 0
weight receiving n = suc (2 * n)
weight looking n = suc (suc (2 * n))
weight starting n = suc (suc (suc (2 * n)))

busy-left_over : (phase : Receiver) (n : ℕ) → is_finished phase ≡ false → 0 < weight phase n
unfolding is_finished weight
busy-left_over starting n busy = omega arith
busy-left_over looking n busy = omega arith
busy-left_over receiving n busy = omega arith
busy-left_over finished n busy = cc

left_over-start : (phase : Receiver) (n : ℕ) → weight phase n ≤ suc (suc (suc (2 * n)))
unfolding weight
left_over-start starting n = omega arith
left_over-start looking n = omega arith
left_over-start receiving n = omega arith
left_over-start finished n = omega arith

module _ {json : Json} {net : INetworkClient} where
  unfoldable left_over : Shared json net → ℕ
  left_over s = weight s.receiver (net.pending s.network)

  -- A step that was taken left fewer than `n` of them.
  unfoldable Nears : ℕ → Run (Shared json net) → Type 0
  Nears n (done s) = left_over s < n
  Nears n (stopped e) = ◌≢◌ {A = Run (Shared json net)} (stopped e) (stopped out_of_rounds)

  show-Nears :
      (m : Result Message) (s : Shared json net) (n : ℕ)
      → net.pending s.network < n
      → Nears (suc (2 * n)) (show json net m s)
  unfolding show Nears left_over weight
  show-Nears (ok message) s n falls = omega (arith, falls)
  show-Nears (throw e) s n falls = λ h. cc

  heard-Nears :
      (r : Option Packet × net.State) (s : Shared json net) (n : ℕ)
      → ((p : Packet) → r.0 ≡ some p → net.pending r.1 < n)
      → Nears (suc (2 * n)) (heard json net r s)
  unfolding heard Nears left_over weight finish
  heard-Nears (none, k) s n falls = omega arith
  heard-Nears (some p, k) s n falls = elim (Bool-cases (is_shown p.type)) [
    | inl shown ↦ rw shown (
        show-Nears (parse_message_packet json p) (record s { network = k; receiver = looking }) n
          (falls p refl))
    | inr hidden ↦ rw hidden (omega (arith, falls p refl))
  ]

  receive_as-Nears :
      (phase : Receiver) (s : Shared json net)
      → is_finished phase ≡ false
      → Nears (weight phase (net.pending s.network)) (receive_as json net phase s)
  unfolding receive_as Nears weight is_finished left_over finish
  receive_as-Nears starting s busy = omega arith
  receive_as-Nears looking s busy = ground arith
  receive_as-Nears receiving s busy =
      heard-Nears (net.receive s.network) s (net.pending s.network)
        λ p e. net.receive-pending p s.network e
  receive_as-Nears finished s busy = cc

  weaken : (m n : ℕ) (r : Run (Shared json net)) → m ≤ n → Nears m r → Nears n r
  unfolding Nears
  weaken m n (done s) le near = omega (arith, near)
  weaken m n (stopped e) le near = near

  next-ends :
      (n : ℕ) (r : Run (Shared json net))
      → Nears (suc n) r
      → ((s : Shared json net) → left_over s ≤ n → join_rounds json net n s ≢ stopped out_of_rounds)
      → (r >>= join_rounds json net n) ≢ stopped out_of_rounds
  unfolding Nears
  next-ends n (done s) near rest = rest s (omega (arith, near))
  next-ends n (stopped e) near rest = λ h. near h

  join_rounds-ends :
      (n : ℕ) (s : Shared json net)
      → left_over s ≤ n
      → join_rounds json net n s ≢ stopped out_of_rounds
  unfolding join_rounds left_over receive_step
  join_rounds-ends zero s enough = elim (Bool-cases (is_finished s.receiver)) [
    | inl over ↦ rw over λ h. cc
    | inr busy ↦ absurd (omega (arith, busy-left_over s.receiver (net.pending s.network) busy))
  ]
  join_rounds-ends (suc n) s enough = elim (Bool-cases (is_finished s.receiver)) [
    | inl over ↦ rw over λ h. cc
    | inr busy ↦ rw busy (
        next-ends n (receive_step json net s)
          (weaken (left_over s) (suc n) (receive_step json net s) enough
            (receive_as-Nears s.receiver s busy))
          (join_rounds-ends n))
  ]

  -- Wherever the thread is, the join has rounds enough to wait for its end.
  pub join-ends : (s : Shared json net) → join json net s ≢ stopped out_of_rounds
  unfolding join left_over
  join-ends s =
      join_rounds-ends (suc (suc (suc (2 * net.pending s.network)))) s
        (left_over-start s.receiver (net.pending s.network))
