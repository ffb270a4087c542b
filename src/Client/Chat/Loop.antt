-- ===== src/Client/Chat/Loop.antt =====
-- What the receive loop hears, and that it ends.
use cpp_socket_chat.Prelude.{
  ℕ, zero, suc, ◌<◌, ◌≡◌, ◌≢◌, refl, ap, inl, inr, Bool, true, Option, none, some, [], arith, ◌&&◌,
  Bool-cases, Option-cases,
}
use cpp_socket_chat.Json.{Json, Result-cases}
use cpp_socket_chat.Protocol.{Packet}
use cpp_socket_chat.Client.Network.{INetworkClient}
use cpp_socket_chat.Client.Packets.{parse_message_packet}
use cpp_socket_chat.Client.Chat.{
  ended, out_of_fuel, Heard, hear, receive_loop, start_receiving, is_shown,
}

module _ (json : Json) (net : INetworkClient) where
  hear-ends :
      (p : Packet) (s : net.State) (rest : Heard json net)
      → rest.end ≢ out_of_fuel
      → (hear json net p s rest).end ≢ out_of_fuel
  unfolding hear
  hear-ends p s rest h = elim (Bool-cases (is_shown p.type)) [
    | inr hidden ↦ rw hidden h
    | inl shown ↦ elim (Result-cases (parse_message_packet json p)) [
      | inl (m, e) ↦ rw (shown, e) h
      | inr (x, e) ↦ rw (shown, e) (λ y. cc)
    ]
  ]

  -- A round that receives a packet, and one that receives none.
  pub receive_loop-some :
      (fuel : ℕ) (still : ℕ → Bool) (i : ℕ) (s t : net.State) (p : Packet)
      → (still i && net.is_connected s) ≡ true
      → net.receive s ≡ (some p, t)
      → receive_loop json net (suc fuel) still i s
        ≡ hear json net p t (receive_loop json net fuel still (suc i) t)
  unfolding receive_loop
  receive_loop-some fuel still i s t p goes_on e = rw goes_on (
      ap
        (λ (r : Option Packet × net.State). elim r.0 as (λ x. Heard json net) [
          | none ↦ record { messages = []; network = r.1; end = ended }
          | some q ↦ hear json net q r.1 (receive_loop json net fuel still (suc i) r.1)
        ])
        e)

  pub receive_loop-none :
      (fuel : ℕ) (still : ℕ → Bool) (i : ℕ) (s : net.State)
      → (net.receive s).0 ≡ none
      → (receive_loop json net (suc fuel) still i s).messages ≡ []
  unfolding receive_loop
  receive_loop-none fuel still i s e = elim (Bool-cases (still i && net.is_connected s)) [
    | inl goes_on ↦ rw (goes_on, e) refl
    | inr over ↦ rw over refl
  ]

  receive_loop-ends :
      (fuel : ℕ) (still : ℕ → Bool) (i : ℕ) (s : net.State)
      → net.pending s < fuel
      → (receive_loop json net fuel still i s).end ≢ out_of_fuel
  unfolding receive_loop
  receive_loop-ends zero still i s enough = elim enough [ ]
  receive_loop-ends (suc fuel) still i s enough =
      elim (Bool-cases (still i && net.is_connected s)) [
        | inr over ↦ rw over (λ y. cc)
        | inl goes_on ↦ elim (Option-cases (net.receive s).0) [
          | inl e ↦ rw (goes_on, e) (λ y. cc)
          | inr (p, e) ↦
              rw (goes_on, e)
                (hear-ends p (net.receive s).1
                  (receive_loop json net fuel still (suc i) (net.receive s).1)
                  (receive_loop-ends fuel still (suc i) (net.receive s).1
                    (omega (arith, enough, net.receive-pending p s e))))
        ]
      ]

  -- The receive loop comes to an end, whatever arrives: a loop that is not stopped receives until a
  -- reception fails.
  pub start_receiving-ends :
      (still : ℕ → Bool) (s : net.State) → (start_receiving json net still s).end ≢ out_of_fuel
  unfolding start_receiving
  start_receiving-ends still s = receive_loop-ends (suc (net.pending s)) still 0 s (omega arith)
