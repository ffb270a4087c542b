-- ===== src/Client/Ui/Receiver/Alone.antt =====
-- The thread of the receive loop, when the other thread leaves the connection to it.
use cpp_socket_chat.Prelude.{
  ℕ, zero, suc, ◌*◌, ◌≤◌, ◌<◌, ◌≡◌, refl, inl, inr, true, false, Option, none, some, List, [], ◌∷◌,
  arith, Bool-cases,
}
use cpp_socket_chat.Json.{Json, Result-cases}
use cpp_socket_chat.Protocol.{Packet}
use cpp_socket_chat.Client.Network.{INetworkClient}
use cpp_socket_chat.Client.Packets.{Message, format_for_display, parse_message_packet}
use cpp_socket_chat.Client.Chat.{
  is_shown, Heard, LoopEnd, ended, raised, out_of_fuel, hear, receive_loop, start_receiving,
}
use cpp_socket_chat.Client.Ui.Streams.{Console}
use cpp_socket_chat.Client.Ui.Receiver.{
  Shared, starting, looking, receiving, finished, on_message_received, report_end, finish, show,
  heard, receive_step, join_rounds, join,
}
use cpp_socket_chat.Client.Ui.{◌>>=◌, Run, done, stopped, terminated, out_of_rounds}

-- The console behind messages that are shown one after another.
unfoldable pub show_all : List Message → Console → Console
show_all [] c = c
show_all (m ∷ ms) c = show_all ms (on_message_received (format_for_display false m) c)

module _ {json : Json} {net : INetworkClient} where
  -- What the thread leaves, by what the loop heard and how it ended.
  unfoldable ending_as : LoopEnd → net.State → Console → Run (Shared json net)
  ending_as ended n c =
      done
        (record { console = report_end c; network = n; is_receiving = false; receiver = finished })
  ending_as (raised e) n c = stopped (terminated e)
  ending_as out_of_fuel n c = stopped out_of_rounds

  unfoldable pub ending : Heard json net → Console → Run (Shared json net)
  unfolding ending_as
  ending h c = ending_as h.end h.network (show_all h.messages c)

  join_rounds-finished :
      (n : ℕ) (s : Shared json net) → s.receiver ≡ finished → join_rounds json net n s ≡ done s
  unfolding join_rounds
  join_rounds-finished zero s h = simp h
  join_rounds-finished (suc n) s h = simp h

  -- The rest of a loop behind Receive.
  heard-ending :
      (r : Option Packet × net.State) (s : net.State) (c : Console) (n : ℕ) (rest : Heard json net)
      → ((p : Packet) (c' : Console)
          → r.0 ≡ some p
          → join_rounds json net n
              (record { console = c'; network = r.1; is_receiving = true; receiver = looking })
            ≡ ending rest c')
      → (heard json net r
            (record { console = c; network = s; is_receiving = true; receiver = receiving })
          >>= join_rounds json net n)
        ≡ ending
            (elim r.0 [
              | none ↦ record { messages = []; network = r.1; end = ended }
              | some p ↦ hear json net p r.1 rest
            ])
            c
  unfolding heard ending ending_as finish show_all show hear
  heard-ending (none, k) s c n rest ih = join_rounds-finished n _ refl
  heard-ending (some p, k) s c n rest ih = elim (Bool-cases (is_shown p.type)) [
    | inl shown ↦ elim (Result-cases (parse_message_packet json p)) [
      | inl (m, e) ↦ rw (shown, e) (ih p (on_message_received (format_for_display false m) c) refl)
      | inr (x, e) ↦ rw (shown, e) refl
    ]
    | inr hidden ↦ rw hidden (ih p c refl)
  ]

  loop-ending :
      (fuel n i : ℕ) (s : net.State) (c : Console)
      → net.pending s < fuel
      → 2 * fuel ≤ n
      → join_rounds json net n
          (record { console = c; network = s; is_receiving = true; receiver = looking })
        ≡ ending (receive_loop json net fuel (λ k. true) i s) c
  unfolding receive_loop join_rounds receive_step finish ending ending_as show_all
  loop-ending (suc fuel) (suc (suc n)) i s c falls enough = elim (Bool-cases (net.is_connected s)) [
    | inl on ↦ rw on (
        heard-ending (net.receive s) s c n _ λ p c' e.
          loop-ending fuel n (suc i) (net.receive s).1 c'
            (omega (arith, falls, net.receive-pending p s e)) (omega (arith, enough)))
    | inr off ↦ rw off refl
  ]
  loop-ending zero n i s c falls enough = absurd (omega (arith, falls))
  loop-ending (suc fuel) zero i s c falls enough = absurd (omega (arith, enough))
  loop-ending (suc fuel) (suc zero) i s c falls enough = absurd (omega (arith, enough))

  -- From its start to its end, the thread shows the messages that StartReceiving gives to its callback,
  -- in their order, and then says that the connection has ended; an exception that the loop lets out
  -- ends the program.
  pub join-start_receiving :
      (s : Shared json net)
      → s.receiver ≡ starting
      → join json net s ≡ ending (start_receiving json net (λ i. true) s.network) s.console
  unfolding join start_receiving join_rounds receive_step
  join-start_receiving s h = rw h (
      loop-ending (suc (net.pending s.network)) (suc (suc (2 * net.pending s.network))) 0 s.network
        s.console (omega arith) (omega arith))
