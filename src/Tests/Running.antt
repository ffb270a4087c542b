-- ===== src/Tests/Running.antt =====
-- A client connects to a running server and sends a packet, which a worker takes and handles.
use cpp_socket_chat.Prelude.{ℕ, ◌≡◌, refl, false, true, [], ◌∷◌}
use cpp_socket_chat.Server.Events.{accepted, refused, received, ended}
use cpp_socket_chat.Server.Threads.Safe.{IsKept}
use cpp_socket_chat.Server.Threads.Running.{
  Running, Moves, here, next, event, begin, turn, running-IsKept, started,
}
use cpp_socket_chat.Server.State.Invariant.{Inv}
use cpp_socket_chat.Server.Threads.Serial.{
  thread_at, Serial, unmoved, serve, task, at_end, on, Serial-Inv,
}
use cpp_socket_chat.Protocol.{payload_text}
use cpp_socket_chat.Server.Handlers.{has_field}
use cpp_socket_chat.Server.Threads
use cpp_socket_chat.Server.Threads.{
  finished, conclude, conclude_with, ◌>>=◌, lift, refuse, send, writes,
}
use cpp_socket_chat.Server.Threads.Handlers.{task_of, nickname_body}
use cpp_socket_chat.Tests.Toy.{toy}
use cpp_socket_chat.Tests.Events.{connects, sends}

abbrev dis : ℕ → ℕ
dis n = n

-- The server behind these steps, and the steps.
abbrev answers : (r : Running) × Moves toy dis (started 3) r
answers = (
  _,
  next
      (next
        (next (next here (event 3 (accepted 7 []) true ended connects))
          (event 7 refused false (received 0 (101 ∷ 0 ∷ 1 ∷ 0 ∷ [])) sends))
        (begin [] 7 _ [] refl))
      (turn 0),
)

running-IsKept_example : IsKept answers.0.system.server
running-IsKept_example = running-IsKept {json = toy} {dis = dis} 3 answers.1

-- Its only thread has sent a refusal, and is finished.
answered : thread_at 0 answers.0.threads ≡ finished
unfolding thread_at Threads.turn task_of conclude conclude_with nickname_body ◌>>=◌ lift refuse send
    writes has_field toy payload_text
answered = refl

-- The same as a serial run.
abbrev answers_serially : (r : Running) × Serial toy dis (started 3) r
answers_serially = (
  answers.0,
  task [] 7 _ []
      (serve 7 refused false (received 0 (101 ∷ 0 ∷ 1 ∷ 0 ∷ []))
        (serve 3 (accepted 7 []) true ended unmoved connects) sends)
      refl (on (at_end answered)),
)

Serial-Inv_example : Inv answers_serially.0.system.server
Serial-Inv_example = Serial-Inv {json = toy} {dis = dis} 3 answers_serially.1
