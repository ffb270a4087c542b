-- ===== src/Tests/Program.antt =====
-- The life of the server at concrete answers of the kernel.
use cpp_socket_chat.Prelude.{true, some, [], ◌∷◌, pos}
use cpp_socket_chat.Server.Epoll.{interrupted}
use cpp_socket_chat.Server.Epoll
use cpp_socket_chat.Server.Events.{accepted, ended}
use cpp_socket_chat.Server.Program.{Kernel, ready, task, run, fresh_program}
use cpp_socket_chat.Server.Program.Serves.{Serves, run-Serves}
use cpp_socket_chat.Tests.Toy.{toy}

abbrev well : Kernel
well = record {
  sockets = record { socket = some 3; bound = true; listening = true; flags = some 2; set = true };
  epoll_create = some 4;
  accepts = true;
}

run-Serves_example :
    Serves toy
      (λ n. n)
      well
      (run toy
        (λ n. n)
        (Epoll.ready (ready 3 (accepted 7 []) true ended ∷ (task [] ∷ [])) ∷ (interrupted ∷ []))
        well
        (fresh_program (pos 8877)))
run-Serves_example =
    run-Serves toy (λ n. n)
      (Epoll.ready (ready 3 (accepted 7 []) true ended ∷ (task [] ∷ [])) ∷ (interrupted ∷ []))
      (pos 8877) well
