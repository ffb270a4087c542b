-- ===== src/Tests/Pool.antt =====
-- A pool of two workers.
use cpp_socket_chat.Prelude.{ℕ, ◌≡◌, refl, true, some, List, [], ◌∷◌, ◌++◌}
use cpp_socket_chat.Server.Pool.{
  waiting, running, ThreadPool, Action, enqueue, look, pop, shut_down, start_pool, move, step, run,
}
use cpp_socket_chat.Server.Pool.Order
use cpp_socket_chat.Server.Pool.Shutdown

-- The first worker takes the first of two tasks; the other only comes to wait.
abbrev turns : List (Action ℕ)
turns = look 0 ∷ enqueue 11 ∷ look 1 ∷ pop 0 ∷ enqueue 12 ∷ []

abbrev busy : ThreadPool ℕ
busy = record (move 0 (running 11) (move 1 waiting (move 0 waiting (start_pool 2)))) {
  task_queue = 12 ∷ [];
  taken = 11 ∷ [];
}

busy_reached : run turns (start_pool 2) ≡ some busy
unfolding run step start_pool
busy_reached = refl

run-enqueued_example : busy.taken ++ busy.task_queue ≡ 11 ∷ 12 ∷ []
run-enqueued_example = Order.run-enqueued 2 turns busy busy_reached

-- Both workers wait, and the pool is destroyed.
abbrev idle : ThreadPool ℕ
idle = move 1 waiting (move 0 waiting (start_pool 2))

abbrev stopped : ThreadPool ℕ
stopped = record idle { stop = true }

stopped_reached : run (shut_down ∷ []) idle ≡ some stopped
unfolding run step
stopped_reached = refl

waits_forever_example : stopped.workers 1 ≡ waiting
unfolding start_pool
waits_forever_example =
    Shutdown.waits_forever 1 (shut_down ∷ []) idle stopped refl refl refl stopped_reached
