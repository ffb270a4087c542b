-- ===== src/Server/Pool.antt =====
-- ThreadPool (server/src/concurrency/ThreadPool.cpp) and its SafeQueue
-- (server/include/containers/SafeQueue.h). The pool is run by a list of actions, in the order in which
-- the threads take them; an action that cannot be taken in a state gives `none`. The mutex of the queue
-- makes `push` and `wait_and_pop` one action each; a worker that waits goes on only when the queue is
-- not empty, as the predicate of its wait says, whoever notifies it.
pub mod Order
pub mod Shutdown
use cpp_socket_chat.Prelude.{
  ℕ, ltb, nat_beq, Bool, true, false, Option, none, some, List, [], ◌∷◌, ◌++◌, if◌then◌else◌,
}

-- Where a worker is: at the head of its loop, in wait_and_pop, in a task, or behind the loop.
pub data Worker (T : Type 0) : Type 0 where
  looking waiting : Worker T
  running : T → Worker T
  finished : Worker T

-- `taken` lists the tasks that left the queue.
pub record ThreadPool (T : Type 0) : Type 0 where
  pub workers : ℕ → Worker T
  pub task_queue : List T
  pub stop : Bool
  pub taken : List T

pub data Action (T : Type 0) : Type 0 where
  enqueue : T → Action T
  look pop finish : ℕ → Action T
  shut_down : Action T

module _ {T : Type 0} where
  -- ThreadPool::ThreadPool
  unfoldable pub start_pool : ℕ → ThreadPool T
  start_pool num_threads = record {
    workers = λ i. if ltb i num_threads then looking else finished;
    task_queue = [];
    stop = false;
    taken = [];
  }

  abbrev pub move : ℕ → Worker T → ThreadPool T → ThreadPool T
  move i w p = record p { workers = λ j. if nat_beq i j then w else p.workers j }

  -- while (!m_stop)
  look_as : ℕ → Worker T → ThreadPool T → Option (ThreadPool T)
  look_as i looking p = some (move i (if p.stop then finished else waiting) p)
  look_as i _ p = none

  -- m_task_queue.wait_and_pop(task)
  pop_as : ℕ → Worker T → List T → ThreadPool T → Option (ThreadPool T)
  pop_as i waiting (t ∷ rest) p =
      some (move i (running t) (record p { task_queue = rest; taken = p.taken ++ t ∷ [] }))
  pop_as i _ _ p = none

  -- The end of task().
  finish_as : ℕ → Worker T → ThreadPool T → Option (ThreadPool T)
  finish_as i (running t) p = some (move i looking p)
  finish_as i _ p = none

  -- `shut_down` is the beginning of ThreadPool::~ThreadPool: it notifies the workers, and then joins
  -- each of them.
  unfoldable pub step : Action T → ThreadPool T → Option (ThreadPool T)
  unfolding look_as pop_as finish_as
  step (enqueue t) p = some (record p { task_queue = p.task_queue ++ t ∷ [] })
  step (look i) p = look_as i (p.workers i) p
  step (pop i) p = pop_as i (p.workers i) p.task_queue p
  step (finish i) p = finish_as i (p.workers i) p
  step shut_down p = some (record p { stop = true })

  unfoldable pub run : List (Action T) → ThreadPool T → Option (ThreadPool T)
  run [] p = some p
  run (a ∷ more) p = elim (step a p) [ none ↦ none | some q ↦ run more q ]
