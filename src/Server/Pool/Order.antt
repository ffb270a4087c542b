-- ===== src/Server/Pool/Order.antt =====
-- The order in which tasks are taken.
use cpp_socket_chat.Prelude.{
  ℕ, Option, none, some, List, [], ◌∷◌, ◌++◌, ◌≡◌, refl, sym, ap, ◌∙◌, append_assoc, append-nil,
  subst,
}
use cpp_socket_chat.Server.Pool.{
  Worker, looking, waiting, running, ThreadPool, Action, enqueue, look, pop, finish, shut_down,
  start_pool, look_as, pop_as, finish_as, step, run,
}

module _ {T : Type 0} where
  -- The tasks that an action enqueues, and those that a list of actions does.
  abbrev added : Action T → List T
  added (enqueue t) = t ∷ []
  added _ = []

  abbrev pub enqueued : List (Action T) → List T
  enqueued [] = []
  enqueued (a ∷ more) = added a ++ enqueued more

  -- All tasks, the taken ones first.
  abbrev all_tasks : ThreadPool T → List T
  all_tasks p = p.taken ++ p.task_queue

  -- If there is a next state, its tasks are these.
  abbrev Holds : List T → Option (ThreadPool T) → Type 0
  Holds ts none = Unit
  Holds ts (some q) = all_tasks q ≡ ts

  look_as-Holds : (i : ℕ) (w : Worker T) (p : ThreadPool T) → Holds (all_tasks p) (look_as i w p)
  unfolding look_as
  look_as-Holds i looking p = refl
  look_as-Holds i _ p = tt

  pop_as-Holds :
      (i : ℕ) (w : Worker T) (ts : List T) (p : ThreadPool T)
      → Holds (p.taken ++ ts) (pop_as i w ts p)
  unfolding pop_as
  pop_as-Holds i waiting (t ∷ rest) p = append_assoc p.taken (t ∷ []) rest
  pop_as-Holds i _ _ p = tt

  finish_as-Holds :
      (i : ℕ) (w : Worker T) (p : ThreadPool T) → Holds (all_tasks p) (finish_as i w p)
  unfolding finish_as
  finish_as-Holds i (running t) p = refl
  finish_as-Holds i _ p = tt

  step-Holds : (a : Action T) (p : ThreadPool T) → Holds (all_tasks p ++ added a) (step a p)
  unfolding step
  step-Holds (enqueue t) p = sym (append_assoc p.taken p.task_queue (t ∷ []))
  step-Holds (look i) p = rw append-nil (look_as-Holds i (p.workers i) p)
  step-Holds (pop i) p = rw append-nil (pop_as-Holds i (p.workers i) p.task_queue p)
  step-Holds (finish i) p = rw append-nil (finish_as-Holds i (p.workers i) p)
  step-Holds shut_down p = sym (append-nil (all_tasks p))

  then-Holds :
      (ts added enqueued : List T) (o : Option (ThreadPool T))
      (k : ThreadPool T → Option (ThreadPool T))
      → Holds (ts ++ added) o
      → ((q : ThreadPool T) → Holds (all_tasks q ++ enqueued) (k q))
      → Holds (ts ++ (added ++ enqueued)) (elim o [ none ↦ none | some q ↦ k q ])
  then-Holds ts added enqueued none k h next = tt
  then-Holds ts added enqueued (some q) k h next =
      subst (λ us. Holds us (k q)) (ap (λ us. us ++ enqueued) h ∙ append_assoc ts added enqueued)
        (next q)

  run-Holds :
      (acts : List (Action T)) (p : ThreadPool T)
      → Holds (all_tasks p ++ enqueued acts) (run acts p)
  unfolding run
  run-Holds [] p = sym (append-nil (all_tasks p))
  run-Holds (a ∷ more) p =
      then-Holds (all_tasks p) (added a) (enqueued more) (step a p) (run more) (step-Holds a p)
        λ q. run-Holds more q

  -- However the workers take turns, the tasks are taken in the order in which they were enqueued, each
  -- once: those that were taken, followed by those in the queue, are those that were enqueued.
  pub run-enqueued :
      (n : ℕ) (acts : List (Action T)) (p : ThreadPool T)
      → run acts (start_pool n) ≡ some p
      → p.taken ++ p.task_queue ≡ enqueued acts
  unfolding start_pool
  run-enqueued n acts p e = subst (Holds (enqueued acts)) e (run-Holds acts (start_pool n))
