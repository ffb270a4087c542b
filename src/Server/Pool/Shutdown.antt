-- ===== src/Server/Pool/Shutdown.antt =====
-- A worker that waits when the pool is destroyed.
use cpp_socket_chat.Prelude.{
  ℕ, nat_beq_iff, Bool, true, false, Option, none, some, List, [], ◌∷◌, ◌≡◌, refl, arith, subst,
}
use cpp_socket_chat.Server.Pool.{
  Worker, looking, waiting, running, ThreadPool, Action, enqueue, look, pop, finish, shut_down,
  look_as, pop_as, finish_as, step, run,
}

module _ {T : Type 0} where
  -- No task is enqueued, as behind the end of the event loop.
  abbrev pub no_enqueue : List (Action T) → Bool
  no_enqueue [] = true
  no_enqueue (enqueue t ∷ more) = false
  no_enqueue (_ ∷ more) = no_enqueue more

  -- The queue is empty, and the worker waits.
  abbrev Stuck : ℕ → Option (ThreadPool T) → Type 0
  Stuck i none = Unit
  Stuck i (some p) = (p.workers i ≡ waiting) × (p.task_queue ≡ [])

  look_as-Stuck :
      (i j : ℕ) (w : Worker T) (p : ThreadPool T)
      → p.workers j ≡ w
      → Stuck i (some p)
      → Stuck i (look_as j w p)
  unfolding look_as
  look_as-Stuck i j looking p e (h, q) = (ground (arith, e, h, nat_beq_iff j i), q)
  look_as-Stuck i j _ p e h = tt

  finish_as-Stuck :
      (i j : ℕ) (w : Worker T) (p : ThreadPool T)
      → p.workers j ≡ w
      → Stuck i (some p)
      → Stuck i (finish_as j w p)
  unfolding finish_as
  finish_as-Stuck i j (running t) p e (h, q) = (ground (arith, e, h, nat_beq_iff j i), q)
  finish_as-Stuck i j _ p e h = tt

  pop_as-empty :
      (i j : ℕ) (w : Worker T) (ts : List T) (p : ThreadPool T)
      → ts ≡ []
      → Stuck i (pop_as j w ts p)
  unfolding pop_as
  pop_as-empty i j waiting (t ∷ rest) p e = absurd (cc e)
  pop_as-empty i j _ _ p e = tt

  step-Stuck :
      (i : ℕ) (a : Action T) (p : ThreadPool T)
      → no_enqueue (a ∷ []) ≡ true
      → Stuck i (some p)
      → Stuck i (step a p)
  unfolding step
  step-Stuck i (enqueue t) p quiet h = absurd (cc quiet)
  step-Stuck i (look j) p quiet h = look_as-Stuck i j (p.workers j) p refl h
  step-Stuck i (pop j) p quiet h = pop_as-empty i j (p.workers j) p.task_queue p h.1
  step-Stuck i (finish j) p quiet h = finish_as-Stuck i j (p.workers j) p refl h
  step-Stuck i shut_down p quiet h = h

  quiet_first :
      (a : Action T) (more : List (Action T))
      → no_enqueue (a ∷ more) ≡ true
      → (no_enqueue (a ∷ []) ≡ true) × (no_enqueue more ≡ true)
  quiet_first (enqueue t) more h = absurd (cc h)
  quiet_first (look i) more h = (refl, h)
  quiet_first (pop i) more h = (refl, h)
  quiet_first (finish i) more h = (refl, h)
  quiet_first shut_down more h = (refl, h)

  then-Stuck :
      (i : ℕ) (o : Option (ThreadPool T)) (k : ThreadPool T → Option (ThreadPool T))
      → Stuck i o
      → ((q : ThreadPool T) → Stuck i (some q) → Stuck i (k q))
      → Stuck i (elim o [ none ↦ none | some q ↦ k q ])
  then-Stuck i none k h next = tt
  then-Stuck i (some q) k h next = next q h

  run-Stuck :
      (i : ℕ) (acts : List (Action T)) (p : ThreadPool T)
      → no_enqueue acts ≡ true
      → Stuck i (some p)
      → Stuck i (run acts p)
  unfolding run
  run-Stuck i [] p quiet h = h
  run-Stuck i (a ∷ more) p quiet h =
      let (first, rest) = quiet_first a more quiet in
      then-Stuck i (step a p) (run more) (step-Stuck i a p first h) λ q s. run-Stuck i more q rest s

  -- A worker that waits for a task in an empty queue goes on waiting, whatever the pool's threads do, if
  -- no task is enqueued: the pool may be shut down and all workers notified, and the worker does not end.
  pub waits_forever :
      (i : ℕ) (acts : List (Action T)) (p q : ThreadPool T)
      → p.workers i ≡ waiting
      → p.task_queue ≡ []
      → no_enqueue acts ≡ true
      → run acts p ≡ some q
      → q.workers i ≡ waiting
  waits_forever i acts p q h empty quiet e =
      (subst (Stuck i) e (run-Stuck i acts p quiet (h, empty))).0
