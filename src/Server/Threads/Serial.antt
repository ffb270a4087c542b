-- ===== src/Server/Threads/Serial.antt =====
-- The running server when its tasks do not overlap: a thread that has begun takes its steps until it is
-- finished, and no other step comes between them.
use cpp_socket_chat.Prelude.{
  ℕ, Bool, zero, suc, some, List, [], ◌∷◌, ◌++◌, Bytes, ◌≡◌, refl, sym, ap, ◌∙◌, subst, length,
}
use cpp_socket_chat.Json.{Json}
use cpp_socket_chat.Protocol.{Packet}
use cpp_socket_chat.Server.State.{Server}
use cpp_socket_chat.Server.State.Invariant.{Inv}
use cpp_socket_chat.Server.Events.{System, AcceptResult, RecvResult, handle_event}
use cpp_socket_chat.Server.Events.Reach.{Keeps, handle_event-Keeps, start-Inv}
use cpp_socket_chat.Server.Handlers.Dispatch.Invariant.{handle-Inv}
use cpp_socket_chat.Server.Threads
use cpp_socket_chat.Server.Threads.{Task, finished, call}
use cpp_socket_chat.Server.Threads.Handlers.{task_of}
use cpp_socket_chat.Server.Threads.Alone.{alone}
use cpp_socket_chat.Server.Threads.Alone.Whole.{alone-handle}
use cpp_socket_chat.Server.Threads.Running.{
  Running, Moves, here, next, event, begin, turn, begun, after_turn, started,
}

-- The i-th thread, or one that has ended.
unfoldable pub thread_at : ℕ → List Task → Task
thread_at i [] = finished
thread_at zero (t ∷ ts) = t
thread_at (suc i) (t ∷ ts) = thread_at i ts

-- The i-th thread takes steps until it is finished: the server is then `v`.
pub data Through (i : ℕ) (v : Running) : Running → Type 0 where
  at_end : thread_at i v.threads ≡ finished → Through i v v
  on :
      {r : Running}
      → Through i v (after_turn (Threads.turn i r.threads r.system.server) r)
      → Through i v r

module _ (json : Json) (dis : ℕ → ℕ) where
  pub data Serial (r : Running) : Running → Type 0 where
    unmoved : Serial r r
    serve :
        {u : Running} (fd : ℕ) (conn : AcceptResult) (registered : Bool) (result : RecvResult)
        {t : System}
        → Serial r u
        → handle_event fd conn registered result u.system ≡ some t
        → Serial r (record u { system = t })
    task :
        {u v : Running} (timestamp : Bytes) (fd : ℕ) (packet : Packet) (rest : List (ℕ × Packet))
        → Serial r u
        → u.system.tasks ≡ (fd, packet) ∷ rest
        → Through
            (length u.threads)
            v
            (begun (task_of json packet.type dis timestamp fd packet) rest u)
        → Serial r v

  Through-Moves :
      {i : ℕ} {r v u : Running} → Moves json dis r u → Through i v u → Moves json dis r v
  Through-Moves before (at_end e) = before
  Through-Moves {i} before (on after) = Through-Moves (next before (turn i)) after

  -- A serial run is one of the running server's.
  pub Serial-Moves : {r u : Running} → Serial r u → Moves json dis r u
  Serial-Moves unmoved = here
  Serial-Moves (serve fd conn registered result before e) =
      next (Serial-Moves before) (event fd conn registered result e)
  Serial-Moves (task timestamp fd packet rest before e through) =
      Through-Moves (next (Serial-Moves before) (begin timestamp fd packet rest e)) through

-- A step of the last thread.
abbrev stepped : Task → Server → Task
stepped finished s = finished
stepped (call f after) s = after s

abbrev changed : Task → Server → Server
changed finished s = s
changed (call f after) s = f s

turn-last :
    (ts : List Task) (t : Task) (s : Server)
    → Threads.turn (length ts) (ts ++ t ∷ []) s ≡ (ts ++ stepped t s ∷ [], changed t s)
unfolding Threads.turn
turn-last [] finished s = refl
turn-last [] (call f after) s = refl
turn-last (u ∷ ts) t s = rw (turn-last ts t s) refl

thread_at-last : (ts : List Task) (t : Task) → thread_at (length ts) (ts ++ t ∷ []) ≡ t
unfolding thread_at
thread_at-last [] t = refl
thread_at-last (u ∷ ts) t = thread_at-last ts t

alone-step : (t : Task) (s : Server) → alone (stepped t s) (changed t s) ≡ alone t s
unfolding alone
alone-step finished s = refl
alone-step (call f after) s = refl

-- The server behind a thread that went through is the one behind its task alone.
Through-alone :
    (ts : List Task) {v : Running} (t : Task) {r : Running}
    → r.threads ≡ ts ++ t ∷ []
    → Through (length ts) v r
    → v.system.server ≡ alone t r.system.server
unfolding alone
Through-alone ts t {r} e (at_end h) =
    rw (sym (thread_at-last ts t) ∙ ap (thread_at (length ts)) (sym e) ∙ h) refl
Through-alone ts t {r} e (on after) =
    let s = r.system.server in
    let step = ap (λ threads. Threads.turn (length ts) threads s) e ∙ turn-last ts t s in
    Through-alone ts (stepped t s) (ap (λ p. p.0) step) after
    ∙ ap (alone (stepped t s)) (ap (λ p. p.1) step)
    ∙ alone-step t s

module _ {json : Json} {dis : ℕ → ℕ} where
  Serial-keeps : {r u : Running} → Serial json dis r u → Inv r.system.server → Inv u.system.server
  Serial-keeps unmoved i = i
  Serial-keeps (serve {u} fd conn registered result before e) i =
      subst Keeps e (handle_event-Keeps fd conn registered result u.system (Serial-keeps before i))
  Serial-keeps (task {u} timestamp fd packet rest before e through) i =
      subst Inv
        (sym (
          Through-alone u.threads (task_of json packet.type dis timestamp fd packet) refl through
          ∙ alone-handle json dis timestamp fd packet u.system.server))
        (handle-Inv json dis timestamp fd packet u.system.server (Serial-keeps before i))

-- In a run of the server's event loop and worker threads in which tasks do not overlap, each thread going
-- from its first step to its last with no event and no other thread between: whatever the clients send
-- and however connections, receptions and tasks follow one another, this holds before and behind each
-- event and each task. No two authenticated clients have one nickname, and each of their nicknames is
-- registered; a client that has a room code is a member of that room; a room stands under its own code and
-- has no member twice, and there are a hundred at most; and what was sent fits a receiver's buffer.
pub Serial-Inv :
    {json : Json} {dis : ℕ → ℕ} (listener_fd : ℕ) {r : Running}
    → Serial json dis (started listener_fd) r
    → Inv r.system.server
Serial-Inv listener_fd m = Serial-keeps m (start-Inv listener_fd)
