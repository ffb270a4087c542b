-- ===== src/Server/Program/Serves.antt =====
-- What Server::run comes to.
use cpp_socket_chat.Prelude.{
  ℕ, ℤ, pos, ◌≡◌, refl, Bool, true, false, Option, none, some, Option-cases, inl, inr, List, [],
  ◌∷◌, ◌&&◌,
}
use cpp_socket_chat.Json.{Json}
use cpp_socket_chat.Server.Listener.{SocketCalls, initialize, make_nonblocking, open_socket}
use cpp_socket_chat.Members.{member, add}
use cpp_socket_chat.Server.Epoll
use cpp_socket_chat.Server.Epoll.{
  EpollManager, new_epoll_manager, Wait, Waiting, waiting, undefined, wait, call_back, interrupted,
  failed,
}
use cpp_socket_chat.Server.Events.{System, handle_event, start}
use cpp_socket_chat.Server.Events.Reach
use cpp_socket_chat.Server.Events.Reach.{Reach, here, next}
use cpp_socket_chat.Server.Program.{
  Program, Event, ready, task, on_event, RunResult, fresh_program, listener_failed, epoll_failed,
  add_failed, loops, Kernel, run, watching, polling, listening,
}

-- The loop waits again, in a state that the server can reach, or something undefined has happened; it
-- has not returned.
pub data Runs (json : Json) (dis : ℕ → ℕ) (s : System) : Waiting System → Type 0 where
  serves : {t : System} → Reach json dis s t → Runs json dis s (waiting t)
  breaks : Runs json dis s undefined

-- Every call of Listener::initialize succeeds.
abbrev pub opens : SocketCalls → Bool
opens calls = calls.bound && (calls.listening && make_nonblocking calls.flags calls.set)

-- An early return, with its reason; or the loop, of a server whose listener is watched.
pub data Serves (json : Json) (dis : ℕ → ℕ) (k : Kernel) : RunResult → Type 0 where
  no_socket : {p : Program} → k.sockets.socket ≡ none → Serves json dis k (listener_failed p)
  no_listener : {p : Program} → opens k.sockets ≡ false → Serves json dis k (listener_failed p)
  no_epoll : {p : Program} → k.epoll_create ≡ none → Serves json dis k (epoll_failed p)
  no_watch : {p : Program} → k.accepts ≡ false → Serves json dis k (add_failed p)
  in_loop :
      {p : Program} {w : Waiting System} (fd : ℕ)
      → k.sockets.socket ≡ some fd
      → p.listener.socket_fd ≡ pos fd
      → p.epoll_manager.watched ≡ fd ∷ []
      → Runs json dis (start fd) w
      → Serves json dis k (loops w p)

-- A state, if there is one, that can be reached.
unfoldable Reached : Json → (ℕ → ℕ) → System → Option System → Type 0
Reached json dis s none = Unit
Reached json dis s (some u) = Reach json dis s u

module _ {json : Json} {dis : ℕ → ℕ} {s : System} where
  on_event-Reached :
      (e : Event) (t : System) → Reach json dis s t → Reached json dis s (on_event json dis e t)
  unfolding on_event Reached
  on_event-Reached (ready fd conn registered result) t r =
      elim (Option-cases (handle_event fd conn registered result t)) [
        | inl nothing ↦ rw nothing tt
        | inr (u, e) ↦ rw e (next r (Reach.event fd conn registered result e))
      ]
  on_event-Reached (task timestamp) t r = next r (Reach.task timestamp)

  called-Reached :
      (es : List Event) (o : Option System)
      → Reached json dis s o
      → ((u : System)
          → Reach json dis s u
          → Reached json dis s (call_back (on_event json dis) es u))
      → Reached json dis s (elim o [ none ↦ none | some u ↦ call_back (on_event json dis) es u ])
  unfolding Reached
  called-Reached es none h ih = tt
  called-Reached es (some u) h ih = ih u h

  call_back-Reached :
      (es : List Event) (t : System)
      → Reach json dis s t
      → Reached json dis s (call_back (on_event json dis) es t)
  unfolding call_back Reached
  call_back-Reached [] t r = r
  call_back-Reached (e ∷ es) t r =
      called-Reached es (on_event json dis e t) (on_event-Reached e t r) (call_back-Reached es)

  waited-Runs :
      (waits : List (Wait Event)) (o : Option System)
      → Reached json dis s o
      → ((u : System)
          → Reach json dis s u
          → Runs json dis s (wait (on_event json dis) waits true u))
      → Runs json dis s
          (elim o [ none ↦ undefined | some u ↦ wait (on_event json dis) waits true u ])
  unfolding Reached
  waited-Runs waits none h ih = breaks
  waited-Runs waits (some u) h ih = ih u h

  wait-Runs :
      (waits : List (Wait Event)) (t : System)
      → Reach json dis s t
      → Runs json dis s (wait (on_event json dis) waits true t)
  unfolding wait
  wait-Runs [] t r = serves r
  wait-Runs (Epoll.ready es ∷ waits) t r =
      waited-Runs waits (call_back (on_event json dis) es t) (call_back-Reached es t r)
        (wait-Runs waits)
  wait-Runs (interrupted ∷ waits) t r = wait-Runs waits t r
  wait-Runs (failed ∷ waits) t r = wait-Runs waits t r

-- The kernel's answers, one by one.
abbrev pub answers : Option ℕ → Bool → Bool → Option ℕ → Bool → Option ℕ → Bool → Kernel
answers socket bound listening flags set epoll_create accepts = record {
  sockets = record {
    socket = socket;
    bound = bound;
    listening = listening;
    flags = flags;
    set = set;
  };
  epoll_create = epoll_create;
  accepts = accepts;
}

module _ (json : Json) (dis : ℕ → ℕ) (waits : List (Wait Event)) (port : ℤ) where
  runs :
      (socket : Option ℕ) (bound listens : Bool) (flags : Option ℕ) (set : Bool)
      (epoll_create : Option ℕ) (accepts : Bool)
      → Serves json dis (answers socket bound listens flags set epoll_create accepts) (
          run json dis waits
            (answers socket bound listens flags set epoll_create accepts)
            (fresh_program port))
  unfolding run listening polling watching initialize open_socket make_nonblocking Epoll.initialize
      Epoll.add_fd member add
  runs none bound listens flags set epoll_create accepts = no_socket refl
  runs (some fd) false listens flags set epoll_create accepts = no_listener refl
  runs (some fd) true false flags set epoll_create accepts = no_listener refl
  runs (some fd) true true none set epoll_create accepts = no_listener refl
  runs (some fd) true true (some flags) false epoll_create accepts = no_listener refl
  runs (some fd) true true (some flags) true none accepts = no_epoll refl
  runs (some fd) true true (some flags) true (some epoll_fd) false = no_watch refl
  runs (some fd) true true (some flags) true (some epoll_fd) true =
      in_loop fd refl refl refl (wait-Runs waits (start fd) here)

  -- Whatever the kernel answers, Server::run returns early, since one of its calls failed; or it is in
  -- the event loop, with the listener watched: then the loop has not returned, however often it waited,
  -- and unless a callback was undefined behaviour, the state is one that the server can reach.
  pub run-Serves : (k : Kernel) → Serves json dis k (run json dis waits k (fresh_program port))
  run-Serves k =
      runs k.sockets.socket k.sockets.bound k.sockets.listening k.sockets.flags k.sockets.set
        k.epoll_create k.accepts
