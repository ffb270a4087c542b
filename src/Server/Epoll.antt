-- ===== src/Server/Epoll.antt =====
-- EpollManager (server/src/io/EpollManager.cpp). `watched` is the interest list that the kernel keeps.
use cpp_socket_chat.Prelude.{
  ℕ, ℤ, pos, negsuc, Bool, true, false, not, ◌&&◌, Option, none, some, List, [], ◌∷◌, ◌++◌, nat_eq,
  if◌then◌else◌,
}
use cpp_socket_chat.Members.{member, add, remove}

pub record EpollManager : Type 0 where
  pub epoll_fd : ℤ
  pub is_running : Bool
  pub watched : List ℕ

-- EpollManager::EpollManager
abbrev pub new_epoll_manager : EpollManager
new_epoll_manager = record { epoll_fd = negsuc 0; is_running = false; watched = [] }

-- EpollManager::initialize, from the result of epoll_create1
unfoldable pub initialize : Option ℕ → EpollManager → Bool × EpollManager
initialize none m = (false, record m { epoll_fd = negsuc 0 })
initialize (some fd) m = (true, record m { epoll_fd = pos fd; is_running = true })

-- EpollManager::addFd: the kernel refuses a descriptor that is watched already, and may refuse others.
unfoldable pub add_fd : Bool → ℕ → EpollManager → Bool × EpollManager
add_fd accepts fd m =
    if accepts && not (member fd m.watched)
    then (true, record m { watched = add fd m.watched })
    else (false, m)

-- EpollManager::removeFd: the kernel refuses a descriptor that is not watched.
unfoldable pub remove_fd : ℕ → EpollManager → Bool × EpollManager
remove_fd fd m =
    if member fd m.watched then (true, record m { watched = remove fd m.watched }) else (false, m)

-- EpollManager::stop
unfoldable pub stop : EpollManager → EpollManager
stop m = record m { is_running = false }

close_epoll : ℤ → List ℕ → List ℕ
close_epoll (pos fd) closes = closes ++ fd ∷ []
close_epoll (negsuc n) closes = closes

-- EpollManager::~EpollManager
unfoldable pub destroy : EpollManager → List ℕ → List ℕ
unfolding close_epoll
destroy m closes = close_epoll m.epoll_fd closes

-- What epoll_wait returns: the events of at most MAX_EVENTS descriptors; -1 with EINTR; or -1 with
-- another error.
pub data Wait (E : Type 0) : Type 0 where
  ready : List E → Wait E
  interrupted failed : Wait E

-- The loop has returned, or waits again, or a callback was undefined behaviour.
pub data Waiting (A : Type 0) : Type 0 where
  returned : A → Waiting A
  waiting : A → Waiting A
  undefined : Waiting A

module _ {E A : Type 0} (callback : E → A → Option A) where
  -- for (int i = 0; i < num_events; ++i) callback(events[i].data.fd, events[i].events);
  unfoldable pub call_back : List E → A → Option A
  call_back [] a = some a
  call_back (e ∷ es) a = elim (callback e a) [ none ↦ none | some b ↦ call_back es b ]

  -- EpollManager::wait, for what a series of calls of epoll_wait returns. No callback writes
  -- `is_running`.
  unfoldable pub wait : List (Wait E) → Bool → A → Waiting A
  unfolding call_back
  wait waits false a = returned a
  wait [] true a = waiting a
  wait (ready es ∷ waits) true a = elim (call_back es a) [
    | none ↦ undefined
    | some b ↦ wait waits true b
  ]
  wait (interrupted ∷ waits) true a = wait waits true a
  wait (failed ∷ waits) true a = wait waits true a
