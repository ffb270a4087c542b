-- ===== src/Client/Ui.antt =====
-- The console program of the client (client/src/ui). A part of it returns, or ends the program: by an
-- exception that is not caught where it is thrown, or by undefined behaviour.
pub mod Streams
pub mod Display
pub mod Receiver
pub mod Session
pub mod Lobby
pub mod ChatClient
use cpp_socket_chat.Json.{JsonError}

pub data Stop : Type 0 where
  -- A copy past the end of a `Packet`.
  overflowed : Stop
  -- The value of a variable that was never written is used.
  unset : Stop
  raised : JsonError → Stop
  -- std::terminate, by an exception in the receiver's thread.
  terminated : JsonError → Stop
  -- std::terminate, by a thread that is started in the place of one that was not joined.
  thread_replaced : Stop
  -- The rounds that the model was given are used up.
  out_of_rounds : Stop

pub data Run (A : Type 0) : Type 0 where
  done : A → Run A
  stopped : Stop → Run A

-- What comes next, if the program goes on.
infixl 5 ◌>>=◌
abbrev pub ◌>>=◌ : {A B : Type 0} → Run A → (A → Run B) → Run B
done a >>= f = f a
stopped e >>= f = stopped e
