-- ===== src/Client/Ui/Session/Threads.antt =====
-- The threads of a chat session: none is left at its end.
use cpp_socket_chat.Prelude.{
  ℕ, zero, suc, ◌≡◌, ◌≢◌, refl, inl, inr, Bool, true, false, not, Bool-cases, Option, none, some,
  List, [], ◌∷◌, Bytes, bytes, bytes_beq, ◌||◌, is_empty, if◌then◌else◌,
}
use cpp_socket_chat.Json.{Json, Result, ok, throw}
use cpp_socket_chat.Protocol.{Packet}
use cpp_socket_chat.Client.Packets.{Message, parse_message_packet}
use cpp_socket_chat.Client.Services
use cpp_socket_chat.Client.Services.{Outcome}
use cpp_socket_chat.Client.Chat.{is_shown, send_message}
use cpp_socket_chat.Client.Network.{INetworkClient}
use cpp_socket_chat.Client.Ui.Receiver.{
  Shared, Receiver, starting, looking, receiving, finished, show, heard, receive_step, is_finished,
  join_rounds, join,
}
use cpp_socket_chat.Client.Ui.Session.{
  Session, Main, Turn, left, testing, reading, exiting, chat_session, close_session, message_sent,
  on_input, main_as, step, run, main_thread, receiver_thread,
}
use cpp_socket_chat.Client.Ui.{◌>>=◌, Run, done, stopped, Stop, thread_replaced}

-- What holds of the result, unless the program is stopped by something else than a second thread.
pub data Returns {A : Type 0} (P : A → Type 0) : Run A → Type 0 where
  returns : {a : A} → P a → Returns P (done a)
  stops : {e : Stop} → e ≢ thread_replaced → Returns P (stopped e)

-- The program is not stopped by a second thread.
abbrev pub Goes : {A : Type 0} → Run A → Type 0
Goes = Returns (λ a. true ≡ true)

pub bind-Returns :
    {A B : Type 0} {P : A → Type 0} {Q : B → Type 0} (r : Run A) (f : A → Run B)
    → Returns P r
    → ((a : A) → P a → Returns Q (f a))
    → Returns Q (r >>= f)
bind-Returns (done a) f (returns p) next = next a p
bind-Returns (stopped e) f (stops other) next = stops other

pub if-Returns :
    {A : Type 0} {P : A → Type 0} (b : Bool) (x y : Run A)
    → Returns P x
    → Returns P y
    → Returns P (if b then x else y)
if-Returns true x y p q = p
if-Returns false x y p q = q

module _ {json : Json} {net : INetworkClient} where
  show-Goes : (m : Result Message) (s : Shared json net) → Goes (show json net m s)
  unfolding show
  show-Goes (ok m) s = returns refl
  show-Goes (throw e) s = stops λ h. cc

  heard-Goes : (r : Option Packet × net.State) (s : Shared json net) → Goes (heard json net r s)
  unfolding heard
  heard-Goes (none, n) s = returns refl
  heard-Goes (some p, n) s = elim (Bool-cases (is_shown p.type)) [
    | inl shown ↦ rw shown (show-Goes (parse_message_packet json p) _)
    | inr hidden ↦ rw hidden (returns refl)
  ]

  receive_step-Goes :
      (phase : Receiver) (s : Shared json net) → s.receiver ≡ phase → Goes (receive_step json net s)
  unfolding receive_step
  receive_step-Goes starting s h = rw h (returns refl)
  receive_step-Goes looking s h = rw h (returns refl)
  receive_step-Goes receiving s h = rw h (heard-Goes _ _)
  receive_step-Goes finished s h = rw h (returns refl)

  message_sent-Goes :
      (text time : Bytes) (o : Outcome (Bool × net.State)) (s : Session json net)
      → Goes (message_sent json net text time o s)
  unfolding message_sent
  message_sent-Goes text time (Services.returned (true, n)) s = returns refl
  message_sent-Goes text time (Services.returned (false, n)) s = returns refl
  message_sent-Goes text time Services.overflowed s = stops λ h. cc
  message_sent-Goes text time (Services.raised e) s = stops λ h. cc

  on_input-Goes : (time text : Bytes) (s : Session json net) → Goes (on_input json net time text s)
  unfolding on_input
  on_input-Goes time text s =
      if-Returns (s.shared.console.eof || not (net.is_connected s.shared.network)) _ _
        (returns refl)
        (if-Returns (bytes_beq text (bytes "/exit")) _ _ (returns refl) (
          if-Returns (is_empty text) _ _ (returns refl)
            (message_sent-Goes text time (send_message json net text s.shared.network) s)))

  main_step-Goes :
      (m : Main) (time : Bytes) (s : Session json net)
      → s.main ≡ m
      → Goes (step json net (main_thread time) s)
  unfolding step main_as
  main_step-Goes testing time s h = rw h (returns refl)
  main_step-Goes reading time s h = rw h (on_input-Goes time _ _)
  main_step-Goes exiting time s h = rw h (returns refl)
  main_step-Goes left time s h = rw h (returns refl)

  step-Goes : (t : Turn) (s : Session json net) → Goes (step json net t s)
  unfolding step
  step-Goes (main_thread time) s = main_step-Goes s.main time s refl
  step-Goes receiver_thread s =
      bind-Returns _ _ (receive_step-Goes s.shared.receiver s.shared refl) λ shared h. returns refl

  run-Goes : (ts : List Turn) (s : Session json net) → Goes (run json net ts s)
  unfolding run
  run-Goes [] s = returns refl
  run-Goes (t ∷ ts) s = bind-Returns (step json net t s) _ (step-Goes t s) λ s' h. run-Goes ts s'

  join_rounds-Returns :
      (n : ℕ) (s : Shared json net)
      → Returns (λ s'. is_finished s'.receiver ≡ true) (join_rounds json net n s)
  unfolding join_rounds
  join_rounds-Returns zero s = elim (Bool-cases (is_finished s.receiver)) [
    | inl over ↦ rw over (returns over)
    | inr busy ↦ rw busy (stops λ h. cc)
  ]
  join_rounds-Returns (suc n) s = elim (Bool-cases (is_finished s.receiver)) [
    | inl over ↦ rw over (returns over)
    | inr busy ↦ rw busy (
        bind-Returns (receive_step json net s) _ (receive_step-Goes s.receiver s refl)
          λ s' h. join_rounds-Returns n s')
  ]

  -- A session that is over has no thread left.
  closed-Returns :
      (m : Main) (s : Session json net)
      → s.main ≡ m
      → Returns (λ s'. is_finished s'.shared.receiver ≡ true) (close_session json net s)
  unfolding close_session join
  closed-Returns left s h =
      rw h (bind-Returns _ _ (join_rounds-Returns _ _) λ shared over. returns over)
  closed-Returns testing s h = rw h (stops λ h. cc)
  closed-Returns reading s h = rw h (stops λ h. cc)
  closed-Returns exiting s h = rw h (stops λ h. cc)

  pub chat_session-Returns :
      (turns : List Turn) (s : Session json net)
      → is_finished s.shared.receiver ≡ true
      → Returns (λ s'. is_finished s'.shared.receiver ≡ true) (chat_session json net turns s)
  unfolding chat_session
  chat_session-Returns turns s alone =
      rw alone (bind-Returns _ _ (run-Goes turns _) λ s' h. closed-Returns s'.main s' refl)
