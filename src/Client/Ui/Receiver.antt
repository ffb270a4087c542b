-- ===== src/Client/Ui/Receiver.antt =====
-- The thread that a chat session starts (Lobby::StartChatSession, client/src/ui/Lobby.cpp, and
-- ChatService::StartReceiving, client/src/core/ChatService.cpp), one step for what it does between two
-- points at which the other thread may go on.
pub mod Ends
pub mod Alone
use cpp_socket_chat.Prelude.{
  ℕ, zero, suc, ◌*◌, Bool, true, false, ◌&&◌, Option, none, some, Bytes, bytes, if◌then◌else◌,
}
use cpp_socket_chat.Json.{Json, Result, ok, throw}
use cpp_socket_chat.Protocol.{Packet}
use cpp_socket_chat.Client.Network.{INetworkClient}
use cpp_socket_chat.Client.Packets.{Message, format_for_display, parse_message_packet}
use cpp_socket_chat.Client.Chat.{is_shown}
use cpp_socket_chat.Client.Ui.Streams.{Console, print_line}
use cpp_socket_chat.Client.Ui.Display.{clear_line, show_input_prompt, display_system_message}
use cpp_socket_chat.Client.Ui.{◌>>=◌, Run, done, stopped, terminated, out_of_rounds}

-- Before StartReceiving sets its flag, before the loop's test, in Receive, and behind the end.
pub data Receiver : Type 0 where
  starting looking receiving finished : Receiver

unfoldable pub is_finished : Receiver → Bool
is_finished finished = true
is_finished _ = false

-- Lobby::OnMessageReceived
unfoldable pub on_message_received : Bytes → Console → Console
on_message_received message c = show_input_prompt (print_line message (clear_line c))

-- What the thread does behind StartReceiving.
unfoldable pub report_end : Console → Console
report_end c =
    display_system_message (bytes "서버와의 연결이 종료되었습니다. Enter 키를 눌러 프로그램을 종료하세요.") (clear_line c)

module _ (json : Json) (net : INetworkClient) where
  -- What the two threads share.
  pub record Shared : Type 0 where
    pub console : Console
    pub network : net.State
    pub is_receiving : Bool
    pub receiver : Receiver

  -- The end of ReceiveLoop and of the thread.
  unfoldable pub finish : Shared → Shared
  finish s = record s { console = report_end s.console; is_receiving = false; receiver = finished }

  -- The callback is given a message, and the loop goes on.
  unfoldable pub show : Result Message → Shared → Run Shared
  show (ok message) s = done (record s {
    console = on_message_received (format_for_display false message) s.console;
    receiver = looking;
  })
  show (throw e) s = stopped (terminated e)

  -- Behind Receive, in a round of ReceiveLoop.
  unfoldable pub heard : Option Packet × net.State → Shared → Run Shared
  unfolding finish show
  heard (none, n) s = done (finish (record s { network = n }))
  heard (some p, n) s =
      let s1 = record s { network = n; receiver = looking } in
      if is_shown p.type then show (parse_message_packet json p) s1 else done s1

  receive_as : Receiver → Shared → Run Shared
  unfolding finish heard
  receive_as starting s = done (record s { is_receiving = true; receiver = looking })
  receive_as looking s = done (
      if s.is_receiving && net.is_connected s.network
      then record s { receiver = receiving }
      else finish s)
  receive_as receiving s = heard (net.receive s.network) s
  receive_as finished s = done s

  -- A step of the thread.
  unfoldable pub receive_step : Shared → Run Shared
  unfolding receive_as
  receive_step s = receive_as s.receiver s

  -- m_receiver_thread.join(): the thread goes on to its end.
  unfoldable pub join_rounds : ℕ → Shared → Run Shared
  unfolding is_finished
  join_rounds zero s = if is_finished s.receiver then done s else stopped out_of_rounds
  join_rounds (suc n) s =
      if is_finished s.receiver then done s else (receive_step s >>= join_rounds n)

  -- Each packet that is received makes what is pending less, so these rounds are enough.
  unfoldable pub join : Shared → Run Shared
  join s = join_rounds (suc (suc (suc (2 * net.pending s.network)))) s
