-- ===== src/Client/Ui/Lobby.antt =====
-- Lobby (client/src/ui/Lobby.cpp). What the services print is left out. The services hold one network
-- client: its state stands once in a lobby. `connect` is NetworkClient::Connect.
pub mod Menu
pub mod Stuck
pub mod Asks
pub mod Threads
use cpp_socket_chat.Prelude.{
  ℕ, zero, suc, Bool, true, false, not, ℤ, Option, none, some, [], Bytes, bytes, if◌then◌else◌,
}
use cpp_socket_chat.Json.{Json}
use cpp_socket_chat.Client.Network.{INetworkClient}
use cpp_socket_chat.Client.Services
use cpp_socket_chat.Client.Services.{Outcome}
use cpp_socket_chat.Client.Connection.{ConnectionService, register_nickname}
use cpp_socket_chat.Client.Rooms.{RoomService}
use cpp_socket_chat.Client.Ui.Streams.{Console, print_line}
use cpp_socket_chat.Client.Ui.Display.{
  display_system_message, display_error, get_connection_info, get_nickname,
}
use cpp_socket_chat.Client.Ui.Receiver.{Receiver, finished, join}
use cpp_socket_chat.Client.Ui.Session.{Session, left}
use cpp_socket_chat.Client.Ui.{◌>>=◌, Run, done, stopped, overflowed, raised, unset, out_of_rounds}

-- A result of a service, as the program goes on with it.
abbrev pub run_outcome : {A : Type 0} → Outcome A → Run A
run_outcome (Services.returned a) = done a
run_outcome Services.overflowed = stopped overflowed
run_outcome (Services.raised e) = stopped (raised e)

-- The value of a variable.
abbrev pub value_of : Option ℤ → Run ℤ
value_of none = stopped unset
value_of (some n) = done n

module _ (json : Json) (net : INetworkClient) where
  pub record Lobby : Type 0 where
    pub console : Console
    pub network : net.State
    pub current_user : Bytes
    pub current_room_code : Bytes
    pub is_receiving : Bool
    pub receiver : Receiver
    pub is_running : Bool

  -- Lobby::Lobby, with what will be typed, and a network client that is not connected
  abbrev pub fresh_lobby : Bytes → net.State → Lobby
  fresh_lobby input n = record {
    console = record { input = input; eof = false; fail = false; output = []; errors = [] };
    network = n;
    current_user = [];
    current_room_code = [];
    is_receiving = false;
    receiver = finished;
    is_running = false;
  }

module _ {json : Json} {net : INetworkClient} where
  abbrev pub say : Bytes → Lobby json net → Lobby json net
  say text l = record l { console = print_line text l.console }

  abbrev pub rooms : Lobby json net → RoomService json net
  rooms l = record { network = l.network; current_room_code = l.current_room_code }

  abbrev pub with_rooms : RoomService json net → Lobby json net → Lobby json net
  with_rooms r l = record l { network = r.network; current_room_code = r.current_room_code }

  abbrev pub session : Lobby json net → Session json net
  session l = record {
    shared = record {
      console = l.console;
      network = l.network;
      is_receiving = l.is_receiving;
      receiver = l.receiver;
    };
    current_room_code = l.current_room_code;
    main = left;
  }

  abbrev pub with_session : Session json net → Lobby json net → Lobby json net
  with_session s l = record l {
    console = s.shared.console;
    network = s.shared.network;
    is_receiving = s.shared.is_receiving;
    receiver = s.shared.receiver;
    current_room_code = s.current_room_code;
  }

module _ (json : Json) (net : INetworkClient) where
  -- Lobby::SetupConnection
  unfoldable pub setup_connection :
      (Bytes → ℤ → net.State → Bool × net.State) → Lobby json net → Run (Bool × Lobby json net)
  setup_connection connect l =
      let (host, (port, c)) = get_connection_info l.console in
      value_of port >>= λ number.
      let (success, n) = connect host number l.network in
      done (
        if success
        then (
          true,
          record l { console = display_system_message (bytes "서버에 연결되었습니다.") c; network = n },
        )
        else (false, record l { console = display_error (bytes "서버 연결에 실패했습니다.") c; network = n }))

  nickname_answered :
      (Lobby json net → Run (Bool × Lobby json net))
      → Lobby json net
      → Bool × ConnectionService json net
      → Run (Bool × Lobby json net)
  nickname_answered again l (success, s) =
      let l1 = record l { network = s.network; current_user = s.current_user } in
      if success then done (true, l1) else again l1

  -- Lobby::RegisterUser, for a number of rounds
  unfoldable pub register_user : ℕ → Lobby json net → Run (Bool × Lobby json net)
  unfolding nickname_answered
  register_user zero l =
      if not (net.is_connected l.network) then done (false, l) else stopped out_of_rounds
  register_user (suc n) l =
      if not (net.is_connected l.network)
      then done (false, l)
      else (let (nickname, c) = get_nickname l.console in
          run_outcome (
            register_nickname json net nickname
              (record { network = l.network; current_user = l.current_user }))
          >>= nickname_answered (register_user n) (record l { console = c }))

  -- Lobby::~Lobby, for a session that was left open by an exception, or for none
  unfoldable pub destroy : Lobby json net → Run (Lobby json net)
  destroy l = join json net (record (session l).shared { is_receiving = false }) >>= λ shared.
      done (record l {
        console = shared.console;
        network =
            if net.is_connected shared.network then net.close shared.network else shared.network;
        is_receiving = shared.is_receiving;
        receiver = shared.receiver;
      })
