-- ===== src/Client/Ui/Lobby/Threads.antt =====
-- The receiver's threads of a lobby: a session starts one and waits for its end.
use cpp_socket_chat.Prelude.{
  ◌≡◌, refl, inl, inr, true, not, ◌&&◌, Bool-cases, ℤ, Option, none, some, List, [], ◌∷◌, Bytes,
  bytes, is_empty,
}
use cpp_socket_chat.Json.{Json}
use cpp_socket_chat.Client.Services
use cpp_socket_chat.Client.Services.{Outcome}
use cpp_socket_chat.Client.Network.{INetworkClient}
use cpp_socket_chat.Client.Rooms
use cpp_socket_chat.Client.Rooms.{RoomService}
use cpp_socket_chat.Client.Ui.Streams.{Console, print, read_int, ignore_line}
use cpp_socket_chat.Client.Ui.Receiver.{is_finished}
use cpp_socket_chat.Client.Ui.Session.{Session, Turn}
use cpp_socket_chat.Client.Ui.Lobby.{Lobby, session, with_session, rooms, run_outcome, value_of}
use cpp_socket_chat.Client.Ui.Lobby.Menu.{
  show_lobby_menu, show_menu, menu_round, back, Choice, choice_of, handle_create_room,
  handle_join_room, limit_read, name_read, code_read, chosen, create, enter, quit, invalid,
  is_bad_limit, room_created, room_joined,
}
use cpp_socket_chat.Client.Ui.Session.Threads.{
  Returns, returns, stops, Goes, if-Returns, bind-Returns, chat_session-Returns,
}
use cpp_socket_chat.Client.Ui.{Run}

value_of-Goes : (v : Option ℤ) → Goes (value_of v)
value_of-Goes none = stops λ h. cc
value_of-Goes (some n) = returns refl

run_outcome-Goes : {A : Type 0} (o : Outcome A) → Goes (run_outcome o)
run_outcome-Goes (Services.returned a) = returns refl
run_outcome-Goes Services.overflowed = stops λ h. cc
run_outcome-Goes (Services.raised e) = stops λ h. cc

module _ {json : Json} {net : INetworkClient} where
  -- No receiver's thread runs.
  unfoldable pub IsAlone : Lobby json net → Type 0
  IsAlone l = is_finished l.receiver ≡ true

  module _ (chat : Lobby json net → Run (Lobby json net))
      (ends : (l : Lobby json net) → IsAlone l → Returns IsAlone (chat l)) where
    room_created-Returns :
        (l : Lobby json net) (r : Option Bytes × RoomService json net)
        → IsAlone l
        → Returns IsAlone (room_created json net chat l r)
    unfolding room_created IsAlone
    room_created-Returns l (some code, r) alone = ends _ alone
    room_created-Returns l (none, r) alone = returns alone

    room_joined-Returns :
        (l : Lobby json net) (r : Option Bytes × RoomService json net)
        → IsAlone l
        → Returns IsAlone (room_joined json net chat l r)
    unfolding room_joined IsAlone
    room_joined-Returns l (some code, r) alone = ends _ alone
    room_joined-Returns l (none, r) alone = returns alone

    limit_read-Returns :
        (room_name : Bytes) (n : ℤ) (l : Lobby json net)
        → IsAlone l
        → Returns IsAlone (limit_read json net chat room_name n l)
    unfolding limit_read IsAlone
    limit_read-Returns room_name n l alone = elim (Bool-cases (is_bad_limit n)) [
      | inl bad ↦ rw bad (returns alone)
      | inr fine ↦ rw fine (
          bind-Returns _ _ (run_outcome-Goes (Rooms.create_room json net room_name n (rooms l)))
            λ r h. room_created-Returns l r alone)
    ]

    name_read-Returns :
        (r : Bytes × Console) (l : Lobby json net)
        → IsAlone l
        → Returns IsAlone (name_read json net chat r l)
    unfolding name_read IsAlone
    name_read-Returns (room_name, c) l alone = elim (Bool-cases (is_empty room_name)) [
      | inl blank ↦ rw blank (returns alone)
      | inr given ↦ rw given (
          bind-Returns (value_of (read_int (print (bytes "최대 인원 (2-10): ") c)).0) _
            (value_of-Goes (read_int (print (bytes "최대 인원 (2-10): ") c)).0)
            λ n h.
              limit_read-Returns room_name n
                (record l { console = ignore_line (read_int (print (bytes "최대 인원 (2-10): ") c)).1 })
                alone)
    ]

    code_read-Returns :
        (r : Bytes × Console) (l : Lobby json net)
        → IsAlone l
        → Returns IsAlone (code_read json net chat r l)
    unfolding code_read IsAlone
    code_read-Returns (room_code, c) l alone = elim (Bool-cases (is_empty room_code)) [
      | inl blank ↦ rw blank (returns alone)
      | inr given ↦ rw given (
          bind-Returns _ _
            (run_outcome-Goes
              (Rooms.join_room json net room_code (rooms (record l { console = c }))))
            λ r h. room_joined-Returns (record l { console = c }) r alone)
    ]

    chosen-Returns :
        (c : Choice) (l : Lobby json net) → IsAlone l → Returns IsAlone (chosen json net chat c l)
    unfolding chosen handle_create_room handle_join_room IsAlone
    chosen-Returns create l alone = name_read-Returns _ l alone
    chosen-Returns enter l alone = code_read-Returns _ l alone
    chosen-Returns quit l alone = returns alone
    chosen-Returns invalid l alone = returns alone

    menu_round-Returns :
        (l : Lobby json net) → IsAlone l → Returns IsAlone (menu_round json net chat l)
    unfolding menu_round IsAlone
    menu_round-Returns l alone =
        let read = read_int (show_menu l.console) in
        bind-Returns (value_of read.0) _ (value_of-Goes read.0)
          λ n h. chosen-Returns (choice_of n) (record l { console = ignore_line read.1 }) alone

  back-Returns :
      (menu : Lobby json net → Run (Lobby json net)) (l : Lobby json net) (s : Session json net)
      → ((k : Lobby json net) → IsAlone k → Returns IsAlone (menu k))
      → is_finished s.shared.receiver ≡ true
      → Returns IsAlone (back json net menu l s)
  unfolding back IsAlone
  back-Returns menu l s goes alone =
      if-Returns (net.is_connected (with_session s l).network && l.is_running) _ _ (goes _ alone)
        (returns alone)

  -- From a lobby with no receiver's thread, whatever is typed and however the threads take their turns,
  -- the menu never starts a thread while another one is there to be joined, and leaves none behind.
  pub show_lobby_menu-Returns :
      (rounds : List (List Turn)) (l : Lobby json net)
      → IsAlone l
      → Returns IsAlone (show_lobby_menu json net rounds l)
  unfolding show_lobby_menu IsAlone
  show_lobby_menu-Returns [] l alone =
      if-Returns (not (l.is_running && net.is_connected l.network)) _ _ (returns alone)
        (stops λ h. cc)
  show_lobby_menu-Returns (turns ∷ rest) l alone =
      if-Returns (not (l.is_running && net.is_connected l.network)) _ _ (returns alone) (
        bind-Returns _ _
          (menu_round-Returns _
            (λ k a. bind-Returns _ _ (chat_session-Returns turns (session k) a) λ s over.
              back-Returns (show_lobby_menu json net rest) k s (show_lobby_menu-Returns rest) over)
            l alone)
          (show_lobby_menu-Returns rest))
