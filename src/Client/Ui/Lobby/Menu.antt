-- ===== src/Client/Ui/Lobby/Menu.antt =====
-- The menu of the lobby (Lobby::ShowLobbyMenu with its handlers, client/src/ui/Lobby.cpp), and the
-- whole of Lobby::Run.
use cpp_socket_chat.Prelude.{
  ℕ, zero, suc, Bool, true, false, not, ◌&&◌, ◌||◌, ℤ, pos, negsuc, Option, none, some, List, [],
  ◌∷◌, ◌++◌, Bytes, bytes, is_empty, ltb, if◌then◌else◌,
}
use cpp_socket_chat.Json.{Json}
use cpp_socket_chat.Client.Network.{INetworkClient}
use cpp_socket_chat.Client.Rooms
use cpp_socket_chat.Client.Rooms.{RoomService}
use cpp_socket_chat.Client.Ui.Streams.{
  Console, newline, print, print_line, get_line, read_int, ignore_line,
}
use cpp_socket_chat.Client.Ui.Session.{Session, Turn, chat_session}
use cpp_socket_chat.Client.Ui.Lobby.{
  Lobby, say, rooms, with_rooms, session, with_session, run_outcome, value_of, setup_connection,
  register_user,
}
use cpp_socket_chat.Client.Ui.{◌>>=◌, Run, done, stopped, out_of_rounds}

-- maxUsers < 2 || maxUsers > 10
unfoldable pub is_bad_limit : ℤ → Bool
is_bad_limit (pos n) = ltb n 2 || ltb 10 n
is_bad_limit (negsuc n) = true

unfoldable pub show_menu : Console → Console
show_menu c = print (bytes "선택: ") (
    print_line (bytes "==========================") (
      print_line (bytes "3. 나가기") (
        print_line (bytes "2. 채팅방 참여") (
          print_line (bytes "1. 채팅방 생성")
            (print_line (newline ∷ bytes "========== 로비 ==========") c)))))

-- What was chosen.
pub data Choice : Type 0 where
  create enter quit invalid : Choice

abbrev pub choice_of : ℤ → Choice
choice_of (pos (suc zero)) = create
choice_of (pos (suc (suc zero))) = enter
choice_of (pos (suc (suc (suc zero)))) = quit
choice_of _ = invalid

module _ (json : Json) (net : INetworkClient) where
  module _ (chat : Lobby json net → Run (Lobby json net)) where
    -- What CreateRoom and JoinRoom return; `chat` is StartChatSession.
    unfoldable pub room_created :
        Lobby json net → Option Bytes × RoomService json net → Run (Lobby json net)
    room_created l (some code, r) = chat (
        say (newline ∷ bytes "채팅을 시작합니다...")
          (say (bytes "방 코드: " ++ code) (say (newline ∷ bytes "방이 생성되었습니다!") (with_rooms r l))))
    room_created l (none, r) = done (say (bytes "방 생성에 실패했습니다.") (with_rooms r l))

    unfoldable pub room_joined :
        Lobby json net → Option Bytes × RoomService json net → Run (Lobby json net)
    room_joined l (some code, r) =
        chat (
          say (newline ∷ bytes "채팅을 시작합니다...")
            (say (newline ∷ bytes "방에 참여했습니다!") (with_rooms r l)))
    room_joined l (none, r) = done (say (bytes "방 참여에 실패했습니다.") (with_rooms r l))

    -- Lobby::HandleCreateRoom, from the limit that was read.
    unfoldable pub limit_read : Bytes → ℤ → Lobby json net → Run (Lobby json net)
    unfolding room_created is_bad_limit
    limit_read room_name max_users l =
        if is_bad_limit max_users
        then done (say (bytes "최대 인원은 2명에서 10명 사이로 설정해주세요.") l)
        else (run_outcome (Rooms.create_room json net room_name max_users (rooms l))
            >>= room_created l)

    -- Lobby::HandleCreateRoom, from the name that was read.
    unfoldable pub name_read : Bytes × Console → Lobby json net → Run (Lobby json net)
    unfolding limit_read
    name_read (room_name, c) l =
        if is_empty room_name
        then done (say (bytes "방 이름을 입력해주세요.") (record l { console = c }))
        else (let (max_users, c1) = read_int (print (bytes "최대 인원 (2-10): ") c) in
            value_of max_users >>= λ limit.
            limit_read room_name limit (record l { console = ignore_line c1 }))

    -- Lobby::HandleCreateRoom
    unfoldable pub handle_create_room : Lobby json net → Run (Lobby json net)
    unfolding name_read
    handle_create_room l =
        let c = print_line (newline ∷ bytes "--- 채팅방 생성 ---") l.console in
        name_read (get_line (print (bytes "방 이름: ") c)) l

    -- Lobby::HandleJoinRoom, from the code that was read.
    unfoldable pub code_read : Bytes × Console → Lobby json net → Run (Lobby json net)
    unfolding room_joined
    code_read (room_code, c) l =
        let l1 = record l { console = c } in
        if is_empty room_code
        then done (say (bytes "방 코드를 입력해주세요.") l1)
        else (run_outcome (Rooms.join_room json net room_code (rooms l1)) >>= room_joined l1)

    -- Lobby::HandleJoinRoom
    unfoldable pub handle_join_room : Lobby json net → Run (Lobby json net)
    unfolding code_read
    handle_join_room l =
        let c = print_line (newline ∷ bytes "--- 채팅방 참여 ---") l.console in
        code_read (get_line (print (bytes "방 코드: ") c)) l

    unfoldable pub chosen : Choice → Lobby json net → Run (Lobby json net)
    unfolding handle_create_room handle_join_room
    chosen create l = handle_create_room l
    chosen enter l = handle_join_room l
    chosen quit l = done (record (say (bytes "로비를 나갑니다.") l) { is_running = false })
    chosen invalid l = done (say (bytes "잘못된 선택입니다. 다시 선택해주세요.") l)

    -- A round of the loop of Lobby::ShowLobbyMenu
    unfoldable pub menu_round : Lobby json net → Run (Lobby json net)
    unfolding chosen
    menu_round l =
        let (choice, c) = read_int (show_menu l.console) in
        value_of choice >>= λ number.
        chosen (choice_of number) (record l { console = ignore_line c })

  -- Behind the join in Lobby::InputLoop.
  unfoldable pub back :
      (Lobby json net → Run (Lobby json net))
      → Lobby json net
      → Session json net
      → Run (Lobby json net)
  back menu l s =
      let l1 = with_session s l in
      if net.is_connected l1.network && l1.is_running
      then menu (say (newline ∷ (bytes "로비로 돌아갑니다..." ++ newline ∷ [])) l1)
      else done l1

  -- Lobby::ShowLobbyMenu, a round for each element of a list: the turns of the threads in a session
  -- that the round begins.
  unfoldable pub show_lobby_menu : List (List Turn) → Lobby json net → Run (Lobby json net)
  unfolding menu_round back
  show_lobby_menu [] l =
      if not (l.is_running && net.is_connected l.network) then done l else stopped out_of_rounds
  show_lobby_menu (turns ∷ rest) l =
      if not (l.is_running && net.is_connected l.network)
      then done l
      else (menu_round
            (λ m. chat_session json net turns (session m) >>= back (show_lobby_menu rest) m) l
          >>= show_lobby_menu rest)

  -- Lobby::Run, for a number of rounds of RegisterUser and those of ShowLobbyMenu
  module _ (connect : Bytes → ℤ → net.State → Bool × net.State) (rounds : ℕ)
      (menus : List (List Turn)) where
    registered : Bool × Lobby json net → Run (Lobby json net)
    registered (false, l) = done l
    registered (true, l) = show_lobby_menu menus (record l { is_running = true })

    connected : Bool × Lobby json net → Run (Lobby json net)
    unfolding registered
    connected (false, l) = done l
    connected (true, l) = register_user json net rounds l >>= registered

    unfoldable pub run_lobby : Lobby json net → Run (Lobby json net)
    unfolding connected
    run_lobby l = setup_connection json net connect l >>= connected
