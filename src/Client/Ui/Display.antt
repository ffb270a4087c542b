-- ===== src/Client/Ui/Display.antt =====
-- ConsoleUI (client/src/ui/ConsoleUI.cpp).
use cpp_socket_chat.Prelude.{ℕ, zero, suc, ℤ, false, Option, [], ◌∷◌, ◌++◌, Bytes, bytes}
use cpp_socket_chat.Client.Packets.{Message, format_for_display}
use cpp_socket_chat.Client.Ui.Streams.{
  Console, print, print_line, print_error, get_line, read_word, read_int, ignore_line,
}

-- std::string(n, ' ')
abbrev pub blanks : ℕ → Bytes
blanks zero = []
blanks (suc n) = 32 ∷ blanks n

-- ConsoleUI::ShowInputPrompt
unfoldable pub show_input_prompt : Console → Console
show_input_prompt = print (bytes "(입력창) > ")

-- ConsoleUI::ClearLine
unfoldable pub clear_line : Console → Console
clear_line = print (13 ∷ (blanks 80 ++ 13 ∷ []))

-- ConsoleUI::DisplayMessage; the default of `isMine` is false.
unfoldable pub display_message : Message → Console → Console
unfolding clear_line show_input_prompt
display_message message c =
    show_input_prompt (print_line (format_for_display false message) (clear_line c))

-- ConsoleUI::DisplaySystemMessage
unfoldable pub display_system_message : Bytes → Console → Console
unfolding clear_line
display_system_message message c = print_line (bytes "[시스템] " ++ message) (clear_line c)

-- ConsoleUI::DisplayError
unfoldable pub display_error : Bytes → Console → Console
display_error error c = print_error (bytes "[오류] " ++ error) c

-- ConsoleUI::GetConnectionInfo: the host and the port.
unfoldable pub get_connection_info : Console → Bytes × (Option ℤ × Console)
get_connection_info c =
    let (host, c1) = read_word (print (bytes "서버의 IP를 입력해주세요: ") c) in
    let (port, c2) = read_int (print (bytes "서버의 PORT를 입력해주세요: ") c1) in
    (host, (port, ignore_line c2))

-- ConsoleUI::GetNickname
unfoldable pub get_nickname : Console → Bytes × Console
get_nickname c =
    let prompt = bytes "사용할 닉네임을 입력하세요 (32자 이하, 띄어쓰기 불가): " in
    let (nickname, c1) = read_word (print prompt c) in (nickname, ignore_line c1)

-- ConsoleUI::GetMessageInput
unfoldable pub get_message_input : Console → Bytes × Console
get_message_input = get_line
