-- ===== src/Client/Ui/Lobby/Stuck.antt =====
-- What the lobby does with input that is not what it waits for.
use cpp_socket_chat.Prelude.{
  ℕ, zero, suc, ◌≡◌, refl, Bool-cases, true, false, ◌⊎◌, inl, inr, [], ◌∷◌, Bytes, arith, bytes,
}
use cpp_socket_chat.Json.{Json}
use cpp_socket_chat.Client.Network.{INetworkClient}
use cpp_socket_chat.Client.Connection.{register_nickname, validate_nickname}
use cpp_socket_chat.Numerals.{skip_spaces}
use cpp_socket_chat.Client.Ui.Streams.{Console, print, good, ignore_line}
use cpp_socket_chat.Client.Ui.Streams.Reading.{read_word-stuck, read_word-blank, ignore_line-stuck}
use cpp_socket_chat.Client.Ui.Display.{get_nickname}
use cpp_socket_chat.Client.Ui.Lobby.{Lobby, say, register_user, nickname_answered}
use cpp_socket_chat.Client.Ui.Lobby.Menu.{show_menu}
use cpp_socket_chat.Client.Ui.{stopped, out_of_rounds}

-- The stream has failed or ended, or only spaces are left.
unfoldable pub IsOver : Console → Type 0
IsOver c = (good c ≡ false) ⊎ (skip_spaces c.input ≡ [])

-- What GetNickname asks.
abbrev asking : Bytes
asking = bytes "사용할 닉네임을 입력하세요 (32자 이하, 띄어쓰기 불가): "

ends_failed : (c : Console) → good (record c { fail = true }) ≡ false
unfolding good
ends_failed c = ground arith

get_nickname-failed :
    (c : Console) → good c ≡ false → ((get_nickname c).0 ≡ []) × (good (get_nickname c).1 ≡ false)
unfolding get_nickname good print
get_nickname-failed c h =
    let asked = print asking c in
    rw
      (
        read_word-stuck asked h,
        ignore_line-stuck (record asked { fail = true }) (ends_failed asked),
      )
      (refl, ends_failed asked)

get_nickname-blank :
    (c : Console)
    → good c ≡ true
    → skip_spaces c.input ≡ []
    → ((get_nickname c).0 ≡ []) × (good (get_nickname c).1 ≡ false)
unfolding get_nickname good print
get_nickname-blank c works h =
    let asked = print asking c in
    rw
      (
        read_word-blank asked works h,
        ignore_line-stuck (record asked { input = []; eof = true; fail = true }) refl,
      )
      (refl, refl)

get_nickname-IsOver :
    (c : Console) → IsOver c → ((get_nickname c).0 ≡ []) × (good (get_nickname c).1 ≡ false)
unfolding IsOver
get_nickname-IsOver c (inl h) = get_nickname-failed c h
get_nickname-IsOver c (inr h) = elim (Bool-cases (good c)) [
  | inl works ↦ get_nickname-blank c works h
  | inr failed ↦ get_nickname-failed c failed
]

module _ (json : Json) (net : INetworkClient) where
  -- When the input is over and the connection stands, RegisterUser asks for a nickname for ever: no
  -- number of rounds is enough.
  pub register_user_endless :
      (rounds : ℕ) (l : Lobby json net)
      → net.is_connected l.network ≡ true
      → IsOver l.console
      → register_user json net rounds l ≡ stopped out_of_rounds
  unfolding register_user nickname_answered register_nickname validate_nickname IsOver
  register_user_endless zero l on over = rw on refl
  register_user_endless (suc n) l on over =
      let (nothing, failed) = get_nickname-IsOver l.console over in
      rw
        (
          on,
          nothing,
          register_user_endless n (record l { console = (get_nickname l.console).1 }) on
              (inl failed),
        )
        refl

  -- The lobby behind a wrong choice: it says so, and std::cin has failed.
  unfoldable pub refused : ℕ → Bytes → Lobby json net → Lobby json net
  refused b bs l = say (bytes "잘못된 선택입니다. 다시 선택해주세요.") (record l {
    console =
        ignore_line (record (show_menu l.console) { input = b ∷ bs; eof = false; fail = true });
  })
