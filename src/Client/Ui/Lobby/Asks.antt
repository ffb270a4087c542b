-- ===== src/Client/Ui/Lobby/Asks.antt =====
-- What the lobby asks the server for.
use cpp_socket_chat.Prelude.{
  ℕ, true, refl, ◌⊎◌, ◌<◌, ◌≤◌, ◌≡◌, ◌≢◌, inl, inr, false, Bool-cases, Option, none, some, [], ◌∷◌,
  Bytes, bytes, is_empty, arith, ℤ, pos, negsuc,
}
use cpp_socket_chat.Json.{Json}
use cpp_socket_chat.Client.Network.{INetworkClient}
use cpp_socket_chat.Client.Rooms
use cpp_socket_chat.Client.Ui.Streams.{
  Console, newline, print_line, get_line, print, read_int, ignore_line,
}
use cpp_socket_chat.Client.Ui.Lobby.{Lobby, say, rooms, run_outcome, value_of}
use cpp_socket_chat.Client.Ui.Lobby.Menu.{
  handle_create_room, name_read, limit_read, room_created, is_bad_limit,
}
use cpp_socket_chat.Client.Ui.{◌>>=◌, Run, done, stopped, unset}

-- What is read as the name of the room, and what is read as the limit behind it.
abbrev pub typed_name : Console → Bytes × Console
typed_name c = get_line (print (bytes "방 이름: ") (print_line (newline ∷ bytes "--- 채팅방 생성 ---") c))

abbrev pub typed_limit : Console → Option ℤ × Console
typed_limit c = read_int (print (bytes "최대 인원 (2-10): ") (typed_name c).1)

-- A limit below 2 or above 10
abbrev pub IsOutside : ℤ → Type 0
IsOutside (pos n) = (n < 2) ⊎ (10 < n)
IsOutside (negsuc n) = Unit

is_empty→≡ : (bs : Bytes) → is_empty bs ≡ true → bs ≡ []
is_empty→≡ [] h = refl
is_empty→≡ (b ∷ bs) h = absurd cc

is_empty→≢ : (bs : Bytes) → is_empty bs ≡ false → bs ≢ []
is_empty→≢ [] h = cc
is_empty→≢ (b ∷ bs) h = cc

module _ {json : Json} {net : INetworkClient} (chat : Lobby json net → Run (Lobby json net)) where
  -- How the creation of a room goes on, by what is typed.
  pub data AsksWithin (l : Lobby json net) : Run (Lobby json net) → Type 0 where
    nameless :
        (typed_name l.console).0 ≡ []
        → AsksWithin l
            (done (say (bytes "방 이름을 입력해주세요.") (record l { console = (typed_name l.console).1 })))
    no_value :
        (typed_name l.console).0 ≢ []
        → (typed_limit l.console).0 ≡ none
        → AsksWithin l (stopped unset)
    out_of_bounds :
        (n : ℤ)
        → (typed_name l.console).0 ≢ []
        → (typed_limit l.console).0 ≡ some n
        → IsOutside n
        → AsksWithin l (
            done (
              say
                (bytes "최대 인원은 2명에서 10명 사이로 설정해주세요.")
                (record l { console = ignore_line (typed_limit l.console).1 })))
    asks :
        (limit : ℕ)
        → (typed_name l.console).0 ≢ []
        → (typed_limit l.console).0 ≡ some (pos limit)
        → 2 ≤ limit
        → limit ≤ 10
        → AsksWithin l (
            run_outcome (Rooms.create_room json net (typed_name l.console).0 (pos limit) (rooms l))
            >>= room_created json net chat
                (record l { console = ignore_line (typed_limit l.console).1 }))

  limit_read-AsksWithin :
      (l : Lobby json net) (n : ℤ)
      → (typed_name l.console).0 ≢ []
      → (typed_limit l.console).0 ≡ some n
      → AsksWithin l (
          limit_read json net chat
            (typed_name l.console).0
            n
            (record l { console = ignore_line (typed_limit l.console).1 }))
  unfolding limit_read is_bad_limit
  limit_read-AsksWithin l (pos n) named typed = elim (Bool-cases (is_bad_limit (pos n))) [
    | inl bad ↦ rw bad (out_of_bounds (pos n) named typed (ground arith))
    | inr fine ↦ rw fine (asks n named typed (ground arith) (ground arith))
  ]
  limit_read-AsksWithin l (negsuc n) named typed = out_of_bounds (negsuc n) named typed tt

  value_read-AsksWithin :
      (l : Lobby json net) (v : Option ℤ)
      → (typed_name l.console).0 ≢ []
      → (typed_limit l.console).0 ≡ v
      → AsksWithin l (
          value_of v >>= λ n.
          limit_read json net chat
            (typed_name l.console).0
            n
            (record l { console = ignore_line (typed_limit l.console).1 }))
  value_read-AsksWithin l none named typed = no_value named typed
  value_read-AsksWithin l (some n) named typed = limit_read-AsksWithin l n named typed

  name_read-AsksWithin :
      (l : Lobby json net) → AsksWithin l (name_read json net chat (typed_name l.console) l)
  unfolding name_read
  name_read-AsksWithin l = elim (Bool-cases (is_empty (typed_name l.console).0)) [
    | inl blank ↦ rw blank (nameless (is_empty→≡ _ blank))
    | inr given ↦
        rw given (value_read-AsksWithin l (typed_limit l.console).0 (is_empty→≢ _ given) refl)
  ]

  -- HandleCreateRoom, by what is typed. Without a name it asks for one, and changes nothing but the
  -- console; with a name and a limit below 2 or above 10 it refuses the limit, and changes nothing but the
  -- console; where no limit is read, it uses a variable that was never written. With a name and a limit
  -- from 2 to 10 it asks the server for a room with both, and goes on as the answer leads.
  pub handle_create_room-AsksWithin :
      (l : Lobby json net) → AsksWithin l (handle_create_room json net chat l)
  unfolding handle_create_room
  handle_create_room-AsksWithin l = name_read-AsksWithin l
