-- ===== src/Server/Rooms/Codes.antt =====
-- Room codes: eight letters or digits, not in use.
use cpp_socket_chat.Prelude.{
  ℕ, zero, suc, ◌+◌, ◌*◌, ◌≤◌, ◌<◌, ◌≡◌, ◌≢◌, refl, ap, ==_refl, ◌∙◌, ℤ, Bool-cases, not-leb→lt,
  lt→not-leb, ◌⊎◌, inl, inr, Option, none, some, [], ◌∷◌, Bytes, arith, length, Option-cases,
  bytes_eq, leb, ◌||◌, ◌&&◌, Bool, true,
}
use cpp_socket_chat.Map.{Map, lookup, insert, lookup-insert}
use cpp_socket_chat.Server.Room.{Room, new_room}
use cpp_socket_chat.Server.Rooms.{
  RoomManager, chars, char_at, code_loop, generate_room_code, find_code, emplace, add_room,
}

and-true : (a b : Bool) → (a && b) ≡ true → (a ≡ true) × (b ≡ true)
and-true a b h = ground arith

-- 'a'–'z', 'A'–'Z' or '0'–'9'
abbrev pub is_alnum : ℕ → Bool
is_alnum c =
    (leb b'a' c && leb c b'z') || ((leb b'A' c && leb c b'Z') || (leb b'0' c && leb c b'9'))

unfoldable pub all_alnum : Bytes → Bool
all_alnum [] = true
all_alnum (c ∷ cs) = is_alnum c && all_alnum cs

char_at-all_alnum :
    (cs : Bytes) (i : ℕ) → all_alnum cs ≡ true → i < length cs → is_alnum (char_at cs i) ≡ true
unfolding char_at all_alnum
char_at-all_alnum [] i a h = elim h [ ]
char_at-all_alnum (c ∷ cs) zero a h = (and-true (is_alnum c) (all_alnum cs) a).0
char_at-all_alnum (c ∷ cs) (suc i) a h =
    char_at-all_alnum cs i (and-true (is_alnum c) (all_alnum cs) a).1 (omega arith)

all_alnum-chars : all_alnum chars ≡ true
unfolding chars all_alnum
all_alnum-chars = refl

length-chars : length chars ≡ 62
unfolding chars
length-chars = refl

-- What `add_room` does: it fails and leaves the rooms alone, or it adds an empty room under a new
-- code of eight characters.
abbrev pub Adds : Bytes → ℤ → RoomManager → Bytes × RoomManager → Type 0
Adds name max_users m r =
    ((r.0 ≡ []) × (r.1.rooms ≡ m.rooms))
    ⊎ ((length r.0 ≡ 8)
        × (lookup r.0 m.rooms ≡ none)
        × (length m.rooms < 100)
        × (r.1.rooms ≡ insert r.0 (new_room r.0 name max_users) m.rooms))

module _ (dis : ℕ → ℕ) where
  length-code_loop : (n at : ℕ) → length (code_loop dis n at) ≡ n
  unfolding code_loop
  length-code_loop zero at = refl
  length-code_loop (suc n) at = ap suc (length-code_loop n (suc at))

  all_alnum-code_loop : ((i : ℕ) → dis i ≤ 61) → (n at : ℕ) → all_alnum (code_loop dis n at) ≡ true
  unfolding code_loop all_alnum
  all_alnum-code_loop range zero at = refl
  all_alnum-code_loop range (suc n) at = rw (
    char_at-all_alnum chars (dis at) all_alnum-chars (omega (arith, range at, length-chars)),
    all_alnum-code_loop range n (suc at),
  )

  length-generate_room_code : (at : ℕ) → length (generate_room_code dis at) ≡ 8
  unfolding generate_room_code
  length-generate_room_code at = length-code_loop 8 at

  -- What the loop returns is a code that was drawn and is not in use.
  find_code-drawn_fresh :
      (tries : ℕ) (rooms : Map Bytes Room) (at : ℕ) (code : Bytes)
      → (find_code dis tries rooms at).0 ≡ some code
      → (lookup code rooms ≡ none) × ((from : ℕ) × (code ≡ generate_room_code dis from))
  unfolding find_code
  find_code-drawn_fresh zero rooms at code h = cc
  find_code-drawn_fresh (suc tries) rooms at code h =
      elim (Option-cases (lookup (generate_room_code dis at) rooms)) [
        | inl e ↦ (ground (arith, e), (at, ground (arith, e)))
        | inr (r, e) ↦ find_code-drawn_fresh tries rooms (at + 8) code (ground (arith, e))
      ]

  find_code-drawn :
      (tries : ℕ) (rooms : Map Bytes Room) (at : ℕ)
      → (find_code dis tries rooms at).1 ≤ at + 8 * suc tries
  unfolding find_code
  find_code-drawn zero rooms at = omega arith
  find_code-drawn (suc tries) rooms at = ground (arith, find_code-drawn tries rooms (at + 8))

  find_code_finds :
      (tries k : ℕ) (rooms : Map Bytes Room) (at : ℕ)
      → k < tries
      → lookup (generate_room_code dis (at + 8 * k)) rooms ≡ none
      → (find_code dis tries rooms at).0 ≢ none
  unfolding find_code
  find_code_finds zero k rooms at h free = elim h [ ]
  find_code_finds (suc tries) zero rooms at h free =
      let here : at + 8 * 0 ≡ at = omega arith in rw (rw here at free, find_code) (λ e. cc)
  find_code_finds (suc tries) (suc k) rooms at h free =
      let later : at + 8 * suc k ≡ at + 8 + 8 * k = omega arith in
      elim (Option-cases (lookup (generate_room_code dis at) rooms)) [
        | inl e ↦ rw (e, find_code) (λ x. cc)
        | inr (r, e) ↦
            rw (e, find_code)
              (find_code_finds tries k rooms (at + 8) (omega arith) (rw later at free))
      ]

  emplace-Adds :
      (name : Bytes) (max_users : ℤ) (m : RoomManager) (found : Option Bytes) (at : ℕ)
      → length m.rooms < 100
      → ((code : Bytes)
          → found ≡ some code
          → (lookup code m.rooms ≡ none) × ((from : ℕ) × (code ≡ generate_room_code dis from)))
      → Adds name max_users m (emplace dis name max_users (found, at) m)
  unfolding emplace
  emplace-Adds name max_users m none at room h = inl (refl, refl)
  emplace-Adds name max_users m (some code) at room h =
      let (fresh, (from, drawn)) = h code refl in
      inr (ap length drawn ∙ length-generate_room_code from, fresh, room, refl)

  -- A failure changes no room; a success returns a code of eight characters that was not in use, and
  -- adds to the fewer than 100 rooms an empty one under it.
  pub add_room-Adds :
      (name : Bytes) (max_users : ℤ) (m : RoomManager)
      → Adds name max_users m (add_room dis name max_users m)
  unfolding add_room
  add_room-Adds name max_users m = elim (Bool-cases (leb 100 (length m.rooms))) [
    | inl full ↦ rw full (inl (refl, refl))
    | inr room ↦ rw room (
        emplace-Adds name max_users m (find_code dis 100 m.rooms m.drawn).0
          (find_code dis 100 m.rooms m.drawn).1 (not-leb→lt 100 (length m.rooms) room)
          (find_code-drawn_fresh 100 m.rooms m.drawn))
  ]

  emplace_ne :
      (name : Bytes) (max_users : ℤ) (m : RoomManager) (found : Option Bytes × ℕ)
      → found.0 ≢ none
      → ((code : Bytes) → found.0 ≡ some code → length code ≡ 8)
      → (emplace dis name max_users found m).0 ≢ []
  unfolding emplace
  emplace_ne name max_users m (none, at) h l e = h refl
  emplace_ne name max_users m (some code, at) h l e =
      absurd (omega (arith, l code refl, ap length e))

  add_room_ne :
      (name : Bytes) (max_users : ℤ) (m : RoomManager) (k : ℕ)
      → length m.rooms < 100
      → k < 100
      → lookup (generate_room_code dis (m.drawn + 8 * k)) m.rooms ≡ none
      → (add_room dis name max_users m).0 ≢ []
  unfolding add_room
  add_room_ne name max_users m k room h free = rw (lt→not-leb 100 (length m.rooms) room) (
      emplace_ne name max_users m (find_code dis 100 m.rooms m.drawn)
        (find_code_finds 100 k m.rooms m.drawn h free)
        λ code e.
          let (_, (from, drawn)) = find_code-drawn_fresh 100 m.rooms m.drawn code e in
          ap length drawn ∙ length-generate_room_code from)

  -- While there are fewer than 100 rooms, a code that is not in use among the first 100 that the
  -- generator draws is enough for a room to be made: it returns a code of eight characters that no room
  -- had, and an empty room with the name and the limit is found under it.
  pub add_room_succeeds :
      (name : Bytes) (max_users : ℤ) (m : RoomManager) (k : ℕ)
      → length m.rooms < 100
      → k < 100
      → lookup (generate_room_code dis (m.drawn + 8 * k)) m.rooms ≡ none
      → (length (add_room dis name max_users m).0 ≡ 8)
        × (lookup (add_room dis name max_users m).0 m.rooms ≡ none)
        × (lookup (add_room dis name max_users m).0 (add_room dis name max_users m).1.rooms
            ≡ some (new_room (add_room dis name max_users m).0 name max_users))
  add_room_succeeds name max_users m k room h free = elim (add_room-Adds name max_users m) [
    | inl (empty, _) ↦ absurd (add_room_ne name max_users m k room h free empty)
    | inr (eight, fresh, _, added) ↦
        let code = (add_room dis name max_users m).0 in
        (
          eight,
          fresh,
          ap (lookup code) added
              ∙ lookup-insert code code (new_room code name max_users) m.rooms
              ∙ rw (==_refl code) refl,
        )
  ]

  -- With the distribution's range, the code consists of letters and digits.
  pub all_alnum-generate_room_code :
      ((i : ℕ) → dis i ≤ 61) → (at : ℕ) → all_alnum (generate_room_code dis at) ≡ true
  unfolding generate_room_code
  all_alnum-generate_room_code range at = all_alnum-code_loop range 8 at
