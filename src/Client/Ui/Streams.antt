-- ===== src/Client/Ui/Streams.antt =====
-- std::cin, std::cout and std::cerr, as the files of client/src/ui use them. `input` is what is still
-- to be read before the input ends; `eof` and `fail` are the bits of std::cin that nothing clears.
pub mod Reading
use cpp_socket_chat.Prelude.{
  ℕ, zero, suc, ◌+◌, ◌-◌, ◌*◌, ◌^◌, Bool, true, false, not, ◌&&◌, ◌||◌, Option, none, some, [], ◌∷◌,
  ◌++◌, Bytes, is_empty, ltb, leb, nat_beq, ℤ, pos, negsuc, if◌then◌else◌,
}
use cpp_socket_chat.Numerals.{
  is_space, skip_spaces, is_digit, Digits, digits, to_int, is_out_of_range,
}

pub record Console : Type 0 where
  pub input : Bytes
  pub eof : Bool
  pub fail : Bool
  pub output : Bytes
  pub errors : Bytes

abbrev pub newline : ℕ
newline = 10

-- std::cout << text, std::cout << text << std::endl, and the latter on std::cerr
unfoldable pub print : Bytes → Console → Console
print text c = record c { output = c.output ++ text }

unfoldable pub print_line : Bytes → Console → Console
print_line text c = record c { output = c.output ++ (text ++ newline ∷ []) }

unfoldable pub print_error : Bytes → Console → Console
print_error text c = record c { errors = c.errors ++ (text ++ newline ∷ []) }

-- std::cin.good()
unfoldable pub good : Console → Bool
good c = not (c.eof || c.fail)

-- A byte in front of what is split off.
abbrev pub before : ℕ → Bytes × Option Bytes → Bytes × Option Bytes
before b (front, rest) = (b ∷ front, rest)

-- The bytes up to a newline, and those behind it, unless the input ends first.
unfoldable pub split_line : Bytes → Bytes × Option Bytes
split_line [] = ([], none)
split_line (b ∷ bs) =
    let rest = split_line bs in if nat_beq b newline then ([], some bs) else before b rest

read_line : Bytes × Option Bytes → Console → Bytes × Console
read_line (line, some rest) c = (line, record c { input = rest })
read_line (line, none) c = (line, record c { input = []; eof = true; fail = is_empty line })

-- std::getline(std::cin, line), for a `line` that is empty
unfoldable pub get_line : Console → Bytes × Console
unfolding read_line
get_line c = if good c then read_line (split_line c.input) c else ([], record c { fail = true })

ignored : Bytes × Option Bytes → Console → Console
ignored (line, some rest) c = record c { input = rest }
ignored (line, none) c = record c { input = []; eof = true }

-- std::cin.ignore(std::numeric_limits<std::streamsize>::max(), '\n')
unfoldable pub ignore_line : Console → Console
unfolding ignored
ignore_line c = if good c then ignored (split_line c.input) c else record c { fail = true }

-- The bytes up to a space, and the others.
unfoldable pub split_word : Bytes → Bytes × Bytes
split_word [] = ([], [])
split_word (b ∷ bs) =
    let rest = split_word bs in if is_space b then ([], b ∷ bs) else (b ∷ rest.0, rest.1)

-- Behind the spaces.
word_of : Bytes → Console → Bytes × Console
word_of [] c = ([], record c { input = []; eof = true; fail = true })
word_of (b ∷ bs) c =
    let (word, rest) = split_word (b ∷ bs) in (word, record c { input = rest; eof = is_empty rest })

-- std::cin >> word, for a `word` that is empty
unfoldable pub read_word : Console → Bytes × Console
unfolding word_of
read_word c = if good c then word_of (skip_spaces c.input) c else ([], record c { fail = true })

number_of : Bool → Digits → Console → Option ℤ × Console
number_of negative d c = (
  some (if d.any then to_int negative d.value else pos 0),
  record c {
    input = d.rest;
    eof = is_empty d.rest;
    fail = not d.any || is_out_of_range negative d.value;
  },
)

-- Behind the spaces: a sign and digits.
signed : Bytes → Console → Option ℤ × Console
unfolding number_of
signed [] c = (none, record c { input = []; eof = true; fail = true })
signed (b ∷ bs) c =
    if nat_beq b b'-'
    then number_of true (digits bs 0 false) c
    else if nat_beq b b'+'
    then number_of false (digits bs 0 false) c
    else number_of false (digits (b ∷ bs) 0 false) c

-- std::cin >> number; `none` where the variable is not written, since the stream is not good.
unfoldable pub read_int : Console → Option ℤ × Console
unfolding signed
read_int c = if good c then signed (skip_spaces c.input) c else (none, record c { fail = true })
