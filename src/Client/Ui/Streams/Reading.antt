-- ===== src/Client/Ui/Streams/Reading.antt =====
-- What is read from std::cin.
use cpp_socket_chat.Prelude.{
  ℕ, zero, suc, ◌^◌, ◌<◌, ◌≡◌, refl, Bool, true, false, ◌||◌, none, some, [], ◌∷◌, ◌++◌, arith,
  Bytes, nat_beq, ℤ, pos, negsuc, if◌then◌else◌, nat_eq, subst,
}
use mathlib.Core.Option.{some-injective}
use cpp_socket_chat.Members.{member}
use cpp_socket_chat.Numerals.{skip_spaces, is_digit, to_int, Digits, digits}
use cpp_socket_chat.Client.Ui.Streams.{
  Console, newline, good, split_line, get_line, read_line, read_word, read_int, ignore_line, signed,
  number_of,
}

-- A line is read up to its newline, whatever follows.
pub split_line-line :
    (line rest : Bytes)
    → member newline line ≡ false
    → split_line (line ++ newline ∷ rest) ≡ (line, some rest)
unfolding split_line member
split_line-line [] rest h = refl
split_line-line (b ∷ bs) rest h = ground (arith, split_line-line bs rest)

pub get_line-line :
    (line rest : Bytes) (c : Console)
    → member newline line ≡ false
    → good c ≡ true
    → c.input ≡ line ++ newline ∷ rest
    → get_line c ≡ (line, record c { input = rest })
unfolding get_line read_line
get_line-line line rest c h g e = rw (g, e, split_line-line line rest h) refl

-- Reading stops at what has failed.
pub read_word-stuck : (c : Console) → good c ≡ false → read_word c ≡ ([], record c { fail = true })
unfolding read_word
read_word-stuck c h = rw h refl

pub read_word-blank :
    (c : Console)
    → good c ≡ true
    → skip_spaces c.input ≡ []
    → read_word c ≡ ([], record c { input = []; eof = true; fail = true })
unfolding read_word
read_word-blank c h e = rw (h, e) refl

pub read_int-stuck : (c : Console) → good c ≡ false → read_int c ≡ (none, record c { fail = true })
unfolding read_int
read_int-stuck c h = rw h refl

pub ignore_line-stuck : (c : Console) → good c ≡ false → ignore_line c ≡ record c { fail = true }
unfolding ignore_line
ignore_line-stuck c h = rw h refl

-- Something else than a number is read as 0, once, and the stream has failed.
pub read_int-letter :
    (c : Console) (b : ℕ) (bs : Bytes)
    → good c ≡ true
    → skip_spaces c.input ≡ b ∷ bs
    → (is_digit b || nat_beq b b'-' || nat_beq b b'+') ≡ false
    → read_int c ≡ (some (pos 0), record c { input = b ∷ bs; eof = false; fail = true })
unfolding read_int signed number_of digits
read_int-letter c b bs h e n = ground (arith, h, e, n)

-- The `int`s.
unfoldable pub IsInt : ℤ → Type 0
IsInt (pos n) = n < 2 ^ 31
IsInt (negsuc n) = n < 2 ^ 31

pub to_int-IsInt : (negative : Bool) (n : ℕ) → IsInt (to_int negative n)
unfolding IsInt
to_int-IsInt true zero = omega arith
to_int-IsInt true (suc n) = ground arith
to_int-IsInt false n = ground arith

value-IsInt : (any negative : Bool) (n : ℕ) → IsInt (if any then to_int negative n else pos 0)
unfolding IsInt
value-IsInt true negative n = to_int-IsInt negative n
value-IsInt false negative n = omega arith

number_of-IsInt :
    (negative : Bool) (d : Digits) (c : Console) (n : ℤ)
    → (number_of negative d c).0 ≡ some n
    → IsInt n
unfolding number_of IsInt
number_of-IsInt negative d c n h =
    subst IsInt (some-injective _ _ h) (value-IsInt d.any negative d.value)

signed-IsInt : (bs : Bytes) (c : Console) (n : ℤ) → (signed bs c).0 ≡ some n → IsInt n
unfolding signed
signed-IsInt [] c n h = cc
signed-IsInt (b ∷ bs) c n h = ground (
  arith,
  number_of-IsInt true (digits bs 0 false) c n,
  number_of-IsInt false (digits bs 0 false) c n,
  number_of-IsInt false (digits (b ∷ bs) 0 false) c n,
)

-- What is read into an `int` is one, whatever was typed.
pub read_int-IsInt : (c : Console) (n : ℤ) → (read_int c).0 ≡ some n → IsInt n
unfolding read_int
read_int-IsInt c n h = ground (arith, signed-IsInt (skip_spaces c.input) c n)
