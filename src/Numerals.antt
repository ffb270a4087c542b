-- ===== src/Numerals.antt =====
-- What the standard library's readers of text share: spaces, and the numbers that fit an `int`.
use cpp_socket_chat.Prelude.{
  ℕ, zero, suc, ◌+◌, ◌-◌, ◌*◌, ◌^◌, Bool, true, false, ◌&&◌, ◌||◌, not, Option, none, some, [], ◌∷◌,
  Bytes, ltb, leb, nat_beq, ℤ, pos, negsuc, if◌then◌else◌,
}

abbrev pub is_space : ℕ → Bool
is_space b = nat_beq b 32 || leb 9 b && leb b 13

unfoldable pub skip_spaces : Bytes → Bytes
skip_spaces [] = []
skip_spaces (b ∷ bs) = let rest = skip_spaces bs in if is_space b then rest else b ∷ bs

abbrev pub is_digit : ℕ → Bool
is_digit b = leb b'0' b && leb b b'9'

-- The number that the digits in front stand for, on top of those that were read, whether there are
-- any, and what is behind them.
pub record Digits : Type 0 where
  pub value : ℕ
  pub any : Bool
  pub rest : Bytes

unfoldable pub digits : Bytes → ℕ → Bool → Digits
digits [] n any = record { value = n; any = any; rest = [] }
digits (b ∷ bs) n any =
    let next = digits bs (n * 10 + (b - b'0')) true in
    if is_digit b then next else record { value = n; any = any; rest = b ∷ bs }

-- A number that no `int` holds becomes the nearest one, and the stream fails.
abbrev pub to_int : Bool → ℕ → ℤ
to_int true zero = pos zero
to_int true (suc n) = if leb (suc n) (2 ^ 31) then negsuc n else negsuc (2 ^ 31 - 1)
to_int false n = if ltb n (2 ^ 31) then pos n else pos (2 ^ 31 - 1)

abbrev pub is_out_of_range : Bool → ℕ → Bool
is_out_of_range true n = ltb (2 ^ 31) n
is_out_of_range false n = leb (2 ^ 31) n

stoi_digits : Bool → Digits → Option ℤ
stoi_digits negative d =
    if not d.any || is_out_of_range negative d.value then none else some (to_int negative d.value)

-- std::stoi; `none` where it throws. What follows the digits is not looked at.
stoi_signed : Bytes → Option ℤ
unfolding stoi_digits
stoi_signed [] = none
stoi_signed (b ∷ bs) =
    if nat_beq b b'-'
    then stoi_digits true (digits bs 0 false)
    else if nat_beq b b'+'
    then stoi_digits false (digits bs 0 false)
    else stoi_digits false (digits (b ∷ bs) 0 false)

unfoldable pub stoi : Bytes → Option ℤ
unfolding stoi_signed
stoi text = stoi_signed (skip_spaces text)
