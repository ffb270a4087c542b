-- ===== src/Prelude/Int.antt =====
-- The source's `int`, as an integer over the native numbers, and its conversion to `size_t`.
use Prim.Native.Nat.{ℕ, suc, ◌-◌, ◌^◌}
use mathlib.Core.Bool.{Bool, false}
use cpp_socket_chat.Prelude.Tests.{nat_beq}

-- `negsuc n` is -(n + 1).
pub data ℤ : Type 0 where
  pos : ℕ → ℤ
  negsuc : ℕ → ℤ

-- An `int` compared with a `size_t` is converted to it, modulo 2 ^ 64.
abbrev pub to_size_t : ℤ → ℕ
to_size_t (pos n) = n
to_size_t (negsuc n) = 2 ^ 64 - suc n

-- A descriptor, which is never negative, against an `int`.
abbrev pub fd_eq : ℕ → ℤ → Bool
fd_eq fd (pos n) = nat_beq fd n
fd_eq fd (negsuc n) = false
