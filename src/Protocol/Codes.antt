-- ===== src/Protocol/Codes.antt =====
-- The numbers of the packet types.
use cpp_socket_chat.Prelude.{ℕ, ◌<◌, ◌≡◌, ◌≢◌, refl, arith}
use cpp_socket_chat.Protocol.{PacketType, nickname_request, other, to_code, of_code}

-- Every 16-bit number is the number of the packet type that it is cast to.
pub to_code-of_code : (n : ℕ) → to_code (of_code n) ≡ n
unfolding to_code of_code
to_code-of_code n = ground arith

-- A type that the protocol names.
abbrev pub IsNamed : PacketType → Type 0
IsNamed t = (n : ℕ) → t ≢ other n

-- A type that the protocol names is read back from its number.
pub of_code-to_code : (t : PacketType) → IsNamed t → of_code (to_code t) ≡ t
unfolding to_code of_code
of_code-to_code (other n) h = absurd (h n refl)
of_code-to_code nickname_request h = refl
of_code-to_code _ h = refl

pub to_code-lt : (t : PacketType) → IsNamed t → to_code t < 65536
unfolding to_code
to_code-lt (other n) h = absurd (h n refl)
to_code-lt nickname_request h = omega arith
to_code-lt _ h = omega arith
