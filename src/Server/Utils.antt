-- ===== src/Server/Utils.antt =====
-- utils::generateRandomCode (server/src/common/Utils.cpp), which no other file calls. The numbers that
-- the generator draws are an argument: `dis i` is the i-th.
use cpp_socket_chat.Prelude.{ℕ, zero, suc, [], ◌∷◌, Bytes, bytes}
use cpp_socket_chat.Server.Rooms.{char_at}

unfoldable pub chars : Bytes
unfolding bytes
chars = bytes "ABCDEFGHIJKLMNOPQRSTUVWXYZabcdefghijklmnopqrstuvwxyz0123456789"

unfoldable pub generate_random_code : (ℕ → ℕ) → ℕ → ℕ → Bytes
unfolding chars
generate_random_code dis zero i = []
generate_random_code dis (suc length) i =
    char_at chars (dis i) ∷ generate_random_code dis length (suc i)
