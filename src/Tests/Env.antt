-- ===== src/Tests/Env.antt =====
-- A file of two lines.
use cpp_socket_chat.Prelude.{◌≡◌, refl, [], ◌∷◌, bytes, bytes_beq}
use cpp_socket_chat.Server.Env.{strip_cr, load, get}
use cpp_socket_chat.Server.Env.Lines

get-load_example :
    get (bytes "PORT") (load (bytes "#PORT=1" ∷ bytes "PORT=8877" ∷ []) []) ≡ bytes "8877"
unfolding bytes bytes_beq strip_cr
get-load_example =
    Lines.get-load (bytes "#PORT=1" ∷ []) 80 (bytes "ORT") (bytes "8877") (bytes "PORT") [] refl
      refl refl
