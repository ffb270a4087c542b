-- ===== src/Server/Env.antt =====
-- Env (server/src/config/Env.cpp). The lines of the .env file are what std::getline gives; a file that
-- cannot be opened has none.
pub mod Lines
use cpp_socket_chat.Prelude.{
  ℕ, Bool, true, false, Option, none, some, List, [], ◌∷◌, Bytes, nat_beq, bytes_eq, if◌then◌else◌,
}
use cpp_socket_chat.Map.{Map, lookup, insert}

-- if (!line.empty() && line.back() == '\r') line.pop_back();
unfoldable pub strip_cr : Bytes → Bytes
strip_cr [] = []
strip_cr (c ∷ []) = if nat_beq c 13 then [] else c ∷ []
strip_cr (c ∷ (d ∷ cs)) = c ∷ strip_cr (d ∷ cs)

abbrev pub before : ℕ → Option (Bytes × Bytes) → Option (Bytes × Bytes)
before c none = none
before c (some (key, value)) = some (c ∷ key, value)

-- The text before the first '=', and that behind it.
unfoldable pub split : Bytes → Option (Bytes × Bytes)
split [] = none
split (c ∷ cs) = let rest = split cs in if nat_beq c b'=' then some ([], cs) else before c rest

-- A line without '=', or with nothing before it, is skipped.
set_entry : Option (Bytes × Bytes) → Map Bytes Bytes → Map Bytes Bytes
set_entry none m = m
set_entry (some ([], value)) m = m
set_entry (some (c ∷ key, value)) m = insert (c ∷ key) value m

-- A line without its '\r'.
set_line : Bytes → Map Bytes Bytes → Map Bytes Bytes
set_line [] m = m
set_line (c ∷ cs) m = if nat_beq c b'#' then m else set_entry (split (c ∷ cs)) m

-- Env::load
unfoldable pub load : List Bytes → Map Bytes Bytes → Map Bytes Bytes
unfolding set_line set_entry
load [] m = m
load (line ∷ lines) m = load lines (set_line (strip_cr line) m)

or_empty : Option Bytes → Bytes
or_empty none = []
or_empty (some value) = value

-- Env::get
unfoldable pub get : Bytes → Map Bytes Bytes → Bytes
unfolding or_empty
get key m = or_empty (lookup key m)
