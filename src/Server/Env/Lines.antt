-- ===== src/Server/Env/Lines.antt =====
-- What a line of the file sets.
use cpp_socket_chat.Prelude.{
  ℕ, ◌≡◌, ◌≢◌, refl, ap, ◌∙◌, inl, inr, Bool, true, false, not, ◌&&◌, Bool-cases, some, List, [],
  ◌∷◌, ◌++◌, Bytes, nat_beq, bytes_eq, ◌==◌, arith, if◌then◌else◌,
}
use cpp_socket_chat.Map.{Map, insert, lookup-insert}
use cpp_socket_chat.Server.Env.{strip_cr, split, set_entry, set_line, load, or_empty, get}

-- There is no '='.
abbrev pub no_delimiter : Bytes → Bool
no_delimiter [] = true
no_delimiter (c ∷ cs) = not (nat_beq c b'=') && no_delimiter cs

split-entry :
    (key value : Bytes) → no_delimiter key ≡ true → split (key ++ b'=' ∷ value) ≡ some (key, value)
unfolding split
split-entry [] value h = refl
split-entry (c ∷ cs) value h = ground (arith, split-entry cs value)

strip_cr-cons : (c : ℕ) (cs : Bytes) → c ≢ 13 → strip_cr cs ≡ cs → strip_cr (c ∷ cs) ≡ c ∷ cs
unfolding strip_cr
strip_cr-cons c [] h e = ground (arith, h)
strip_cr-cons c (d ∷ cs) h e = ap (◌∷◌ c) e

strip_cr-entry :
    (key value : Bytes)
    → strip_cr value ≡ value
    → strip_cr (key ++ b'=' ∷ value) ≡ key ++ b'=' ∷ value
unfolding strip_cr
strip_cr-entry [] value h = strip_cr-cons b'=' value (omega arith) h
strip_cr-entry (c ∷ []) value h = ap (◌∷◌ c) (strip_cr-entry [] value h)
strip_cr-entry (c ∷ (d ∷ cs)) value h = ap (◌∷◌ c) (strip_cr-entry (d ∷ cs) value h)

load-append :
    (lines more : List Bytes) (m : Map Bytes Bytes)
    → load (lines ++ more) m ≡ load more (load lines m)
unfolding load
load-append [] more m = refl
load-append (line ∷ lines) more m = load-append lines more (set_line (strip_cr line) m)

get-insert :
    (key j value : Bytes) (m : Map Bytes Bytes)
    → get j (insert key value m) ≡ (if key == j then value else get j m)
unfolding get or_empty
get-insert key j value m = elim (Bool-cases (key == j)) [
  | inl same ↦ rw (lookup-insert key j value m, same) refl
  | inr other ↦ rw (lookup-insert key j value m, other) refl
]

-- A line "key=value" sets that key to that value, whatever stands in the lines before it, and no other
-- key; the key holds no '=' and does not begin with '#', and the value does not end with a '\r'.
pub get-load :
    (lines : List Bytes) (c : ℕ) (cs value j : Bytes) (m : Map Bytes Bytes)
    → no_delimiter (c ∷ cs) ≡ true
    → nat_beq c b'#' ≡ false
    → strip_cr value ≡ value
    → get j (load (lines ++ ((c ∷ cs) ++ b'=' ∷ value) ∷ []) m)
      ≡ (if (c ∷ cs) == j then value else get j (load lines m))
unfolding load set_line set_entry
get-load lines c cs value j m plain open_line whole =
    ap (get j) (load-append lines (((c ∷ cs) ++ b'=' ∷ value) ∷ []) m)
    ∙ rw (strip_cr-entry (c ∷ cs) value whole, open_line, split-entry (c ∷ cs) value plain)
        (get-insert (c ∷ cs) j value (load lines m))
