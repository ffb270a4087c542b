-- ===== src/Members.antt =====
-- `std::unordered_set` and the searches of a `std::vector`: lists with a test of membership.
pub mod Laws
use cpp_socket_chat.Prelude.{Bool, true, false, ◌||◌, List, [], ◌∷◌, ◌≡◌, Key, ◌==◌, if◌then◌else◌}

module _ {ℓ} {A : Type ℓ} ⦃key : Key A⦄ where
  -- s.count(a), std::find(v.begin(), v.end(), a) != v.end()
  unfoldable pub member : A → List A → Bool
  member a [] = false
  member a (x ∷ xs) = x == a || member a xs

  -- s.insert(a)
  unfoldable pub add : A → List A → List A
  add a xs = if member a xs then xs else a ∷ xs

  -- s.erase(a)
  unfoldable pub remove : A → List A → List A
  remove a [] = []
  remove a (x ∷ xs) = let rest = remove a xs in if x == a then rest else x ∷ rest

  -- v.erase(std::find(v.begin(), v.end(), a)), and nothing where `a` is not found
  unfoldable pub erase_first : A → List A → List A
  erase_first a [] = []
  erase_first a (x ∷ xs) = let rest = x ∷ erase_first a xs in if x == a then xs else rest

  -- No element twice.
  abbrev pub Distinct : List A → Type 0
  Distinct [] = Unit
  Distinct (x ∷ xs) = (member x xs ≡ false) × Distinct xs
