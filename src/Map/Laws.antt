-- ===== src/Map/Laws.antt =====
-- How each operation of the map acts on every key, and on the number of elements.
use mathlib.Core.Option
use cpp_socket_chat.Prelude.{
  suc, ◌≤◌, none, some, ◌⊎◌, inl, inr, false, Bool-cases, Option-cases, [], ◌∷◌, ◌≡◌, refl, arith,
  Key, ◌==◌, ==_iff, length, if◌then◌else◌,
}
use cpp_socket_chat.Map.Defs.{Map, lookup, insert, erase, adjust, UniqueKeys}

module _ {ℓ κ} {K : Type ℓ} {V : Type κ} ⦃key : Key K⦄ where
  -- A write is read back under its key, and every other key is read as before.
  pub lookup-insert :
      (k j : K) (new : V) (m : Map K V)
      → lookup j (insert k new m) ≡ (if k == j then some new else lookup j m)
  unfolding insert lookup
  lookup-insert k j new [] = refl
  lookup-insert k j new ((i, old) ∷ rest) =
      ground (arith, ==_iff i j, ==_iff i k, ==_iff k j, lookup-insert k j new rest)

  pub lookup-erase :
      (k j : K) (m : Map K V) → lookup j (erase k m) ≡ (if k == j then none else lookup j m)
  unfolding lookup erase
  lookup-erase k j [] = ground arith
  lookup-erase k j ((i, w) ∷ m) =
      ground (arith, ==_iff k j, ==_iff i k, ==_iff i j, lookup-erase k j m)

  pub lookup-adjust :
      (k j : K) (f : V → V) (m : Map K V)
      → lookup j (adjust k f m) ≡ (if k == j then Option.map f (lookup j m) else lookup j m)
  unfolding lookup adjust
  lookup-adjust k j f [] = ground arith
  lookup-adjust k j f ((i, w) ∷ m) =
      ground (arith, ==_iff k j, ==_iff i k, ==_iff i j, lookup-adjust k j f m)

  -- An element after a write was there before, and was written if it is under the key.
  pub lookup-adjust_cases :
      (k j : K) (f : V → V) (m : Map K V) (w : V)
      → lookup j (adjust k f m) ≡ some w
      → ((v : V) × (k ≡ j) × (lookup j m ≡ some v) × (w ≡ f v))
        ⊎ (((k == j) ≡ false) × (lookup j m ≡ some w))
  lookup-adjust_cases k j f m w h = elim (Bool-cases (k == j)) [
    | inr other ↦ inr (other, ground (arith, lookup-adjust k j f m))
    | inl same ↦ elim (Option-cases (lookup j m)) [
      | inl e ↦ absurd (ground (arith, lookup-adjust k j f m))
      | inr (v, e) ↦ inl (v, (==_iff k j).0 same, e, ground (arith, lookup-adjust k j f m))
    ]
  ]

  pub lookup-insert_cases :
      (k j : K) (v : V) (m : Map K V) (w : V)
      → lookup j (insert k v m) ≡ some w
      → ((k ≡ j) × (w ≡ v)) ⊎ (((k == j) ≡ false) × (lookup j m ≡ some w))
  lookup-insert_cases k j v m w h = ground (arith, lookup-insert k j v m, ==_iff k j)

  pub lookup-erase_cases :
      (k j : K) (m : Map K V) (w : V)
      → lookup j (erase k m) ≡ some w
      → ((k == j) ≡ false) × (lookup j m ≡ some w)
  lookup-erase_cases k j m w h = ground (arith, lookup-erase k j m)

  pub length-adjust : (k : K) (f : V → V) (m : Map K V) → length (adjust k f m) ≡ length m
  unfolding adjust
  length-adjust k f [] = refl
  length-adjust k f ((j, v) ∷ m) = ground (arith, length-adjust k f m)

  pub length-insert-le : (k : K) (v : V) (m : Map K V) → length (insert k v m) ≤ suc (length m)
  unfolding insert
  length-insert-le k v [] = omega arith
  length-insert-le k v ((j, w) ∷ m) = ground (arith, length-insert-le k v m)

  -- A key that was not there adds one element.
  pub length-insert_new :
      (k : K) (v : V) (m : Map K V) → lookup k m ≡ none → length (insert k v m) ≡ suc (length m)
  unfolding insert lookup
  length-insert_new k v [] h = refl
  length-insert_new k v ((j, w) ∷ m) h = ground (arith, length-insert_new k v m)

  pub length-erase-le : (k : K) (m : Map K V) → length (erase k m) ≤ length m
  unfolding erase
  length-erase-le k [] = omega arith
  length-erase-le k ((j, v) ∷ m) = ground (arith, length-erase-le k m)

  pub insert-UniqueKeys : (k : K) (v : V) (m : Map K V) → UniqueKeys m → UniqueKeys (insert k v m)
  unfolding insert lookup
  insert-UniqueKeys k v [] u = (refl, tt)
  insert-UniqueKeys k v ((j, w) ∷ m) u =
      ground (arith, ==_iff j k, ==_iff k j, insert-UniqueKeys k v m u.1, lookup-insert k j v m)

  pub erase-UniqueKeys : (k : K) (m : Map K V) → UniqueKeys m → UniqueKeys (erase k m)
  unfolding erase
  erase-UniqueKeys k [] u = tt
  erase-UniqueKeys k ((j, v) ∷ m) u =
      ground (arith, ==_iff k j, erase-UniqueKeys k m u.1, lookup-erase k j m)

  pub adjust-UniqueKeys :
      (k : K) (f : V → V) (m : Map K V) → UniqueKeys m → UniqueKeys (adjust k f m)
  unfolding adjust
  adjust-UniqueKeys k f [] u = tt
  adjust-UniqueKeys k f ((j, v) ∷ m) u =
      ground (arith, ==_iff k j, adjust-UniqueKeys k f m u.1, lookup-adjust k j f m)

  adjust-absent : (k : K) (f : V → V) (m : Map K V) → lookup k m ≡ none → adjust k f m ≡ m
  unfolding lookup adjust
  adjust-absent k f [] h = refl
  adjust-absent k f ((j, v) ∷ m) h = ground (arith, adjust-absent k f m)

  -- A write of what is there already.
  pub adjust_same :
      (k : K) (v : V) (m : Map K V) → UniqueKeys m → lookup k m ≡ some v → adjust k (λ _. v) m ≡ m
  unfolding lookup adjust
  adjust_same k v [] u h = refl
  adjust_same k v ((j, w) ∷ m) u h =
      ground (arith, ==_iff j k, adjust-absent k (λ (x : V). v) m, adjust_same k v m u.1)

pub ruleset map_laws = (lookup-insert, lookup-erase, lookup-adjust)
