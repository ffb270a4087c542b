-- ===== src/Members/Laws.antt =====
-- How the operations act on membership, on distinctness and on the number of elements.
use cpp_socket_chat.Prelude.{
  ◌≤◌, true, false, List, [], ◌∷◌, ◌++◌, ◌≡◌, refl, arith, Key, ◌==◌, ==_iff, length, if◌then◌else◌,
}
use cpp_socket_chat.Members.{member, add, remove, erase_first, Distinct}

module _ {ℓ} {A : Type ℓ} ⦃key : Key A⦄ where
  pub member-add :
      (a b : A) (xs : List A) → member b (add a xs) ≡ (if a == b then true else member b xs)
  unfolding add member
  member-add a b xs = ground (arith, ==_iff a b)

  pub member-remove :
      (a b : A) (xs : List A) → member b (remove a xs) ≡ (if a == b then false else member b xs)
  unfolding remove member
  member-remove a b [] = ground arith
  member-remove a b (x ∷ xs) =
      ground (arith, ==_iff a b, ==_iff x a, ==_iff x b, member-remove a b xs)

  pub member-push :
      (a b : A) (xs : List A) → member b (xs ++ a ∷ []) ≡ (if a == b then true else member b xs)
  unfolding member
  member-push a b [] = ground arith
  member-push a b (x ∷ xs) = ground (arith, member-push a b xs)

  pub member-erase_first_other :
      (a b : A) (xs : List A) → (a == b) ≡ false → member b (erase_first a xs) ≡ member b xs
  unfolding erase_first member
  member-erase_first_other a b [] h = refl
  member-erase_first_other a b (x ∷ xs) h =
      ground (arith, ==_iff a b, ==_iff x a, ==_iff x b, member-erase_first_other a b xs h)

  pub member-erase_first_self :
      (a : A) (xs : List A) → Distinct xs → member a (erase_first a xs) ≡ false
  unfolding erase_first member
  member-erase_first_self a [] d = refl
  member-erase_first_self a (x ∷ xs) d =
      ground (arith, ==_iff x a, member-erase_first_self a xs d.1)

  pub push-Distinct :
      (a : A) (xs : List A) → member a xs ≡ false → Distinct xs → Distinct (xs ++ a ∷ [])
  unfolding member
  push-Distinct a [] h d = (refl, tt)
  push-Distinct a (x ∷ xs) h d =
      ground (arith, ==_iff x a, ==_iff a x, member-push a x xs, push-Distinct a xs)

  pub erase_first-Distinct : (a : A) (xs : List A) → Distinct xs → Distinct (erase_first a xs)
  unfolding erase_first
  erase_first-Distinct a [] d = tt
  erase_first-Distinct a (x ∷ xs) d = ground (
    arith,
    ==_iff x a,
    ==_iff a x,
    member-erase_first_other a x xs,
    erase_first-Distinct a xs d.1,
  )

  pub length-erase_first-le : (a : A) (xs : List A) → length (erase_first a xs) ≤ length xs
  unfolding erase_first
  length-erase_first-le a [] = omega arith
  length-erase_first-le a (x ∷ xs) = ground (arith, length-erase_first-le a xs)

  pub erase_first_absent : (a : A) (xs : List A) → member a xs ≡ false → erase_first a xs ≡ xs
  unfolding erase_first member
  erase_first_absent a [] h = refl
  erase_first_absent a (x ∷ xs) h = ground (arith, erase_first_absent a xs)

  pub member-erase_first :
      (a b : A) (xs : List A)
      → Distinct xs
      → member b (erase_first a xs) ≡ (if a == b then false else member b xs)
  member-erase_first a b xs d =
      ground (arith, ==_iff a b, member-erase_first_other a b xs, member-erase_first_self a xs d)

  pub member-none : (a : A) (xs : List A) → length xs ≡ 0 → member a xs ≡ false
  unfolding member
  member-none a [] h = refl
  member-none a (x ∷ xs) h = absurd (omega arith)
