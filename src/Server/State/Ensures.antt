-- ===== src/Server/State/Ensures.antt =====
-- Postconditions of actions: `P` holds of the server behind the action, whether it returns or throws,
-- and `Q` of what it returns. One rule for each way in which the handlers build an action.
use cpp_socket_chat.Prelude.{Bool, true, false, ◌≡◌, refl, if◌then◌else◌}
use cpp_socket_chat.Json.{Result, ok, throw}
use cpp_socket_chat.Server.State.{Server, Act, pure, lift, gets, modify, continue, ◌>>=◌, ◌>>◌}

abbrev pub Post : {A : Type 0} → (Server → Type 0) → (A → Type 0) → Result A × Server → Type 0
Post P Q (ok a, s) = P s × Q a
Post P Q (throw e, s) = P s

pub record Ensures {A : Type 0} (P : Server → Type 0) (Q : A → Type 0) (m : Act A) : Type 0 where
  pub at : (s : Server) → P s → Post P Q (m s)

module _ {A : Type 0} {P : Server → Type 0} {Q : A → Type 0} where
  pub Ensures-pure : (a : A) → Q a → Ensures P Q (pure a)
  unfolding pure
  Ensures-pure a q = record { at = λ s h. (h, q) }

  pub Ensures-if :
      (b : Bool) (m n : Act A)
      → (b ≡ true → Ensures P Q m)
      → (b ≡ false → Ensures P Q n)
      → Ensures P Q (if b then m else n)
  Ensures-if true m n km kn = km refl
  Ensures-if false m n km kn = kn refl

  pub Ensures-at : {m : Act A} → Ensures P Q m → (s : Server) → P s → Post P Q (m s)
  Ensures-at k s h = k.at s h

module _ {A B : Type 0} {P : Server → Type 0} {Q : B → Type 0} where
  -- A call that may throw and changes nothing.
  pub Ensures-lift :
      (r : Result A) (f : A → Act B)
      → ((a : A) → r ≡ ok a → Ensures P Q (f a))
      → Ensures P Q (lift r >>= f)
  unfolding ◌>>=◌
  Ensures-lift (ok a) f k = k a refl
  Ensures-lift (throw e) f k = record { at = λ s h. h }

module _ {A B : Type 0} {P : Server → Type 0} {Q : A → Type 0} where
  -- A read of the state: what follows is looked at where it was read.
  pub Ensures-gets :
      (g : Server → B) (f : B → Act A)
      → ((s : Server) → P s → Post P Q (f (g s) s))
      → Ensures P Q (gets g >>= f)
  unfolding ◌>>=◌
  Ensures-gets g f k = record { at = k }

module _ {A B : Type 0} {P : Server → Type 0} {Q : A → Type 0} {R : B → Type 0} where
  continue-Post :
      (r : Result A × Server) (f : A → Act B)
      → Post P Q r
      → ((a : A) → Q a → Ensures P R (f a))
      → Post P R (continue r f)
  continue-Post (ok a, s) f h k = (k a h.1).at s h.0
  continue-Post (throw e, s) f h k = h

  pub Ensures-bind :
      (m : Act A) (f : A → Act B)
      → Ensures P Q m
      → ((a : A) → Q a → Ensures P R (f a))
      → Ensures P R (m >>= f)
  unfolding ◌>>=◌
  Ensures-bind m f km kf = record { at = λ s h. continue-Post (m s) f (km.at s h) kf }

-- A change of the state that keeps `P`.
pub Ensures-modify :
    {A : Type 0} {P : Server → Type 0} {Q : A → Type 0} (g : Server → Server) (m : Act A)
    → ((s : Server) → P s → P (g s))
    → Ensures P Q m
    → Ensures P Q (modify g >> m)
unfolding ◌>>=◌
Ensures-modify g m keep k = record { at = λ s h. k.at (g s) (keep s h) }

pub Ensures-modify-pure :
    {P : Server → Type 0} (g : Server → Server)
    → ((s : Server) → P s → P (g s))
    → Ensures P (λ _. Unit {0}) (modify g)
unfolding modify
Ensures-modify-pure g keep = record { at = λ s h. (keep s h, tt) }

pub Ensures-state :
    {A : Type 0} {P : Server → Type 0} {Q : A → Type 0} {m : Act A}
    → Ensures P Q m
    → (s : Server) → P s
    → P (m s).1
Ensures-state {A} {P} {Q} {m} k s h = first (m s) (k.at s h)
  where
    first : (r : Result A × Server) → Post P Q r → P r.1
    first (ok a, s') h' = h'.0
    first (throw e, s') h' = h'
