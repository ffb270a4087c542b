-- ===== src/Json.antt =====
-- The library nlohmann::json, as far as the program calls it: a parameter of the model. A call that
-- may throw returns the exception as a value; its kind is that of the class that is thrown, and
-- `what` its text.
use cpp_socket_chat.Prelude.{Bool, List, Bytes, ℤ, ◌≡◌, refl, ◌⊎◌, inl, inr}

pub data JsonError : Type 0 where
  parse_error : Bytes → JsonError
  other_error : Bytes → JsonError

pub data Result {ℓ} (A : Type ℓ) : Type ℓ where
  ok : A → Result A
  throw : JsonError → Result A

-- What comes next, if nothing is thrown.
infixl 5 ◌>>=◌
abbrev pub ◌>>=◌ {ℓ κ} : {A : Type ℓ} {B : Type κ} → Result A → (A → Result B) → Result B
ok a >>= f = f a
throw e >>= f = throw e

pub Result-cases {ℓ} :
    {A : Type ℓ} (r : Result A) → ((a : A) × (r ≡ ok a)) ⊎ ((e : JsonError) × (r ≡ throw e))
Result-cases (ok a) = inl (a, refl)
Result-cases (throw e) = inr (e, refl)

-- e.what()
abbrev pub what : JsonError → Bytes
what (parse_error text) = text
what (other_error text) = text

pub record Json : Type 1 where
  pub Value : Type 0
  -- json::parse(text)
  pub parse : Bytes → Result Value
  -- j.contains(key)
  pub contains : Value → Bytes → Bool
  -- j[key]
  pub index : Value → Bytes → Result Value
  pub is_string : Value → Bool
  pub is_number : Value → Bool
  -- The conversions to `std::string` and to `int`.
  pub get_string : Value → Result Bytes
  pub get_int : Value → Result ℤ
  -- j.value(key, default)
  pub value_string : Value → Bytes → Bytes → Result Bytes
  pub value_int : Value → Bytes → ℤ → Result ℤ
  -- The conversions from `std::string` and from `int`.
  pub of_string : Bytes → Value
  pub of_int : ℤ → Value
  -- The object that the listed assignments `j[key] = value` make of a fresh `json`.
  pub object : List (Bytes × Value) → Value
  -- j.dump()
  pub dump : Value → Result Bytes
