-- ===== src/Tests/Toy.antt =====
-- A JSON library that the tests run with: its texts are tagged and counted instead of quoted.
use cpp_socket_chat.Prelude.{
  ℕ, zero, suc, ℤ, pos, negsuc, Option, none, some, Bool, true, false, List, [], ◌∷◌, ◌++◌, Bytes,
  bytes, length, take, drop, bytes_eq, bytes_beq, ◌==◌, if◌then◌else◌,
}
use cpp_socket_chat.Json.{Json, JsonError, parse_error, other_error, Result, ok, throw}

mutual
  pub data Value : Type 0 where
    null : Value
    text : Bytes → Value
    num : ℤ → Value
    obj : Fields → Value

  pub data Fields : Type 0 where
    end : Fields
    field : Bytes → Value → Fields → Fields

abbrev print_text : Bytes → Bytes
print_text bs = length bs ∷ bs

mutual
  print : Value → Bytes
  print null = 0 ∷ []
  print (text bs) = 1 ∷ print_text bs
  print (num (pos n)) = 2 ∷ n ∷ []
  print (num (negsuc n)) = 3 ∷ n ∷ []
  print (obj fs) = 4 ∷ print_fields fs

  print_fields : Fields → Bytes
  print_fields end = 0 ∷ []
  print_fields (field k v fs) = 1 ∷ (print_text k ++ (print v ++ print_fields fs))

abbrev then_value :
    Option (Value × Bytes) → (Value → Bytes → Option (Fields × Bytes)) → Option (Fields × Bytes)
then_value none f = none
then_value (some (v, bs)) f = f v bs

abbrev then_field : Bytes → Value → Option (Fields × Bytes) → Option (Fields × Bytes)
then_field k v none = none
then_field k v (some (fs, bs)) = some (field k v fs, bs)

abbrev as_object : Option (Fields × Bytes) → Option (Value × Bytes)
as_object none = none
as_object (some (fs, bs)) = some (obj fs, bs)

mutual
  read_value : ℕ → Bytes → Option (Value × Bytes)
  read_value zero bs = none
  read_value (suc f) [] = none
  read_value (suc f) (zero ∷ bs) = some (null, bs)
  read_value (suc f) (suc zero ∷ []) = none
  read_value (suc f) (suc zero ∷ (n ∷ bs)) = some (text (take n bs), drop n bs)
  read_value (suc f) (suc (suc zero) ∷ []) = none
  read_value (suc f) (suc (suc zero) ∷ (n ∷ bs)) = some (num (pos n), bs)
  read_value (suc f) (suc (suc (suc zero)) ∷ []) = none
  read_value (suc f) (suc (suc (suc zero)) ∷ (n ∷ bs)) = some (num (negsuc n), bs)
  read_value (suc f) (suc (suc (suc (suc zero))) ∷ bs) = as_object (read_fields f bs)
  read_value (suc f) (suc (suc (suc (suc (suc n)))) ∷ bs) = none

  read_fields : ℕ → Bytes → Option (Fields × Bytes)
  read_fields zero bs = none
  read_fields (suc f) [] = none
  read_fields (suc f) (zero ∷ bs) = some (end, bs)
  read_fields (suc f) (suc n ∷ []) = none
  read_fields (suc f) (suc n ∷ (l ∷ bs)) =
      then_value (read_value f (drop l bs)) λ v r. then_field (take l bs) v (read_fields f r)

as_value : Option (Value × Bytes) → Result Value
as_value none = throw (parse_error (bytes "syntax error"))
as_value (some (v, bs)) = ok v

member_value : Bytes → Fields → Option Value
member_value k end = none
member_value k (field j v fs) = if j == k then some v else member_value k fs

abbrev type_error : JsonError
type_error = other_error (bytes "type error")

toy_contains : Value → Bytes → Bool
toy_contains (obj fs) k = elim (member_value k fs) [ none ↦ false | some v ↦ true ]
toy_contains null k = false
toy_contains _ k = false

toy_index : Value → Bytes → Result Value
toy_index (obj fs) k = elim (member_value k fs) [ none ↦ ok null | some v ↦ ok v ]
toy_index null k = ok null
toy_index _ k = throw type_error

toy_is_string : Value → Bool
toy_is_string (text bs) = true
toy_is_string _ = false

toy_is_number : Value → Bool
toy_is_number (num n) = true
toy_is_number _ = false

toy_get_string : Value → Result Bytes
toy_get_string (text bs) = ok bs
toy_get_string _ = throw type_error

toy_get_int : Value → Result ℤ
toy_get_int (num n) = ok n
toy_get_int _ = throw type_error

or_default : {A : Type 0} → Option Value → A → (Value → Result A) → Result A
or_default none d f = ok d
or_default (some v) d f = f v

toy_value_string : Value → Bytes → Bytes → Result Bytes
toy_value_string (obj fs) k d = or_default (member_value k fs) d toy_get_string
toy_value_string _ k d = throw type_error

toy_value_int : Value → Bytes → ℤ → Result ℤ
toy_value_int (obj fs) k d = or_default (member_value k fs) d toy_get_int
toy_value_int _ k d = throw type_error

to_fields : List (Bytes × Value) → Fields
to_fields [] = end
to_fields ((k, v) ∷ l) = field k v (to_fields l)

unfoldable pub toy : Json
unfolding print read_value as_value member_value toy_contains toy_index toy_is_string toy_is_number
    toy_get_string toy_get_int or_default toy_value_string toy_value_int to_fields bytes bytes_beq
toy = record {
  Value = Value;
  parse = λ bs. as_value (read_value (suc (length bs)) bs);
  contains = toy_contains;
  index = toy_index;
  is_string = toy_is_string;
  is_number = toy_is_number;
  get_string = toy_get_string;
  get_int = toy_get_int;
  value_string = toy_value_string;
  value_int = toy_value_int;
  of_string = text;
  of_int = num;
  object = λ l. obj (to_fields l);
  dump = λ v. ok (print v);
}
