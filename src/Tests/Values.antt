-- ===== src/Tests/Values.antt =====
-- A small JSON library: texts, and objects as the list of the fields set, the last set first.
use coclai.Prelude.{
  decimal, ◌≡◌, ap, ◌∷◌, [], List, ℕ, ℤ, pos, Bool, refl, String, Bool, true, false, Option, none,
  some, if◌then◌else◌, ◌==◌, arith, eq_iff,
}
use coclai.Json.{Json}

mutual
  pub data Value : Type 0 where
    null empty : Value
    text : String → Value
    bool : Bool → Value
    number : ℤ → Value
    array : Values → Value
    field : String → Value → Value → Value

  pub data Values : Type 0 where
    nil : Values
    cons : Value → Values → Values

abbrev pub to_list : Values → List Value
to_list nil = []
to_list (cons v vs) = v ∷ to_list vs

abbrev pub of_list : List Value → Values
of_list [] = nil
of_list (v ∷ vs) = cons v (of_list vs)

pub to_list-of_list : (vs : List Value) → to_list (of_list vs) ≡ vs
to_list-of_list [] = refl
to_list-of_list (v ∷ vs) = ap (◌∷◌ v) (to_list-of_list vs)

abbrev pub get : String → Value → Option Value
get j (field k v o) = let rest = get j o in if k == j then some v else rest
get j _ = none

abbrev pub as_str : Value → Option String
as_str (text s) = some s
as_str _ = none

abbrev pub as_bool : Value → Option Bool
as_bool (bool b) = some b
as_bool _ = none

abbrev pub as_i64 : Value → Option ℤ
as_i64 (number n) = some n
as_i64 _ = none

abbrev pub as_u64 : Value → Option ℕ
as_u64 (number (pos n)) = some n
as_u64 _ = none

abbrev pub as_array : Value → Option (List Value)
as_array (array vs) = some (to_list vs)
as_array _ = none

abbrev pub is_null : Value → Bool
is_null null = true
is_null _ = false

abbrev pub has_fields : Value → Bool
has_fields (field k v o) = true
has_fields _ = false

abbrev pub is_object : Value → Bool
is_object empty = true
is_object (field k v o) = true
is_object _ = false

abbrev pub remove_field : String → Value → Value
remove_field k (field j v o) =
    let rest = remove_field k o in if j == k then rest else field j v rest
remove_field k o = o

pub get-remove_field :
    (k j : String) (o : Value) → get j (remove_field k o) ≡ (if k == j then none else get j o)
get-remove_field k j null = ground arith
get-remove_field k j empty = ground arith
get-remove_field k j (text s) = ground arith
get-remove_field k j (bool b) = ground arith
get-remove_field k j (number n) = ground arith
get-remove_field k j (array vs) = ground arith
get-remove_field k j (field i v o) =
    ground (arith, get-remove_field k j o, eq_iff i k, eq_iff i j, eq_iff k j)

abbrev pub small_json : Json
small_json = record {
  Value = Value;
  null = null;
  get = get;
  as_str = as_str;
  as_array = as_array;
  as_bool = as_bool;
  as_u64 = as_u64;
  as_i64 = as_i64;
  is_null = is_null;
  is_object = is_object;
  has_fields = has_fields;
  of_string = text;
  of_bool = bool;
  of_u64 = λ n. number (pos n);
  of_array = λ vs. array (of_list vs);
  empty_object = empty;
  singleton = λ k v. field k v empty;
  insert_field = field;
  remove_field = remove_field;
  as_str-of_string = λ s. refl;
  get-insert_field = λ k j v o h. refl;
  get-remove_field = λ k j o h. get-remove_field k j o;
  as_array-of_array = λ vs. ap some (to_list-of_list vs);
  is_object-empty_object = refl;
  get-empty_object = λ k. refl;
  is_object-insert_field = λ k v o h. refl;
}

decimal_run : decimal 18446744073709551615 ≡ "18446744073709551615"
decimal_run = refl
