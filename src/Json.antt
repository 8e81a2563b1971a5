-- ===== src/Json.antt =====
-- The interface of the JSON library (`serde_json`), as far as the crate uses it: its values are an
-- abstract type, and its operations are the fields. The laws are the documented behaviour of
-- `Value::String`, `Map::insert` and `Map::remove` that the crate relies on.
use coclai.Prelude.{ℕ, ℤ, String, ◌≡◌, Bool, true, Option, none, some, List, if◌then◌else◌, ◌==◌}

pub record Json : Type 1 where
  pub Value : Type 0
  pub null : Value
  -- `Value::get` with a field name.
  pub get : String → Value → Option Value
  -- `Value::as_str`.
  pub as_str : Value → Option String
  -- `Value::as_array`.
  pub as_array : Value → Option (List Value)
  -- `Value::as_bool`, `Value::as_u64` and `Value::as_i64`.
  pub as_bool : Value → Option Bool
  pub as_u64 : Value → Option ℕ
  pub as_i64 : Value → Option ℤ
  -- The value is `Value::Null`.
  pub is_null : Value → Bool
  -- `Value::as_object` succeeds.
  pub is_object : Value → Bool
  -- The value is an object that is not empty.
  pub has_fields : Value → Bool
  -- `Value::String`.
  pub of_string : String → Value
  -- `Value::Bool`, `Value::from` of a `u64`, and `Value::Array`.
  pub of_bool : Bool → Value
  pub of_u64 : ℕ → Value
  pub of_array : List Value → Value
  -- `Map::new`.
  pub empty_object : Value
  -- The macro `json!({ key: value })`.
  pub singleton : String → Value → Value
  -- `Map::insert` and `Map::remove` on the fields of an object.
  pub insert_field : String → Value → Value → Value
  pub remove_field : String → Value → Value
  pub as_str-of_string : (s : String) → as_str (of_string s) ≡ some s
  pub get-insert_field :
      (k j : String) (v o : Value)
      → is_object o ≡ true
      → get j (insert_field k v o) ≡ (if k == j then some v else get j o)
  pub get-remove_field :
      (k j : String) (o : Value)
      → is_object o ≡ true
      → get j (remove_field k o) ≡ (if k == j then none else get j o)
  pub as_array-of_array : (vs : List Value) → as_array (of_array vs) ≡ some vs
  pub is_object-empty_object : is_object empty_object ≡ true
  pub get-empty_object : (k : String) → get k empty_object ≡ none
  pub is_object-insert_field :
      (k : String) (v o : Value) → is_object o ≡ true → is_object (insert_field k v o) ≡ true
