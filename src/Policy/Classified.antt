-- ===== src/Policy/Classified.antt =====
-- The wire form of a preset: crates/codex-runtime/src/runtime/api/types/policies.rs.
use coclai.Prelude.{
  String, ◌≡◌, refl, ap, true, false, none, some, List, [], ◌∷◌, map, arith, trim, codes, is_empty,
  ◌==◌, ◌∙◌, trim, codes, is_empty,
}
use coclai.Checked.{ok}
use coclai.Json.{Json}
use coclai.Policy.{
  SandboxPreset, read_only, workspace_write, danger_full_access, external_sandbox,
  summarize_sandbox_preset, summarize_sandbox_policy_wire_value, sandbox_preset_to_wire_value,
  texts, as_wire, any_root, parse_sandbox_policy_type, sandbox_policy_kind_from_wire,
  writable_roots_non_empty,
}

module _ (json : Json) where
  open json use {
    get, as_str, is_object, insert_field, empty_object, of_array, of_string, of_bool,
    as_str-of_string, get-insert_field, get-empty_object, is_object-empty_object,
    is_object-insert_field, as_array-of_array,
  }

  texts-of_string : (ss : List String) → texts json (map of_string ss) ≡ ss
  texts-of_string [] = refl
  texts-of_string (s ∷ ss) = rw (as_str-of_string s) (ap (◌∷◌ s) (texts-of_string ss))

  -- What the summary of an object with a type is.
  summary_of :
      (value type_value : json.Value) (type_name field_path : String)
      → is_object value ≡ true
      → get "type" value ≡ some type_value
      → as_str type_value ≡ some type_name
      → is_empty (trim (codes type_name)) ≡ false
      → summarize_sandbox_policy_wire_value json value field_path
        ≡ ok (record {
          kind = sandbox_policy_kind_from_wire (trim (codes type_name));
          has_non_empty_writable_roots = writable_roots_non_empty json value;
        })
  unfolding summarize_sandbox_policy_wire_value parse_sandbox_policy_type
  summary_of value type_value type_name field_path o t s n = ground arith

  no_roots :
      (value : json.Value)
      → get "writableRoots" value ≡ none
      → writable_roots_non_empty json value ≡ false
  unfolding writable_roots_non_empty
  no_roots value h = ground arith

  some_roots :
      (value : json.Value) (roots : List String)
      → get "writableRoots" value ≡ some (of_array (map of_string roots))
      → writable_roots_non_empty json value ≡ any_root roots
  unfolding writable_roots_non_empty
  some_roots value roots h =
      rw
        (
          h,
          writable_roots_non_empty,
          as_array-of_array (map of_string roots),
          texts-of_string roots,
        )
        refl

  -- The object that every preset starts from.
  typed : String → json.Value
  typed type_name = insert_field "type" (of_string type_name) empty_object

  typed-is_object : (type_name : String) → is_object (typed type_name) ≡ true
  unfolding typed
  typed-is_object type_name =
      is_object-insert_field "type" (of_string type_name) empty_object is_object-empty_object

  get-typed : (type_name : String) → get "type" (typed type_name) ≡ some (of_string type_name)
  unfolding typed
  get-typed type_name =
      get-insert_field "type" "type" (of_string type_name) empty_object is_object-empty_object

  get-typed_other : (type_name k : String) → ("type" == k) ≡ false → get k (typed type_name) ≡ none
  unfolding typed
  get-typed_other type_name k h =
      rw (get-insert_field "type" k (of_string type_name) empty_object is_object-empty_object, h)
        (get-empty_object k)

  -- A field that is set leaves the others.
  get-set_other :
      (k j : String) (v o : json.Value)
      → is_object o ≡ true
      → (k == j) ≡ false
      → get j (insert_field k v o) ≡ get j o
  get-set_other k j v o h e = rw (get-insert_field k j v o h, e) refl

  -- A preset that is sent to the server and read back there as a raw policy is classified as the
  -- preset itself, whatever its fields are.
  pub summarize_sandbox_policy_wire_value-to_wire :
      (p : SandboxPreset) (field_path : String)
      → summarize_sandbox_policy_wire_value json (sandbox_preset_to_wire_value json p) field_path
        ≡ ok (summarize_sandbox_preset p)
  unfolding summarize_sandbox_preset sandbox_preset_to_wire_value typed
      sandbox_policy_kind_from_wire
  summarize_sandbox_policy_wire_value-to_wire read_only field_path =
      rw
        (
          summary_of (typed "readOnly") (of_string "readOnly") "readOnly" field_path
              (typed-is_object "readOnly") (get-typed "readOnly") (as_str-of_string "readOnly")
              refl,
          no_roots (typed "readOnly") (get-typed_other "readOnly" "writableRoots" refl),
        )
        refl
  summarize_sandbox_policy_wire_value-to_wire danger_full_access field_path =
      rw
        (
          summary_of (typed "dangerFullAccess") (of_string "dangerFullAccess") "dangerFullAccess"
              field_path (typed-is_object "dangerFullAccess") (get-typed "dangerFullAccess")
              (as_str-of_string "dangerFullAccess") refl,
          no_roots (typed "dangerFullAccess")
              (get-typed_other "dangerFullAccess" "writableRoots" refl),
        )
        refl
  summarize_sandbox_policy_wire_value-to_wire (external_sandbox access) field_path =
      let base = typed "externalSandbox" in
      let o = typed-is_object "externalSandbox" in
      let v = of_string (as_wire access) in
      let value = insert_field "networkAccess" v base in
      rw
        (
          summary_of value (of_string "externalSandbox") "externalSandbox" field_path
              (is_object-insert_field "networkAccess" v base o)
              (get-set_other "networkAccess" "type" v base o refl ∙ get-typed "externalSandbox")
              (as_str-of_string "externalSandbox") refl,
          no_roots value (
              get-set_other "networkAccess" "writableRoots" v base o refl
              ∙ get-typed_other "externalSandbox" "writableRoots" refl),
        )
        refl
  summarize_sandbox_policy_wire_value-to_wire (workspace_write roots access) field_path =
      let base = typed "workspaceWrite" in
      let o = typed-is_object "workspaceWrite" in
      let list = of_array (map of_string roots) in
      let rooted = insert_field "writableRoots" list base in
      let o' = is_object-insert_field "writableRoots" list base o in
      let value = insert_field "networkAccess" (of_bool access) rooted in
      rw
        (
          summary_of value (of_string "workspaceWrite") "workspaceWrite" field_path
              (is_object-insert_field "networkAccess" (of_bool access) rooted o')
              (get-set_other "networkAccess" "type" (of_bool access) rooted o' refl
                ∙ get-set_other "writableRoots" "type" list base o refl
                ∙ get-typed "workspaceWrite")
              (as_str-of_string "workspaceWrite") refl,
          some_roots value roots (
              get-set_other "networkAccess" "writableRoots" (of_bool access) rooted o' refl
              ∙ get-insert_field "writableRoots" "writableRoots" list base o),
        )
        refl
