-- ===== src/Cel/Nodes.antt =====
-- ast_mapping.rs: the nodes that are read without an error.
use response_verification.Common.{◌≡◌, ◌∙◌, ap, some, List, inl, inr, Bool-cases, Option-cases}
use response_verification.Common.Bytes.{Bytes, bytes_eq, eq_of_bytes_eq}
use response_verification.Common.Results.{ok, ok_of_bind, ok_inj}
use response_verification.Cel.{
  CelValue, string, array, object, function, CelValues, no_values, value, Fields, get_field,
  validate_object, validate_function, string_elements, validate_string_array, property,
}
use response_verification.Cel.RoundTrip.{string_values}

module _ (to_string : CelValue → Bytes) where
  pub validate_object-ok :
      (cel : CelValue) (name : Bytes) (fs : Fields)
      → validate_object to_string cel name ≡ ok fs
      → cel ≡ object name fs
  unfolding validate_object
  validate_object-ok (object n gs) name fs e = elim (Bool-cases (bytes_eq n name)) [
    | inl same ↦ rw (eq_of_bytes_eq n name same) (ap (object name) (ok_inj (rw same at e)))
    | inr other ↦ absurd (cc (rw other at e))
  ]
  validate_object-ok (string b) name fs e = cc e
  validate_object-ok (array vs) name fs e = cc e
  validate_object-ok (function n vs) name fs e = cc e

  pub validate_function-ok :
      (cel : CelValue) (name : Bytes) (vs : CelValues)
      → validate_function to_string cel name ≡ ok vs
      → cel ≡ function name vs
  unfolding validate_function
  validate_function-ok (function n us) name vs e = elim (Bool-cases (bytes_eq n name)) [
    | inl same ↦ rw (eq_of_bytes_eq n name same) (ap (function name) (ok_inj (rw same at e)))
    | inr other ↦ absurd (cc (rw other at e))
  ]
  validate_function-ok (string b) name vs e = cc e
  validate_function-ok (array us) name vs e = cc e
  validate_function-ok (object n fs) name vs e = cc e

  string_elements-ok :
      (cel : CelValue) (name : Bytes) (vs : CelValues) (ts : List Bytes)
      → string_elements to_string cel name vs ≡ ok ts
      → vs ≡ string_values ts
  unfolding string_elements
  string_elements-ok cel name no_values ts e = ap string_values (ok_inj e)
  string_elements-ok cel name (value (string b) rest) ts e =
      let (us, found, same) = ok_of_bind (string_elements to_string cel name rest) _ ts e in
      ap (value (string b)) (string_elements-ok cel name rest us found)
      ∙ ap string_values (ok_inj same)
  string_elements-ok cel name (value (array us) rest) ts e = cc e
  string_elements-ok cel name (value (object n fs) rest) ts e = cc e
  string_elements-ok cel name (value (function n us) rest) ts e = cc e

  pub validate_string_array-ok :
      (cel : CelValue) (name : Bytes) (ts : List Bytes)
      → validate_string_array to_string cel name ≡ ok ts
      → cel ≡ array (string_values ts)
  unfolding validate_string_array
  validate_string_array-ok (array vs) name ts e =
      ap array (string_elements-ok (array vs) name vs ts e)
  validate_string_array-ok (string b) name ts e = cc e
  validate_string_array-ok (object n fs) name ts e = cc e
  validate_string_array-ok (function n us) name ts e = cc e

  pub property-ok :
      (object_name name : Bytes) (fs : Fields) (v : CelValue)
      → property object_name name fs ≡ ok v
      → get_field fs name ≡ some v
  property-ok object_name name fs v e = elim (Option-cases (get_field fs name)) [
    | inl absent ↦ absurd (cc (rw (absent, property) at e))
    | inr (w, there) ↦ there ∙ ap some (ok_inj (rw (there, property) at e))
  ]
