-- ===== src/Cel/Complete.antt =====
-- ast_mapping.rs: a syntax tree that describes a certification is read as it, and no other is.
use response_verification.Common.{◌≡◌, refl, Option, none, some, List, inl, inr, ◌↔◌}
use response_verification.Common.Bytes.{Bytes, codes, bytes_eq_refl}
use response_verification.Common.Results.{ok, bind_ok}
use response_verification.Response.Hashes.{CelExpression}
use response_verification.Response.Headers.{
  ResponseCertification, certified_response_headers, response_header_exclusions,
}
use response_verification.Certification.{RequestCertification}
use response_verification.Cel.{
  CelValue, array, object, function, CelValues, Fields, get_field, validate_object,
  validate_function, validate_string_array, property, request_certification_of,
  validate_request_certification, listed, headers_in, response_certification_of,
  validate_response_certification, certification_of, expression_of, argument_properties,
  map_cel_ast,
}
use response_verification.Cel.RoundTrip.{string_values}
use response_verification.Cel.Describes.{
  Lists, IsRequest, IsResponse, IsCertification, says_skip, says_response_only, says_full,
  Describes,
}
use response_verification.Cel.RoundTrip.{string_elements-string_values}
use response_verification.Cel.Sound.{map_cel_ast-ok}

module _ (to_string : CelValue → Bytes) where
  validate_object-object :
      (name : Bytes) (fs : Fields) → validate_object to_string (object name fs) name ≡ ok fs
  unfolding validate_object
  validate_object-object name fs = rw (bytes_eq_refl name) refl

  validate_string_array-array :
      (name : Bytes) (ts : List Bytes)
      → validate_string_array to_string (array (string_values ts)) name ≡ ok ts
  unfolding validate_string_array
  validate_string_array-array name ts =
      string_elements-string_values to_string (array (string_values ts)) name ts

  property-some :
      (object_name name : Bytes) (fs : Fields) (v : CelValue)
      → get_field fs name ≡ some v
      → property object_name name fs ≡ ok v
  property-some object_name name fs v e = rw (e, property) refl

  object-ok :
      {cel : CelValue} {name : Bytes} {fs : Fields}
      → cel ≡ object name fs
      → validate_object to_string cel name ≡ ok fs
  object-ok {cel} {name} {fs} e = rw (e) (validate_object-object name fs)

  request_certification_of-IsRequest :
      (cel : CelValue) (request : RequestCertification)
      → IsRequest cel request
      → request_certification_of to_string cel ≡ ok request
  unfolding request_certification_of
  request_certification_of-IsRequest cel request r = bind_ok _ _ (object-ok r.is_object) (
      bind_ok _ _ (property-some _ _ _ _ r.headers) (
        bind_ok _ _ (validate_string_array-array _ request.headers) (
          bind_ok _ _ (property-some _ _ _ _ r.parameters)
            (bind_ok _ _ (validate_string_array-array _ request.query_parameters) refl))))

  headers_in-Lists :
      (name : Bytes) (o : Option CelValue) (r : Option (List Bytes))
      → Lists o r
      → headers_in to_string name o ≡ ok r
  unfolding headers_in
  headers_in-Lists name o none (inl e) = rw (e, headers_in) refl
  headers_in-Lists name o none (inr (hs, e, f)) =
      rw (e, headers_in) (bind_ok _ _ (object-ok refl) (rw (f, listed) refl))
  headers_in-Lists name o (some ts) (hs, e, f) =
      rw (e, headers_in)
        (bind_ok _ _ (object-ok refl)
          (rw (f, listed) (bind_ok _ _ (validate_string_array-array name ts) refl)))

  response_certification_of-IsResponse :
      (cel : CelValue) (response : ResponseCertification)
      → IsResponse cel response
      → response_certification_of to_string cel ≡ ok response
  unfolding response_certification_of
  response_certification_of-IsResponse cel (certified_response_headers ts) r =
      bind_ok _ _ (object-ok r.is_object) (
        bind_ok _ _ (headers_in-Lists _ _ (some ts) r.listed)
          (bind_ok _ _ (headers_in-Lists _ _ none r.alone) refl))
  response_certification_of-IsResponse cel (response_header_exclusions ts) r =
      bind_ok _ _ (object-ok r.is_object) (
        bind_ok _ _ (headers_in-Lists _ _ none r.alone)
          (bind_ok _ _ (headers_in-Lists _ _ (some ts) r.listed) refl))

  certification_of-ok :
      (ps : Fields) (request : Option RequestCertification) (response : ResponseCertification)
      (cel : CelValue)
      → validate_request_certification to_string ps ≡ ok request
      → get_field ps (codes "response_certification") ≡ some cel
      → IsResponse cel response
      → certification_of to_string (object (codes "Certification") ps)
        ≡ ok (expression_of request response)
  unfolding certification_of validate_response_certification
  certification_of-ok ps request response cel e f r = bind_ok _ _ (object-ok refl) (
      bind_ok _ _ e (
        bind_ok _ _
          (bind_ok _ _ (property-some _ _ _ _ f)
            (response_certification_of-IsResponse cel response r))
          refl))

  argument_properties-says :
      (fs : Fields) (expression : CelExpression RequestCertification ResponseCertification)
      → IsCertification fs expression
      → argument_properties to_string
          (get_field fs (codes "no_certification"))
          (get_field fs (codes "certification"))
        ≡ ok expression
  unfolding validate_request_certification
  argument_properties-says fs x (says_skip a b) = rw (a, b) refl
  argument_properties-says fs x
        (says_response_only {properties = ps} {response_cel = cel} {response} a b c d e r) =
      rw (a, b) (certification_of-ok ps none response cel (rw (c, d) refl) e r)
  argument_properties-says fs x
        (says_full {properties = ps} {request_cel} {response_cel = cel} {request} {response} a b c d
          e q r) =
      rw (a, b)
        (certification_of-ok ps (some request) response cel
          (rw (c, d) (bind_ok _ _ (request_certification_of-IsRequest request_cel request q) refl))
          e r)

  function-ok :
      (name : Bytes) (vs : CelValues) → validate_function to_string (function name vs) name ≡ ok vs
  unfolding validate_function
  function-ok name vs = rw (bytes_eq_refl name) refl

  map_cel_ast-Describes :
      (cel : CelValue) (expression : CelExpression RequestCertification ResponseCertification)
      → Describes cel expression
      → map_cel_ast to_string cel ≡ ok expression
  unfolding map_cel_ast
  map_cel_ast-Describes cel expression d =
      rw (d.is_call, map_cel_ast)
        (bind_ok _ _ (function-ok _ _) (
          bind_ok _ _ (validate_object-object (codes "ValidationArgs") d.fields)
            (argument_properties-says d.fields expression d.says)))

  -- A syntax tree is read as an expression exactly if it is a call of `default_certification` whose
  -- first argument is an object `ValidationArgs` that says so: with the property `no_certification`
  -- or `certification` but not both, in the latter with `no_request_certification` or
  -- `request_certification` but not both, and with a list of headers under
  -- `certified_response_headers` or `response_header_exclusions` while the other of these two is
  -- missing or is a list object without the property `headers`, though the text of the error
  -- allows only one of the two. Further properties and arguments do not count.
  pub map_cel_ast_lem :
      (cel : CelValue) (expression : CelExpression RequestCertification ResponseCertification)
      → (map_cel_ast to_string cel ≡ ok expression) ↔ Describes cel expression
  map_cel_ast_lem cel expression =
      (map_cel_ast-ok to_string cel expression, map_cel_ast-Describes cel expression)
