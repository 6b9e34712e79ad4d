-- ===== src/Cel/RoundTrip.antt =====
-- ast_mapping.rs: the syntax tree of an expression is read as the expression.
use response_verification.Common.{◌≡◌, refl, List, [], ◌∷◌}
use response_verification.Common.Bytes.{Bytes, codes, compare_bytes}
use response_verification.Common.Results.{ok}
use response_verification.Response.Hashes.{CelExpression}
use response_verification.Response.Headers.{
  ResponseCertification, certified_response_headers, response_header_exclusions,
}
use response_verification.Certification.{RequestCertification}
use response_verification.Certification.CelText.{headers_field, headers_of}
use response_verification.Cel.{
  CelValue, string, array, object, function, CelValues, no_values, value, Fields, no_fields, field,
  get_field, validate_object, validate_function, string_elements, validate_string_array,
  request_certification_of, validate_request_certification, headers_in, response_certification_of,
  validate_response_certification, certification_of, map_cel_ast,
}

abbrev pub string_values : List Bytes → CelValues
string_values [] = no_values
string_values (t ∷ ts) = value (string t) (string_values ts)

abbrev pub empty_object : CelValue
empty_object = object (codes "Empty") no_fields

abbrev pub request_ast : RequestCertification → CelValue
request_ast certification = object (codes "RequestCertification") (
    field (codes "certified_request_headers") (array (string_values certification.headers)) (
      field (codes "certified_query_parameters")
        (array (string_values certification.query_parameters)) no_fields))

abbrev pub response_ast : ResponseCertification → CelValue
response_ast certification = object (codes "ResponseCertification") (
    field (headers_field certification)
      (object (codes "ResponseHeaderList")
        (field (codes "headers") (array (string_values (headers_of certification))) no_fields))
      no_fields)

abbrev pub certified_ast : Bytes → CelValue → ResponseCertification → CelValue
certified_ast request_field request response = object (codes "Certification") (
    field request_field request
      (field (codes "response_certification") (response_ast response) no_fields))

abbrev pub arguments_ast : CelExpression RequestCertification ResponseCertification → Fields
arguments_ast CelExpression.skip = field (codes "no_certification") empty_object no_fields
arguments_ast (CelExpression.response_only response) =
    field (codes "certification")
      (certified_ast (codes "no_request_certification") empty_object response) no_fields
arguments_ast (CelExpression.full request response) =
    field (codes "certification")
      (certified_ast (codes "request_certification") (request_ast request) response) no_fields

-- The syntax tree of an expression; Cel/Notation relates it to the text.
abbrev pub expression_ast : CelExpression RequestCertification ResponseCertification → CelValue
expression_ast expression =
    function (codes "default_certification")
      (value (object (codes "ValidationArgs") (arguments_ast expression)) no_values)

module _ (to_string : CelValue → Bytes) where
  pub string_elements-string_values :
      (cel : CelValue) (name : Bytes) (ts : List Bytes)
      → string_elements to_string cel name (string_values ts) ≡ ok ts
  unfolding string_elements
  string_elements-string_values cel name [] = refl
  string_elements-string_values cel name (t ∷ ts) =
      rw (string_elements-string_values cel name ts) refl

  response_certification_of-response_ast :
      (response : ResponseCertification)
      → response_certification_of to_string (response_ast response) ≡ ok response
  unfolding response_certification_of validate_object headers_in validate_string_array get_field
      compare_bytes
  response_certification_of-response_ast (certified_response_headers hs) =
      rw (string_elements-string_values, response_certification_of) refl
  response_certification_of-response_ast (response_header_exclusions hs) =
      rw (string_elements-string_values, response_certification_of) refl

  request_certification_of-request_ast :
      (request : RequestCertification)
      → request_certification_of to_string (request_ast request) ≡ ok request
  unfolding request_certification_of validate_object validate_string_array get_field compare_bytes
  request_certification_of-request_ast request =
      rw (string_elements-string_values _ _ request.headers, request_certification_of)
        (rw (string_elements-string_values _ _ request.query_parameters, request_certification_of)
          refl)

  -- The syntax tree of an expression is read as the expression.
  pub map_cel_ast-expression_ast :
      (expression : CelExpression RequestCertification ResponseCertification)
      → map_cel_ast to_string (expression_ast expression) ≡ ok expression
  unfolding map_cel_ast validate_function validate_object certification_of
      validate_response_certification validate_request_certification get_field compare_bytes
  map_cel_ast-expression_ast CelExpression.skip = refl
  map_cel_ast-expression_ast (CelExpression.response_only response) =
      rw (response_certification_of-response_ast response) refl
  map_cel_ast-expression_ast (CelExpression.full request response) =
      rw (request_certification_of-request_ast request)
        (rw (response_certification_of-response_ast response) refl)
