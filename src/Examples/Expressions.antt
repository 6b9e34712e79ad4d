-- ===== src/Examples/Expressions.antt =====
-- Examples of the theorems on CEL expressions, and a tree that names two lists of headers.
use response_verification.Common.{◌≡◌, refl, ◌↔◌, [], ◌∷◌}
use response_verification.Common.Bytes.{Bytes, codes, compare_bytes}
use response_verification.Common.Results.{ok}
use response_verification.Response.Hashes.{CelExpression}
use response_verification.Response.Headers.{ResponseCertification, response_header_exclusions}
use response_verification.Certification.{RequestCertification}
use response_verification.Cel.{
  CelValue, array, object, function, no_values, value, no_fields, field, get_field, validate_object,
  validate_function, string_elements, validate_string_array, headers_in,
  validate_request_certification, response_certification_of, validate_response_certification,
  certification_of, map_cel_ast,
}
use response_verification.Cel.RoundTrip.{string_values, empty_object}
use response_verification.Cel.Describes.{Describes}
use response_verification.Cel.Complete.{map_cel_ast_lem}

abbrev no_text : CelValue → Bytes
no_text cel = []

abbrev exclusions : CelExpression RequestCertification ResponseCertification
exclusions = CelExpression.response_only (response_header_exclusions (codes "date" ∷ []))

-- It has both properties of the headers, but the object of the first has no headers.
abbrev both_lists : CelValue
both_lists = function (codes "default_certification") (
    value
      (object (codes "ValidationArgs") (
        field (codes "certification")
          (object (codes "Certification") (
            field (codes "no_request_certification") empty_object (
              field (codes "response_certification")
                (object (codes "ResponseCertification") (
                  field (codes "certified_response_headers")
                    (object (codes "ResponseHeaderList") no_fields)
                    (field (codes "response_header_exclusions")
                      (object (codes "ResponseHeaderList") (
                        field (codes "headers") (array (string_values (codes "date" ∷ [])))
                          no_fields))
                      no_fields)))
                no_fields)))
          no_fields))
      no_values)

both_lists_read : map_cel_ast no_text both_lists ≡ ok exclusions
unfolding map_cel_ast validate_function validate_object certification_of
    validate_request_certification validate_response_certification response_certification_of
    headers_in validate_string_array string_elements get_field compare_bytes
both_lists_read = refl

map_cel_ast_lem_example :
    (map_cel_ast no_text both_lists ≡ ok exclusions) ↔ Describes both_lists exclusions
map_cel_ast_lem_example = map_cel_ast_lem no_text both_lists exclusions
