-- ===== src/Cel.antt =====
-- packages/ic-response-verification/src/cel/ast_mapping.rs: what the syntax tree of a CEL expression
-- says of the certification; `CelValue` is that of parser.rs, `CelParserError` that of error.rs. A
-- `HashMap` is a list of fields, of which the first with a name counts. `Display` of a value, which the
-- errors only quote, is a parameter.
pub mod Describes
pub mod Nodes
pub mod Sound
pub mod RoundTrip
pub mod Notation
pub mod Complete
use response_verification.Common.{ℕ, if◌then◌else◌, Option, none, some, List, [], ◌∷◌}
use response_verification.Common.Bytes.{Bytes, codes, bytes_eq}
use response_verification.Common.Results.{Result, ok, err, ◌>>=◌}
use response_verification.Response.Hashes.{CelExpression}
use response_verification.Response.Headers.{
  ResponseCertification, certified_response_headers, response_header_exclusions,
}
use response_verification.Certification.{RequestCertification}

mutual
  pub data CelValue : Type 0 where
    string : Bytes → CelValue
    array : CelValues → CelValue
    object : Bytes → Fields → CelValue
    function : Bytes → CelValues → CelValue

  pub data CelValues : Type 0 where
    no_values : CelValues
    value : CelValue → CelValues → CelValues

  pub data Fields : Type 0 where
    no_fields : Fields
    field : Bytes → CelValue → Fields → Fields

-- `HashMap::get`.
unfoldable pub get_field : Fields → Bytes → Option CelValue
get_field no_fields name = none
get_field (field key v rest) name =
    let later = get_field rest name in if bytes_eq key name then some v else later

-- The errors of this file, with their fields in the source's order.
pub data CelParserError : Type 0 where
  missing_function_parameter : Bytes → Bytes → Bytes → ℕ → CelParserError
  unexpected_node_type : Bytes → Bytes → Bytes → CelParserError
  unexpected_node_name : Bytes → Bytes → Bytes → CelParserError
  missing_object_property : Bytes → Bytes → CelParserError
  extraneous_request_certification_property : CelParserError
  missing_request_certification_property : CelParserError
  extraneous_response_certification_property : CelParserError
  missing_response_certification_property : CelParserError
  extraneous_validation_args_property : CelParserError
  missing_validation_args_property : CelParserError

abbrev pub CelParserResult : Type 0 → Type 0
CelParserResult A = Result CelParserError A

-- `let Some(..) = .. else { return Err(..) }`.
abbrev pub property : Bytes → Bytes → Fields → CelParserResult CelValue
property object_name name fields = elim (get_field fields name) [
  | some v ↦ ok v
  | none ↦ err (missing_object_property object_name name)
]

abbrev pub response_properties :
    Option (List Bytes) → Option (List Bytes) → CelParserResult ResponseCertification
response_properties (some a) (some b) = err extraneous_response_certification_property
response_properties none none = err missing_response_certification_property
response_properties (some headers) none = ok (certified_response_headers headers)
response_properties none (some headers) = ok (response_header_exclusions headers)

abbrev pub expression_of :
    Option RequestCertification
    → ResponseCertification
    → CelExpression RequestCertification ResponseCertification
expression_of none response = CelExpression.response_only response
expression_of (some request) response = CelExpression.full request response

-- `first()` and its error.
abbrev pub first_argument : CelValues → CelParserResult CelValue
first_argument no_values = err (
    missing_function_parameter (codes "default_certification") (codes "Object")
      (codes "ValidationArgs") 0)
first_argument (value v rest) = ok v

module _ (to_string : CelValue → Bytes) where
  unfoldable pub validate_object : CelValue → Bytes → CelParserResult Fields
  validate_object (object object_name object_value) name =
      if bytes_eq object_name name
      then ok object_value
      else err (unexpected_node_name (codes "Object") name object_name)
  validate_object cel name = err (unexpected_node_type name (codes "Object") (to_string cel))

  unfoldable pub validate_function : CelValue → Bytes → CelParserResult CelValues
  validate_function (function function_name function_value) name =
      if bytes_eq function_name name
      then ok function_value
      else err (unexpected_node_name (codes "Function") name function_name)
  validate_function cel name = err (unexpected_node_type name (codes "Function") (to_string cel))

  -- The elements, up to the first that is not a string; the error quotes the array `cel`.
  unfoldable pub string_elements : CelValue → Bytes → CelValues → CelParserResult (List Bytes)
  string_elements cel name no_values = ok []
  string_elements cel name (value (string e) rest) = do
    es ← string_elements cel name rest
    ok (e ∷ es)
  string_elements cel name (value e rest) =
      err (unexpected_node_type name (codes "String") (to_string cel))

  unfoldable pub validate_string_array : CelValue → Bytes → CelParserResult (List Bytes)
  validate_string_array (array elements) name = string_elements (array elements) name elements
  validate_string_array cel name = err (unexpected_node_type name (codes "Array") (to_string cel))

  -- The last branch of the `match`.
  unfoldable pub request_certification_of : CelValue → CelParserResult RequestCertification
  request_certification_of cel = do
    fields ← validate_object cel (codes "RequestCertification")
    headers ← property (codes "RequestCertification") (codes "certified_request_headers") fields
    headers' ← validate_string_array headers (codes "certified_request_headers")
    parameters ← property (codes "RequestCertification") (codes "certified_query_parameters") fields
    parameters' ← validate_string_array parameters (codes "certified_query_parameters")
    ok (record { headers = headers'; query_parameters = parameters' })

  -- The `match` on both properties.
  abbrev pub request_properties :
      Option CelValue → Option CelValue → CelParserResult (Option RequestCertification)
  request_properties (some a) (some b) = err extraneous_request_certification_property
  request_properties none none = err missing_request_certification_property
  request_properties (some a) none = ok none
  request_properties none (some b) = do
    certification ← request_certification_of b
    ok (some certification)

  unfoldable pub validate_request_certification :
      Fields → CelParserResult (Option RequestCertification)
  validate_request_certification certification =
      request_properties (get_field certification (codes "no_request_certification"))
        (get_field certification (codes "request_certification"))

  abbrev pub listed : Bytes → Option CelValue → CelParserResult (Option (List Bytes))
  listed property_name none = ok none
  listed property_name (some cel) = do
    headers ← validate_string_array cel property_name
    ok (some headers)

  -- The closure: an object without headers counts as no property.
  unfoldable pub headers_in : Bytes → Option CelValue → CelParserResult (Option (List Bytes))
  headers_in property_name none = ok none
  headers_in property_name (some cel) = do
    fields ← validate_object cel (codes "ResponseHeaderList")
    listed property_name (get_field fields (codes "headers"))

  -- What follows once the property is found.
  unfoldable pub response_certification_of : CelValue → CelParserResult ResponseCertification
  response_certification_of cel = do
    fields ← validate_object cel (codes "ResponseCertification")
    certified ←
        headers_in (codes "certified_response_headers")
          (get_field fields (codes "certified_response_headers"))
    exclusions ←
        headers_in (codes "response_header_exclusions")
          (get_field fields (codes "response_header_exclusions"))
    response_properties certified exclusions

  unfoldable pub validate_response_certification : Fields → CelParserResult ResponseCertification
  validate_response_certification certification = do
    cel ← property (codes "RequestCertification") (codes "response_certification") certification
    response_certification_of cel

  unfoldable pub certification_of :
      CelValue → CelParserResult (CelExpression RequestCertification ResponseCertification)
  certification_of cel = do
    certification ← validate_object cel (codes "Certification")
    request ← validate_request_certification certification
    response ← validate_response_certification certification
    ok (expression_of request response)

  abbrev pub argument_properties :
      Option CelValue
      → Option CelValue
      → CelParserResult (CelExpression RequestCertification ResponseCertification)
  argument_properties (some a) (some b) = err extraneous_validation_args_property
  argument_properties none none = err missing_validation_args_property
  argument_properties (some a) none = ok CelExpression.skip
  argument_properties none (some certification) = certification_of certification

  unfoldable pub map_cel_ast :
      CelValue → CelParserResult (CelExpression RequestCertification ResponseCertification)
  map_cel_ast cel = do
    arguments ← validate_function cel (codes "default_certification")
    argument ← first_argument arguments
    fields ← validate_object argument (codes "ValidationArgs")
    argument_properties (get_field fields (codes "no_certification"))
        (get_field fields (codes "certification"))
