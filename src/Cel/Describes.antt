-- ===== src/Cel/Describes.antt =====
-- ast_mapping.rs: which syntax trees are read as which certification.
use response_verification.Common.{◌≡◌, Option, none, some, List, ◌⊎◌}
use response_verification.Common.Bytes.{Bytes, codes}
use response_verification.Response.Hashes.{CelExpression}
use response_verification.Response.Headers.{
  ResponseCertification, certified_response_headers, response_header_exclusions,
}
use response_verification.Certification.{RequestCertification}
use response_verification.Certification.CelText.{headers_field, headers_of}
use response_verification.Cel.{
  CelValue, array, object, function, CelValues, value, Fields, get_field,
}
use response_verification.Cel.RoundTrip.{string_values}

-- An array of exactly these strings.
abbrev pub IsStrings : Option CelValue → List Bytes → Type 0
IsStrings o ts = o ≡ some (array (string_values ts))

-- The property lists these headers, or lists none: it is missing, or its object has no headers.
abbrev pub Lists : Option CelValue → Option (List Bytes) → Type 0
Lists o none =
    (o ≡ none)
    ⊎ ((hs : Fields) × (o ≡ some (object (codes "ResponseHeaderList") hs))
        × (get_field hs (codes "headers") ≡ none))
Lists o (some ts) =
    (hs : Fields) × (o ≡ some (object (codes "ResponseHeaderList") hs))
    × IsStrings (get_field hs (codes "headers")) ts

pub record IsRequest (cel : CelValue) (request : RequestCertification) : Type 0 where
  pub properties : Fields
  pub is_object : cel ≡ object (codes "RequestCertification") properties
  pub headers : IsStrings (get_field properties (codes "certified_request_headers")) request.headers
  pub parameters :
      IsStrings (get_field properties (codes "certified_query_parameters")) request.query_parameters

-- The other of the two properties.
abbrev pub other_field : ResponseCertification → Bytes
other_field (certified_response_headers hs) = codes "response_header_exclusions"
other_field (response_header_exclusions hs) = codes "certified_response_headers"

pub record IsResponse (cel : CelValue) (response : ResponseCertification) : Type 0 where
  pub properties : Fields
  pub is_object : cel ≡ object (codes "ResponseCertification") properties
  pub listed : Lists (get_field properties (headers_field response)) (some (headers_of response))
  pub alone : Lists (get_field properties (other_field response)) none

-- What the fields of `ValidationArgs` say.
pub data IsCertification (fields : Fields)
    : CelExpression RequestCertification ResponseCertification → Type 0 where
  says_skip :
      {v : CelValue}
      → get_field fields (codes "no_certification") ≡ some v
      → get_field fields (codes "certification") ≡ none
      → IsCertification fields CelExpression.skip
  says_response_only :
      {properties : Fields} {v response_cel : CelValue} {response : ResponseCertification}
      → get_field fields (codes "no_certification") ≡ none
      → get_field fields (codes "certification") ≡ some (object (codes "Certification") properties)
      → get_field properties (codes "no_request_certification") ≡ some v
      → get_field properties (codes "request_certification") ≡ none
      → get_field properties (codes "response_certification") ≡ some response_cel
      → IsResponse response_cel response
      → IsCertification fields (CelExpression.response_only response)
  says_full :
      {properties : Fields} {request_cel response_cel : CelValue} {request : RequestCertification}
      {response : ResponseCertification}
      → get_field fields (codes "no_certification") ≡ none
      → get_field fields (codes "certification") ≡ some (object (codes "Certification") properties)
      → get_field properties (codes "no_request_certification") ≡ none
      → get_field properties (codes "request_certification") ≡ some request_cel
      → get_field properties (codes "response_certification") ≡ some response_cel
      → IsRequest request_cel request
      → IsResponse response_cel response
      → IsCertification fields (CelExpression.full request response)

pub record Describes (cel : CelValue)
    (expression : CelExpression RequestCertification ResponseCertification) : Type 0 where
  pub fields : Fields
  pub more : CelValues
  pub is_call :
      cel
      ≡ function
          (codes "default_certification")
          (value (object (codes "ValidationArgs") fields) more)
  pub says : IsCertification fields expression
