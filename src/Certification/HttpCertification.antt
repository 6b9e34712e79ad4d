-- ===== src/Certification/HttpCertification.antt =====
-- packages/ic-http-certification/src/tree/certification.rs: `HttpCertification`.
use response_verification.Common.{Bool, true, false, if◌then◌else◌, Option, List, [], ◌∷◌}
use response_verification.Common.Bytes.{Bytes, bytes_eq}
use response_verification.Common.Results.{ok, err, ◌>>=◌}
use response_verification.Common.Sha.{Sha256}
use response_verification.Response.Hashes.{CelExpression}
use response_verification.Response.Headers.{
  Header, HttpResponse, ResponseCertification, certificate_expression_header_name,
}
use response_verification.Certification.{
  Library, HttpRequest, RequestCertification, HttpCertificationResult,
  certificate_expression_header_mismatch, certificate_expression_header_missing,
  multiple_certificate_expression_headers,
}
use response_verification.Certification.ResponseHash.{response_hash}
use response_verification.Certification.RequestHash.{request_hash}
use response_verification.Certification.CelText.{create_default_cel_expr}

-- `HttpCertificationType`; its fields are hashes.
pub data HttpCertification : Type 0 where
  skip : Bytes → HttpCertification
  response_only : Bytes → Bytes → HttpCertification
  full : Bytes → Bytes → Bytes → HttpCertification

unfoldable pub certification_path : HttpCertification → List Bytes
certification_path (HttpCertification.skip cel_expr_hash) = cel_expr_hash ∷ []
certification_path (HttpCertification.response_only cel_expr_hash response_hash) =
    cel_expr_hash ∷ [] ∷ response_hash ∷ []
certification_path (HttpCertification.full cel_expr_hash request_hash response_hash) =
    cel_expr_hash ∷ request_hash ∷ response_hash ∷ []

module _ (library : Library) where
  abbrev pub is_expression_header : Bytes → Bool
  is_expression_header name =
      bytes_eq (library.to_lowercase name) (library.to_lowercase certificate_expression_header_name)

  -- The `for` loop from a header on, with `found_header`.
  unfoldable pub validate_headers : Bytes → Bool → List Header → HttpCertificationResult (Unit {0})
  validate_headers cel_expr true [] = ok tt
  validate_headers cel_expr false [] = err (certificate_expression_header_missing cel_expr)
  validate_headers cel_expr found ((name, value) ∷ hs) =
      let more = validate_headers cel_expr found hs in
      let next = validate_headers cel_expr true hs in
      if is_expression_header name
      then (if bytes_eq value cel_expr
          then (if found then err (multiple_certificate_expression_headers cel_expr) else next)
          else err (certificate_expression_header_mismatch cel_expr value))
      else more

  unfoldable pub validate_response : HttpResponse → Bytes → HttpCertificationResult (Unit {0})
  validate_response response cel_expr = validate_headers cel_expr false response.headers

  module _ ⦃sha : Sha256⦄ where
    unfoldable pub skip_certification : HttpCertification
    skip_certification =
        HttpCertification.skip (sha.hash (create_default_cel_expr CelExpression.skip))

    unfoldable pub certify_response_only :
        ResponseCertification
        → HttpResponse
        → Option Bytes
        → HttpCertificationResult HttpCertification
    certify_response_only certification response body_hash = do
      let cel_expr = create_default_cel_expr (CelExpression.response_only certification)
      _ ← validate_response response cel_expr
      ok (
          HttpCertification.response_only (sha.hash cel_expr)
            (response_hash library.leb128 response certification body_hash))

    unfoldable pub certify_full :
        RequestCertification
        → ResponseCertification
        → HttpRequest
        → HttpResponse
        → Option Bytes
        → HttpCertificationResult HttpCertification
    certify_full for_request certification request response body_hash = do
      let cel_expr = create_default_cel_expr (CelExpression.full for_request certification)
      _ ← validate_response response cel_expr
      hash_of_request ← request_hash library request for_request
      ok (
          HttpCertification.full (sha.hash cel_expr) hash_of_request
            (response_hash library.leb128 response certification body_hash))
