-- ===== src/Response/Pair.antt =====
-- packages/ic-response-verification/src/verification: `verify_request_response_pair` with the two
-- versions of the verification, and `decode_body`.
pub mod Accepted
pub mod Versions
use response_verification.Common.{
  ℕ, Bool, ◌||◌, ◌==◌, ltb, if◌then◌else◌, Option, none, some, List, [], ◌∷◌, ◌++◌,
}
use response_verification.Common.Bytes.{Bytes, codes, bytes_eq}
use response_verification.Common.Results.{Result, ok, err, ◌>>=◌, ok_or_err}
use response_verification.Common.Sha.{Sha256}
use response_verification.HashTree.{HashTree}
use response_verification.Certificate.{Certificate, CertificateError, verify}
use response_verification.Wildcard.{Segments}
use response_verification.Response.{ResponseResult}
use response_verification.Response.ResponseError.{
  invalid_response_body, header_missing_certification, header_missing_certificate_expression_path,
  requested_verification_version_mismatch, unsupported_verification_version,
  certificate_verification_failed, decoding_failed,
}
use response_verification.Response.ExprPath.{validate_expr_path}
use response_verification.Response.Hashes.{
  CelExpression, skip, response_only, full, validate_tree, validate_body, validate_expr_hash,
  validate_hashes,
}
use response_verification.Response.Headers.{
  Header, HttpResponse, ResponseCertification, ResponseHeaders, certificate_header_name,
  certificate_expression_header_name, filter_response_headers,
}
use response_verification.Response.Gateway.{
  Gateway, cel_to_certification, hash_request, hash_headers,
}
use response_verification.Certification.{HttpRequest, RequestCertification}
use response_verification.Response.CertificateHeader.{CertificateHeader, certificate_header}

-- The `VerifiedResponse` inside is `None` where the certification is skipped.
pub record VerifiedResponse : Type 0 where
  pub status_code : Option ℕ
  pub headers : List Header
  pub body : Bytes

pub record VerificationInfo : Type 0 where
  pub response : Option VerifiedResponse
  pub verification_version : ℕ

abbrev pub from_certificate : {A : Type 0} → Result CertificateError A → ResponseResult A
from_certificate (ok a) = ok a
from_certificate (err e) = err (certificate_verification_failed e)

module _ (gateway : Gateway) where
  -- `collect` into a map: of headers with one name in lower case the last stands.
  unfoldable pub header_value : List Header → Bytes → Option Bytes
  header_value [] name = none
  header_value ((k, v) ∷ hs) name =
      let later = header_value hs name in
      elim later [
        | some w ↦ some w
        | none ↦ if bytes_eq (gateway.library.to_lowercase k) name then some v else none
      ]

  unfoldable pub decode_body : Bytes → Option Bytes → ResponseResult Bytes
  decode_body body none = ok body
  decode_body body (some encoding) =
      if bytes_eq encoding (codes "gzip")
      then ok_or_err decoding_failed (gateway.gunzip body)
      else if bytes_eq encoding (codes "deflate")
      then ok_or_err decoding_failed (gateway.inflate body)
      else ok body

  module _ ⦃sha : Sha256⦄ where
    -- The second check is for a body that the canister certified as it is encoded.
    unfoldable pub body_is_valid : HashTree → Bytes → Bytes → Bytes → Option Bytes → Bool
    body_is_valid tree request_path body decoded none =
        validate_body tree request_path (sha.hash decoded)
    body_is_valid tree request_path body decoded (some encoding) =
        validate_body tree request_path (sha.hash decoded)
        || validate_body tree request_path (sha.hash body)

    unfoldable pub v1_verification :
        HttpRequest
        → HttpResponse
        → Bytes
        → ℕ
        → ℕ
        → HashTree
        → Certificate
        → Option Bytes
        → Bytes
        → ResponseResult VerificationInfo
    v1_verification request response canister_id now offset tree certificate encoding key = do
      _ ← from_certificate (verify gateway.platform certificate canister_id key now offset)
      request_path ← ok_or_err decoding_failed (gateway.get_path request)
      decoded ← decode_body response.body encoding
      _ ← validate_tree canister_id certificate tree
      if body_is_valid tree request_path response.body decoded encoding
          then ok (record {
            response = some (record { status_code = none; headers = []; body = response.body });
            verification_version = 1;
          })
          else err invalid_response_body

    -- `request_hash` of a request whose certification asks for it.
    abbrev pub hash_of_request :
        HttpRequest → Option RequestCertification → ResponseResult (Option Bytes)
    hash_of_request request none = ok none
    hash_of_request request (some c) = do
      h ← ok_or_err decoding_failed (hash_request gateway request c)
      ok (some h)

    -- The hash of the response's filtered headers and its body.
    abbrev pub response_hash : HttpResponse → ResponseHeaders → Bytes
    response_hash response headers =
        sha.hash (hash_headers gateway response.status_code headers ++ sha.hash response.body)

    -- The rest of `v2_verification` where the certification is not skipped.
    unfoldable pub verify_hashes :
        HttpRequest
        → HttpResponse
        → HashTree
        → Segments
        → Bytes
        → CelExpression RequestCertification ResponseCertification
        → Option RequestCertification
        → ResponseCertification
        → ResponseResult VerificationInfo
    verify_hashes request response tree expr_path expr_hash certification asked answered = do
      request_hash ← hash_of_request request asked
      let headers = filter_response_headers response answered
      _ ←
          validate_hashes expr_hash request_hash (response_hash response headers) expr_path tree
            certification
      certificate_value ← ok_or_err header_missing_certification headers.certificate
      ok (record {
        response = some (record {
          status_code = some response.status_code;
          headers = headers.headers ++ (certificate_header_name, certificate_value) ∷ [];
          body = response.body;
        });
        verification_version = 2;
      })

    abbrev pub verify_certified :
        HttpRequest
        → HttpResponse
        → HashTree
        → Segments
        → Bytes
        → CelExpression RequestCertification ResponseCertification
        → ResponseResult VerificationInfo
    verify_certified request response tree expr_path expr_hash skip = do
      _ ← validate_expr_hash expr_path expr_hash tree
      ok (record { response = none; verification_version = 2 })
    verify_certified request response tree expr_path expr_hash (response_only r) =
        verify_hashes request response tree expr_path expr_hash (response_only r) none r
    verify_certified request response tree expr_path expr_hash (full q r) =
        verify_hashes request response tree expr_path expr_hash (full q r) (some q) r

    unfoldable pub v2_verification :
        HttpRequest
        → HttpResponse
        → Bytes
        → ℕ
        → ℕ
        → HashTree
        → Certificate
        → Segments
        → Bytes
        → CelExpression RequestCertification ResponseCertification
        → Bytes
        → ResponseResult VerificationInfo
    v2_verification request response canister_id now offset tree certificate expr_path expr_hash
          certification key =
        do
          request_path ← ok_or_err decoding_failed (gateway.get_path request)
          _ ← from_certificate (verify gateway.platform certificate canister_id key now offset)
          _ ← validate_tree canister_id certificate tree
          _ ← validate_expr_path expr_path request_path tree
          verify_certified request response tree expr_path expr_hash certification

    -- The `match` arm of version 2.
    unfoldable pub verify_v2 :
        HttpRequest
        → HttpResponse
        → Bytes
        → ℕ
        → ℕ
        → Bytes
        → CertificateHeader
        → ResponseResult VerificationInfo
    verify_v2 request response canister_id now offset key header = do
      expression ← ok_or_err header_missing_certification (
          header_value response.headers
            (gateway.library.to_lowercase certificate_expression_header_name))
      expr_path ← ok_or_err header_missing_certificate_expression_path header.expr_path
      certification ← ok_or_err decoding_failed (cel_to_certification gateway expression)
      v2_verification request response canister_id now offset header.tree header.certificate
          expr_path (sha.hash expression) certification key

    unfoldable pub verify_request_response_pair :
        HttpRequest → HttpResponse → Bytes → ℕ → ℕ → Bytes → ℕ → ResponseResult VerificationInfo
    verify_request_response_pair request response canister_id now offset key min_version = do
      text ←
          ok_or_err header_missing_certification
            (header_value response.headers (gateway.library.to_lowercase certificate_header_name))
      header ← certificate_header gateway text
      if ltb header.version min_version
          then err (requested_verification_version_mismatch header.version min_version)
          else (if header.version == 1
              then v1_verification request response canister_id now offset header.tree
                  header.certificate (header_value response.headers (codes "content-encoding")) key
              else (if header.version == 2
                  then verify_v2 request response canister_id now offset key header
                  else err (unsupported_verification_version header.version)))
