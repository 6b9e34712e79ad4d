-- ===== src/Response.antt =====
-- packages/ic-response-verification/src: the verification of a response, by the two versions of the
-- protocol. Texts are their UTF-8 bytes. The payloads of errors, which repeat the inputs for the
-- reader of a message, are left out.
pub mod ExprPath
pub mod Hashes
pub mod Headers
pub mod Gateway
pub mod CertificateHeader
pub mod Pair
use response_verification.Common.{ℕ}
use response_verification.Common.Results.{Result}
use response_verification.Certificate.{CertificateError}

-- `ResponseVerificationError`, the variants that the modelled functions return; `diverges` is a loop
-- that does not end.
pub data ResponseError : Type 0 where
  unexpected_expression_path_prefix : ResponseError
  unexpected_expression_path_suffix : ResponseError
  exact_expression_path_not_found_in_tree : ResponseError
  exact_expression_path_mismatch : ResponseError
  exact_expression_path_might_exist_in_tree : ResponseError
  wildcard_expression_path_mismatch : ResponseError
  more_specific_wildcard_expression_might_exist_in_tree : ResponseError
  wildcard_expression_path_not_found_in_tree : ResponseError
  invalid_expression_hash : ResponseError
  missing_leaf_node : ResponseError
  invalid_request_and_response_hashes : ResponseError
  certificate_missing_certified_data : ResponseError
  invalid_tree_root_hash : ResponseError
  invalid_response_body : ResponseError
  header_missing_certificate : ResponseError
  header_missing_tree : ResponseError
  header_missing_certification : ResponseError
  header_missing_certificate_expression_path : ResponseError
  requested_verification_version_mismatch : ℕ → ℕ → ResponseError
  unsupported_verification_version : ℕ → ResponseError
  certificate_verification_failed : CertificateError → ResponseError
  decoding_failed : ResponseError
  diverges : ResponseError

abbrev pub ResponseResult : Type 0 → Type 0
ResponseResult A = Result ResponseError A
