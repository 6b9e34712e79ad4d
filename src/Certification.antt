-- ===== src/Certification.antt =====
-- packages/ic-http-certification/src: what a canister certifies of requests and responses. In the
-- modules below: the hashes of both, the text of a CEL expression, `HttpCertification`, and the paths
-- under which certifications stand in the tree. Texts are byte strings.
pub mod ResponseHash
pub mod RequestHash
pub mod CelText
pub mod HttpCertification
pub mod TreePath
pub mod Tree
pub mod SameResponse
pub mod Query
pub mod Covered
pub mod SameTexts
pub mod SameRequest
pub mod ExpressionHeader
pub mod Lookup
use response_verification.Common.{ℕ, Option, List}
use response_verification.Common.Bytes.{Bytes}
use response_verification.Common.Results.{Result}
use response_verification.RepresentationHash.{Leb128}
use response_verification.Response.Headers.{Header}

-- What the code calls: the crate `leb128`, the URL parser of the crate `http` (`none` is its error),
-- and the table of `str::to_lowercase`.
pub record Library : Type 0 where
  pub leb128 : Leb128
  pub uri_query : Bytes → Option (Option Bytes)
  pub to_lowercase : Bytes → Bytes

pub record HttpRequest : Type 0 where
  pub method : Bytes
  pub url : Bytes
  pub headers : List Header
  pub body : Bytes

-- `DefaultRequestCertification`.
pub record RequestCertification : Type 0 where
  pub headers : List Bytes
  pub query_parameters : List Bytes

-- The errors of the functions that are modelled, and their fields.
pub data HttpCertificationError : Type 0 where
  malformed_url : Bytes → HttpCertificationError
  certificate_expression_header_mismatch : Bytes → Bytes → HttpCertificationError
  certificate_expression_header_missing : Bytes → HttpCertificationError
  multiple_certificate_expression_headers : Bytes → HttpCertificationError
  wildcard_path_not_valid_for_request_path : Bytes → Bytes → HttpCertificationError

abbrev pub HttpCertificationResult : Type 0 → Type 0
HttpCertificationResult A = Result HttpCertificationError A
