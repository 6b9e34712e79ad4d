-- ===== src/Response/Gateway.antt =====
-- What packages/ic-response-verification/src takes from crates and from parts of the repository that
-- it only calls, and the calls of the other packages.
use response_verification.Common.{ℕ, Option, none, some, List}
use response_verification.Common.Bytes.{Bytes}
use response_verification.Common.Options.{◌>>=◌}
use response_verification.Common.Results.{Result, ok, err}
use response_verification.Common.Sha.{Sha256}
use response_verification.HashTree.{HashTree}
use response_verification.Certificate.{Platform}
use response_verification.Response.Hashes.{CelExpression}
use response_verification.Response.Headers.{ResponseCertification, ResponseHeaders}
use response_verification.Certification.{Library, HttpRequest, RequestCertification}
use response_verification.Certification.RequestHash
use response_verification.Certification.ResponseHash
use response_verification.Cel.{CelValue, map_cel_ast}

-- The path of a request's URL; `str::split(',')`; the field parser of `nom`; base64; the CBOR
-- readers; the decompressors of `flate2`; the parser of CEL expressions and `Display` of their syntax
-- trees. `none` is an error.
pub record Gateway : Type 1 where
  pub platform : Platform
  pub library : Library
  pub get_path : HttpRequest → Option Bytes
  pub split_fields : Bytes → List Bytes
  pub header_field : Bytes → Option (Bytes × Bytes)
  pub decode_base64 : Bytes → Option Bytes
  pub parse_u8 : Bytes → Option ℕ
  pub parse_tree : Bytes → Option HashTree
  pub parse_strings : Bytes → Option (List Bytes)
  pub gunzip : Bytes → Option Bytes
  pub inflate : Bytes → Option Bytes
  pub parse_cel : Bytes → Option CelValue
  pub display_cel : CelValue → Bytes

-- `Result::ok`, where the errors are not told apart.
abbrev pub ok_value {ℓ κ} : {E : Type ℓ} {A : Type κ} → Result E A → Option A
ok_value (ok a) = some a
ok_value (err e) = none

module _ (gateway : Gateway) where
  unfoldable pub cel_to_certification :
      Bytes → Option (CelExpression RequestCertification ResponseCertification)
  cel_to_certification expression = do
    cel ← gateway.parse_cel expression
    ok_value (map_cel_ast gateway.display_cel cel)

  module _ ⦃sha : Sha256⦄ where
    -- `request_hash` and `response_headers_hash` of ic-http-certification.
    abbrev pub hash_request : HttpRequest → RequestCertification → Option Bytes
    hash_request request certification =
        ok_value (RequestHash.request_hash gateway.library request certification)

    abbrev pub hash_headers : ℕ → ResponseHeaders → Bytes
    hash_headers status headers =
        ResponseHash.response_headers_hash gateway.library.leb128 status headers
