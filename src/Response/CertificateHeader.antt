-- ===== src/Response/CertificateHeader.antt =====
-- packages/ic-response-verification/src/verification/certificate_header.rs: the `IC-Certificate`
-- header. Of fields with one name the first stands.
pub mod First
use response_verification.Common.{ℕ, if◌then◌else◌, Option, none, some, List, [], ◌∷◌}
use response_verification.Common.Bytes.{Bytes, codes, bytes_eq}
use response_verification.Common.Results.{ok, err, ◌>>=◌, ok_or_err}
use response_verification.HashTree.{HashTree}
use response_verification.Certificate.{Certificate}
use response_verification.Wildcard.{Segments}
use response_verification.Response.{ResponseResult}
use response_verification.Response.ResponseError.{
  header_missing_certificate, header_missing_tree, decoding_failed,
}
use response_verification.Response.Gateway.{Gateway}

pub record CertificateHeader : Type 0 where
  pub certificate : Certificate
  pub tree : HashTree
  pub version : ℕ
  pub expr_path : Option Segments

-- The variables of `CertificateHeader::from`.
pub record HeaderFields : Type 0 where
  pub certificate : Option Certificate
  pub tree : Option HashTree
  pub version : Option ℕ
  pub expr_path : Option Segments

-- `match field { None => Some(parse(value)?), Some(existing) => Some(existing) }`.
abbrev pub keep_or : {A : Type 0} → Option A → ResponseResult A → ResponseResult (Option A)
keep_or (some existing) parsed = ok (some existing)
keep_or none (ok a) = ok (some a)
keep_or none (err e) = err e

abbrev pub unwrap_or : {A : Type 0} → A → Option A → A
unwrap_or d none = d
unwrap_or d (some a) = a

abbrev pub no_fields : HeaderFields
no_fields = record { certificate = none; tree = none; version = none; expr_path = none }

module _ (gateway : Gateway) where
  abbrev pub decode_header : {A : Type 0} → (Bytes → Option A) → Bytes → ResponseResult A
  decode_header parse value = do
    bytes ← ok_or_err decoding_failed (gateway.decode_base64 value)
    ok_or_err decoding_failed (parse bytes)

  -- The `match` on the name of one field.
  unfoldable pub set_field : HeaderFields → Bytes → Bytes → ResponseResult HeaderFields
  set_field fields name value =
      if bytes_eq name (codes "certificate")
      then (do
        c ← keep_or fields.certificate (decode_header gateway.platform.parse_certificate value)
        ok (record fields { certificate = c }))
      else if bytes_eq name (codes "tree")
      then (do
        t ← keep_or fields.tree (decode_header gateway.parse_tree value)
        ok (record fields { tree = t }))
      else if bytes_eq name (codes "version")
      then (do
        v ← keep_or fields.version (ok_or_err decoding_failed (gateway.parse_u8 value))
        ok (record fields { version = v }))
      else if bytes_eq name (codes "expr_path")
      then (do
        p ← keep_or fields.expr_path (decode_header gateway.parse_strings value)
        ok (record fields { expr_path = p }))
      else ok fields

  abbrev pub set_parsed : HeaderFields → Option (Bytes × Bytes) → ResponseResult HeaderFields
  set_parsed fields none = ok fields
  set_parsed fields (some (name, value)) = set_field fields name value

  unfoldable pub read_fields : HeaderFields → List Bytes → ResponseResult HeaderFields
  read_fields fields [] = ok fields
  read_fields fields (text ∷ texts) = do
    next ← set_parsed fields (gateway.header_field text)
    read_fields next texts

  unfoldable pub certificate_header : Bytes → ResponseResult CertificateHeader
  certificate_header header_value = do
    fields ← read_fields no_fields (gateway.split_fields header_value)
    c ← ok_or_err header_missing_certificate fields.certificate
    t ← ok_or_err header_missing_tree fields.tree
    ok (record {
      certificate = c;
      tree = t;
      version = unwrap_or 1 fields.version;
      expr_path = fields.expr_path;
    })
