-- ===== src/Response/Hashes.antt =====
-- validation/common_validation.rs, v1_validation.rs and v2_validation.rs: the checks of the tree
-- against the certificate, and of the hashes of the expression, the request, the response and the
-- body against the tree.
pub mod Certified
use response_verification.Common.{Bool, false, if◌then◌else◌, Option, none, some, List, [], ◌∷◌}
use response_verification.Common.Bytes.{Bytes, codes, bytes_eq}
use response_verification.Common.Results.{ok, err, ◌>>=◌}
use response_verification.Common.Sha.{Sha256}
use response_verification.HashTree.{
  HashTree, digest, LookupResult, lookup_path, SubtreeLookupResult, lookup_subtree,
}
use response_verification.Certificate.{Certificate, found_or}
use response_verification.Wildcard.{Segments, push}
use response_verification.Response.{ResponseError, ResponseResult}
use response_verification.Response.ResponseError.{
  certificate_missing_certified_data, invalid_tree_root_hash, invalid_expression_hash,
  missing_leaf_node, invalid_request_and_response_hashes,
}

abbrev pub certified_data_path : Bytes → List Bytes
certified_data_path canister_id = codes "canister" ∷ canister_id ∷ codes "certified_data" ∷ []

module _ ⦃sha : Sha256⦄ where
  -- Without certified data the code also panics, while it makes the error, if the canister's id is longer
  -- than 29 bytes.
  unfoldable pub validate_tree : Bytes → Certificate → HashTree → ResponseResult Unit
  validate_tree canister_id certificate tree = do
    witness ←
        found_or certificate_missing_certified_data
          (lookup_path certificate.tree (certified_data_path canister_id))
    if bytes_eq witness (digest tree) then ok tt else err invalid_tree_root_hash

-- The lookup of the asset or, whatever its answer, of the index page.
abbrev pub or_fallback : LookupResult → LookupResult → LookupResult
or_fallback (LookupResult.found v) other = LookupResult.found v
or_fallback LookupResult.absent other = other
or_fallback LookupResult.unknown other = other
or_fallback LookupResult.error other = other

abbrev pub is_found_eq : LookupResult → Bytes → Bool
is_found_eq (LookupResult.found v) b = bytes_eq b v
is_found_eq LookupResult.absent b = false
is_found_eq LookupResult.unknown b = false
is_found_eq LookupResult.error b = false

unfoldable pub validate_body : HashTree → Bytes → Bytes → Bool
validate_body tree request_path body_sha =
    is_found_eq
      (or_fallback (lookup_path tree (codes "http_assets" ∷ request_path ∷ []))
        (lookup_path tree (codes "http_assets" ∷ codes "/index.html" ∷ [])))
      body_sha

abbrev pub subtree_or : ResponseError → SubtreeLookupResult → ResponseResult HashTree
subtree_or e (SubtreeLookupResult.found t) = ok t
subtree_or e SubtreeLookupResult.absent = err e
subtree_or e SubtreeLookupResult.unknown = err e

unfoldable pub validate_expr_hash : Segments → Bytes → HashTree → ResponseResult HashTree
validate_expr_hash expr_path expr_hash tree =
    subtree_or invalid_expression_hash (lookup_subtree tree (push expr_path expr_hash))

-- `CelExpression::Default`, with the parameters of the certification of requests and of responses.
pub data CelExpression (Request Response : Type 0) : Type 0 where
  skip : CelExpression Request Response
  response_only : Response → CelExpression Request Response
  full : Request → Response → CelExpression Request Response

abbrev pub is_empty_leaf : HashTree → Bool
is_empty_leaf (HashTree.leaf v) = bytes_eq v []
is_empty_leaf HashTree.empty = false
is_empty_leaf (HashTree.fork a b) = false
is_empty_leaf (HashTree.labeled l t) = false
is_empty_leaf (HashTree.pruned h) = false

module _ {Request Response : Type 0} where
  -- The first label below the expression's hash.
  abbrev pub request_label : CelExpression Request Response → Option Bytes → Bytes
  request_label (full q r) (some request_hash) = request_hash
  request_label (full q r) none = []
  request_label (response_only r) h = []
  request_label skip h = []

  unfoldable pub validate_hashes :
      Bytes
      → Option Bytes
      → Bytes
      → Segments
      → HashTree
      → CelExpression Request Response
      → ResponseResult Unit
  validate_hashes expr_hash request_hash response_hash expr_path tree certification = do
    expr_tree ← validate_expr_hash expr_path expr_hash tree
    res_tree ←
        subtree_or invalid_request_and_response_hashes
          (lookup_subtree expr_tree (request_label certification request_hash ∷ response_hash ∷ []))
    if is_empty_leaf res_tree then ok tt else err missing_leaf_node
