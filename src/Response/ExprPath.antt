-- ===== src/Response/ExprPath.antt =====
-- validation/v2_validation.rs: the check of the path in the `Ic-Certificate` header against the
-- request and the tree.
pub mod Accepted
pub mod Certified
use response_verification.Common.{
  ℕ, Bool, true, false, not, ◌&&◌, ◌||◌, ◌==◌, if◌then◌else◌, List, [], ◌∷◌, ◌++◌,
}
use response_verification.Common.Bytes.{Bytes, bytes_eq}
use response_verification.Common.Results.{ok, err, ◌>>=◌, ok_or_err}
use response_verification.HashTree.{HashTree, SubtreeLookupResult, lookup_subtree}
use response_verification.Wildcard.{
  Segments, path_prefix, exact_path_terminator, wildcard_path_terminator, first, pop, push,
  is_some_eq, ends_with, is_wildcard_path_valid_for_request_path, more_specific_wildcards_for,
}
use response_verification.Response.{ResponseError, ResponseResult}
use response_verification.Response.ResponseError.{
  unexpected_expression_path_prefix, unexpected_expression_path_suffix,
  exact_expression_path_not_found_in_tree, exact_expression_path_mismatch,
  exact_expression_path_might_exist_in_tree, wildcard_expression_path_mismatch,
  more_specific_wildcard_expression_might_exist_in_tree, wildcard_expression_path_not_found_in_tree,
  diverges,
}

abbrev pub might_exist : SubtreeLookupResult → Bool
might_exist SubtreeLookupResult.absent = false
might_exist SubtreeLookupResult.unknown = true
might_exist (SubtreeLookupResult.found t) = true

unfoldable pub path_might_exist_in_tree : Segments → HashTree → Bool
path_might_exist_in_tree path tree = might_exist (lookup_subtree tree path)

abbrev pub exists : SubtreeLookupResult → Bool
exists SubtreeLookupResult.absent = false
exists SubtreeLookupResult.unknown = false
exists (SubtreeLookupResult.found t) = true

unfoldable pub path_exists_in_tree : Segments → HashTree → Bool
path_exists_in_tree path tree = exists (lookup_subtree tree path)

unfoldable pub expr_path_has_valid_suffix : Segments → Bool
expr_path_has_valid_suffix path =
    ends_with path exact_path_terminator || ends_with path wildcard_path_terminator

unfoldable pub expr_path_has_valid_prefix : Segments → Bool
expr_path_has_valid_prefix path = is_some_eq (first path) path_prefix

-- `/`.
abbrev pub slash : ℕ
slash = 47

-- `str::split`, without the empty parts.
abbrev pub split_go : Bytes → Bytes → List Bytes
split_go [] [] = []
split_go (y ∷ part) [] = (y ∷ part) ∷ []
split_go part (x ∷ text) =
    let next = split_go [] text in
    let more = split_go (part ++ x ∷ []) text in
    if x == slash then elim part [ [] ↦ next | y ∷ ys ↦ (y ∷ ys) ∷ next ] else more

abbrev pub ends_with_slash : Bytes → Bool
ends_with_slash [] = false
ends_with_slash (x ∷ []) = x == slash
ends_with_slash (x ∷ y ∷ text) = ends_with_slash (y ∷ text)

-- The request's path as segments, before the terminator is pushed; that of a directory ends in an
-- empty one.
unfoldable pub request_url_path : Bytes → Segments
request_url_path text =
    path_prefix ∷ split_go [] text ++ (if ends_with_slash text then [] ∷ [] else [])

unfoldable pub path_eq : Segments → Segments → Bool
path_eq [] [] = true
path_eq (x ∷ xs) (y ∷ ys) = bytes_eq x y && path_eq xs ys
path_eq _ _ = false

-- The `for` loop over the more specific wildcards.
unfoldable pub none_might_exist : HashTree → List Segments → ResponseResult Unit
none_might_exist tree [] = ok tt
none_might_exist tree (w ∷ ws) =
    let rest = none_might_exist tree ws in
    if path_might_exist_in_tree (path_prefix ∷ w) tree
    then err more_specific_wildcard_expression_might_exist_in_tree
    else rest

abbrev pub check_exists : Segments → HashTree → ResponseError → ResponseResult Unit
check_exists path tree e = if path_exists_in_tree path tree then ok tt else err e

-- What follows the check that the wildcard answers the request.
unfoldable pub validate_wildcard : Segments → Segments → HashTree → ResponseResult Unit
validate_wildcard expr_path url tree = do
  ws ← ok_or_err diverges (more_specific_wildcards_for url expr_path)
  _ ← none_might_exist tree ws
  check_exists expr_path tree wildcard_expression_path_not_found_in_tree

-- `potential_path` is the expression path without its `<*>`.
unfoldable pub validate_expr_path : Segments → Bytes → HashTree → ResponseResult Unit
validate_expr_path expr_path request_path tree =
    let url = request_url_path request_path in
    let exact = push url exact_path_terminator in
    if not (expr_path_has_valid_prefix expr_path)
    then err unexpected_expression_path_prefix
    else if not (expr_path_has_valid_suffix expr_path)
    then err unexpected_expression_path_suffix
    else if path_eq expr_path exact
    then check_exists expr_path tree exact_expression_path_not_found_in_tree
    else if ends_with expr_path exact_path_terminator
    then err exact_expression_path_mismatch
    else if path_might_exist_in_tree exact tree
    then err exact_expression_path_might_exist_in_tree
    else if not (is_wildcard_path_valid_for_request_path (pop expr_path) url)
    then err wildcard_expression_path_mismatch
    else validate_wildcard expr_path url tree
