-- ===== src/Examples/Responses.antt =====
-- Examples of the theorems on the verification of responses.
use response_verification.Common.{◌<◌, ◌≡◌, ◌≢◌, refl, some, List, [], ◌∷◌, ◌↔◌, ◌⊎◌, length, In}
use response_verification.Common.Bytes.{Bytes, codes, compare_bytes}
use response_verification.Common.Results.{ok}
use response_verification.Common.Sha.{Collision}
use response_verification.HashTree.{
  HashTree, fork, labeled, leaf, pruned, domain_sep, digest, lookup_label, lookup_path,
  lookup_subtree, LookupResult,
}
use response_verification.HashTree.Order.{IsWellFormed}
use response_verification.HashTree.Binding.{IsSized}
use response_verification.Wildcard.{
  Segments, last, pop, push, starts_with, is_wildcard_path_valid_for_request_path,
  strip_path_affixes, continues, next_path, wildcards, responding_for, more_specific_wildcards_for,
}
use response_verification.Wildcard.Halts.{more_specific_wildcards_for-returns}
use response_verification.Wildcard.Complete.{more_specific_wildcards_for_complete}
use response_verification.Response.ExprPath.{
  path_might_exist_in_tree, path_exists_in_tree, expr_path_has_valid_suffix,
  expr_path_has_valid_prefix, request_url_path, path_eq, none_might_exist, validate_wildcard,
  validate_expr_path,
}
use response_verification.Response.ExprPath.Accepted.{IsBest}
use response_verification.Response.ExprPath.Certified.{validate_expr_path_certified}
use response_verification.Response.Hashes.{
  full, certified_data_path, validate_tree, validate_expr_hash, validate_hashes,
}
use response_verification.Response.Hashes.Certified.{
  validate_tree_lem, HasHashes, validate_hashes_certified,
}
use response_verification.Examples.{toy_sha, repeat}
use response_verification.Examples.Certificates.{certificate_of_data}

-- The wildcard path of the root, with the hash of the expression `9`, and a request for `/a`.
abbrev pub expr_path : Segments
expr_path = codes "http_expr" ∷ codes "<*>" ∷ []

abbrev pub expr_hash : Bytes
expr_hash = 9 ∷ repeat 31 0

abbrev pub request_path : Bytes
request_path = codes "/a"

abbrev pub witness : HashTree
witness =
    labeled (codes "http_expr")
      (labeled (codes "<*>") (labeled expr_hash (labeled [] (labeled (repeat 32 3) (leaf [])))))

-- The tree with another label, and the tree with that label hidden.
abbrev full_tree : HashTree
full_tree = fork witness (labeled (codes "other") (leaf (codes "x")))

abbrev pub pruned_tree : HashTree
pruned_tree = fork witness (pruned (digest (labeled (codes "other") (leaf (codes "x")))))

validate_run : validate_expr_path expr_path request_path pruned_tree ≡ ok tt
unfolding validate_expr_path validate_wildcard none_might_exist path_eq request_url_path
    expr_path_has_valid_prefix expr_path_has_valid_suffix path_exists_in_tree
    path_might_exist_in_tree lookup_subtree lookup_label compare_bytes more_specific_wildcards_for
    responding_for wildcards next_path continues strip_path_affixes
    is_wildcard_path_valid_for_request_path starts_with pop last
validate_run = refl

full_tree-IsWellFormed : IsWellFormed full_tree
unfolding compare_bytes
full_tree-IsWellFormed = (tt, tt, refl, tt, tt)

pruned_tree-IsSized : IsSized pruned_tree
unfolding digest domain_sep
pruned_tree-IsSized = (tt, refl)

same_digest : digest pruned_tree ≡ digest full_tree
unfolding digest
same_digest = refl

validate_expr_path_certified_example :
    IsBest full_tree expr_path (request_url_path request_path) ⊎ Collision toy_sha
validate_expr_path_certified_example =
    validate_expr_path_certified pruned_tree full_tree expr_path request_path pruned_tree-IsSized
      full_tree-IsWellFormed same_digest validate_run

more_specific_wildcards_for-returns_example :
    (ws : List Segments) × (more_specific_wildcards_for (request_url_path request_path) expr_path
      ≡ some ws)
more_specific_wildcards_for-returns_example =
    more_specific_wildcards_for-returns (request_url_path request_path) expr_path

-- A tree that certifies a request and a response, and a witness of it.
abbrev asked_tree : HashTree
asked_tree = labeled (codes "http_expr") (
    labeled (codes "<*>")
      (labeled expr_hash (labeled (repeat 32 2) (labeled (repeat 32 3) (leaf [])))))

abbrev full_asked : HashTree
full_asked = fork asked_tree (labeled (codes "other") (leaf (codes "x")))

abbrev pruned_asked : HashTree
pruned_asked = fork asked_tree (pruned (digest (labeled (codes "other") (leaf (codes "x")))))

validate_hashes_run :
    validate_hashes {Request = Unit {0}} {Response = Unit {0}} expr_hash
      (some (repeat 32 2))
      (repeat 32 3)
      expr_path
      pruned_asked
      (full tt tt)
    ≡ ok tt
unfolding validate_hashes validate_expr_hash lookup_subtree lookup_label compare_bytes
validate_hashes_run = refl

full_asked-IsWellFormed : IsWellFormed full_asked
unfolding compare_bytes
full_asked-IsWellFormed = (tt, tt, refl, tt, tt)

pruned_asked-IsSized : IsSized pruned_asked
unfolding digest domain_sep
pruned_asked-IsSized = (tt, refl)

same_digest_asked : digest pruned_asked ≡ digest full_asked
unfolding digest
same_digest_asked = refl

validate_hashes_certified_example :
    HasHashes {Request = Unit {0}} {Response = Unit {0}} full_asked
      (push expr_path expr_hash)
      (full tt tt)
      (some (repeat 32 2))
      (repeat 32 3)
    ⊎ Collision toy_sha
validate_hashes_certified_example =
    validate_hashes_certified {Request = Unit {0}} {Response = Unit {0}} pruned_asked full_asked
      expr_hash (some (repeat 32 2)) (repeat 32 3) expr_path (full tt tt) pruned_asked-IsSized
      full_asked-IsWellFormed same_digest_asked validate_hashes_run

validate_tree_lem_example : (validate_tree (1 ∷ []) (certificate_of_data []) witness ≡ ok tt) ↔ (
    lookup_path ((certificate_of_data []).tree) (certified_data_path (1 ∷ []))
    ≡ LookupResult.found (digest witness))
validate_tree_lem_example = validate_tree_lem (1 ∷ []) (certificate_of_data []) witness

-- The wildcards of a request for `/a` that are more specific than the root's.
abbrev listed : List Segments
listed = (codes "a" ∷ codes "<*>" ∷ []) ∷ ([] ∷ codes "<*>" ∷ []) ∷ []

listed_run :
    more_specific_wildcards_for (codes "http_expr" ∷ codes "a" ∷ []) expr_path ≡ some listed
unfolding compare_bytes more_specific_wildcards_for responding_for wildcards next_path continues
    strip_path_affixes is_wildcard_path_valid_for_request_path starts_with pop last
listed_run = refl

stripped : strip_path_affixes (codes "http_expr" ∷ codes "a" ∷ []) ≡ codes "a" ∷ []
unfolding strip_path_affixes last pop compare_bytes
stripped = refl

more_specific_wildcards_for_complete_example :
    (length (responding_for (codes "a" ∷ []) (strip_path_affixes expr_path)) < 1
      → In (codes "a" ∷ codes "<*>" ∷ []) listed)
    × (◌≢◌ {A = Segments} [] []
        → length (responding_for (codes "a" ∷ []) (strip_path_affixes expr_path)) < 2
        → In (codes "a" ∷ [] ∷ codes "<*>" ∷ []) listed)
more_specific_wildcards_for_complete_example =
    more_specific_wildcards_for_complete (codes "http_expr" ∷ codes "a" ∷ []) expr_path
      (codes "a" ∷ []) [] listed listed_run stripped
