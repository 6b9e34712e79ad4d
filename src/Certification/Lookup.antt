-- ===== src/Certification/Lookup.antt =====
-- The canister and the verifier build the same paths and compute the same hashes.
use response_verification.Common.{◌≡◌, refl, sym, ap, subst, Option, none, some, [], ◌∷◌, ◌++◌}
use mathlib.Core.List.{append_assoc}
use response_verification.Common.Bytes.{Bytes}
use response_verification.Common.Results.{ok, ok_of_bind, ok_inj}
use response_verification.Common.Sha.{Sha256}
use response_verification.Wildcard.{Segments, path_prefix, exact_path_terminator, push}
use response_verification.Response.ExprPath.{request_url_path, split_go}
use response_verification.HashTree.{HashTree, SubtreeLookupResult, lookup_subtree}
use response_verification.Response.Gateway.{Gateway}
use response_verification.Response.Pair
use response_verification.Response.Pair.{hash_of_request}
use response_verification.Response.Hashes.{CelExpression, validate_hashes}
use response_verification.Response.Hashes.Certified.{validate_hashes_lem}
use response_verification.Response.Headers.{
  HttpResponse, ResponseCertification, filter_response_headers,
}
use response_verification.Certification.{HttpRequest, RequestCertification}
use response_verification.Certification.ResponseHash
use response_verification.Certification.RequestHash
use response_verification.Certification.CelText.{create_default_cel_expr}
use response_verification.Certification.HttpCertification.{
  HttpCertification, certification_path, certify_full, validate_response,
}
use response_verification.Certification.TreePath.{
  HttpCertificationPath, exact, wildcard, to_tree_path, to_expr_path, path_to_segments,
  path_to_string_segments, entry_to_tree_path,
}

-- The path of the header is the path in the tree below the prefix.
to_expr_path_lem : (p : HttpCertificationPath) → to_expr_path p ≡ path_prefix ∷ to_tree_path p
unfolding to_expr_path to_tree_path path_to_segments path_to_string_segments
to_expr_path_lem (exact path) = refl
to_expr_path_lem (wildcard path) = refl

-- The path that the canister puts into the header for a URL is the one that the verifier looks up
-- first for a request of that URL.
pub to_expr_path-exact :
    (url : Bytes) → to_expr_path (exact url) ≡ push (request_url_path url) exact_path_terminator
unfolding to_expr_path path_to_string_segments request_url_path
to_expr_path-exact url = ap (λ z. path_prefix ∷ z) (sym (append_assoc (split_go [] url) _ _))

below_path :
    (p : HttpCertificationPath) (x : Bytes) (rest : Segments)
    → path_prefix ∷ (to_tree_path p ++ (x ∷ rest)) ≡ push (to_expr_path p) x ++ rest
below_path p x rest =
    rw (to_expr_path_lem p)
      (ap (λ z. path_prefix ∷ z) (sym (append_assoc (to_tree_path p) (x ∷ []) rest)))

module _ ⦃sha : Sha256⦄ where
  -- The hash of the body that a canister may give is right.
  abbrev pub IsBodyHash : Option Bytes → Bytes → Type 0
  IsBodyHash none body = Unit
  IsBodyHash (some given) body = given ≡ sha.hash body

module _ ⦃sha : Sha256⦄ (gateway : Gateway) where
  -- The hash of the response that the canister certifies is the one that the verifier computes.
  response_hash-same :
      (response : HttpResponse) (c : ResponseCertification) (body_hash : Option Bytes)
      → IsBodyHash body_hash response.body
      → ResponseHash.response_hash gateway.library.leb128 response c body_hash
        ≡ Pair.response_hash gateway response (filter_response_headers response c)
  unfolding ResponseHash.response_hash
  response_hash-same response c none right = refl
  response_hash-same response c (some given) right = rw (right) refl

  -- If a canister certifies a request and a response, then the verifier computes a hash of the request
  -- too, and in every tree that has the empty leaf at the path of the entry that the canister inserts
  -- for them under a path, the verifier's check of its own hashes of the expression, the request and
  -- the response below the canister's expression path succeeds.
  pub certify_full-validate_hashes :
      (q : RequestCertification) (c : ResponseCertification) (request : HttpRequest)
      (response : HttpResponse) (body_hash : Option Bytes) (cert : HttpCertification)
      (p : HttpCertificationPath)
      → IsBodyHash body_hash response.body
      → certify_full gateway.library q c request response body_hash ≡ ok cert
      → (h : Bytes) × (hash_of_request gateway request (some q) ≡ ok (some h))
        × ((tree : HashTree)
            → lookup_subtree tree
                (path_prefix ∷ entry_to_tree_path (record { path = p; certification = cert }))
              ≡ SubtreeLookupResult.found (HashTree.leaf [])
            → validate_hashes
                (sha.hash (create_default_cel_expr (CelExpression.full q c)))
                (some h)
                (Pair.response_hash gateway response (filter_response_headers response c))
                (to_expr_path p)
                tree
                (CelExpression.full q c)
              ≡ ok tt)
  unfolding certify_full entry_to_tree_path certification_path
  certify_full-validate_hashes q c request response body_hash cert p right e =
      let text = create_default_cel_expr (CelExpression.full q c) in
      let canister_hash = ResponseHash.response_hash gateway.library.leb128 response c body_hash in
      let (_, checked, rest) =
        ok_of_bind (validate_response gateway.library response text) _ cert e in
      let (h, hashed, made) =
        ok_of_bind (RequestHash.request_hash gateway.library request q) _ cert rest in
      let made_of = λ (z : HttpCertification).
        (path_prefix ∷ (to_tree_path p ++ certification_path z))
        ≡ push (to_expr_path p) (sha.hash text) ++ (h ∷ canister_hash ∷ []) in
      let same_path = subst made_of (ok_inj made) (below_path p (sha.hash text) _) in
      (
        h,
        rw (hashed, hash_of_request) refl,
        λ tree found.
            (validate_hashes_lem (sha.hash text) (some h) _ (to_expr_path p) tree
                (CelExpression.full q c)).1
              (subst
                (λ z.
                  lookup_subtree tree (push (to_expr_path p) (sha.hash text) ++ (h ∷ z ∷ []))
                  ≡ SubtreeLookupResult.found (HashTree.leaf []))
                (response_hash-same response c body_hash right)
                (subst (λ z. lookup_subtree tree z ≡ SubtreeLookupResult.found (HashTree.leaf []))
                  same_path found)),
      )
