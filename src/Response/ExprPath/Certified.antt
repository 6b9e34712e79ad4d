-- ===== src/Response/ExprPath/Certified.antt =====
-- validation/v2_validation.rs, `validate_expr_path`: what its answer on a witness says of the full
-- tree.
use response_verification.Common.{
  ◌<◌, suc, ◌≡◌, ◌≢◌, refl, [], ◌∷◌, ◌++◌, length, ◌⊎◌, inl, inr, arith,
}
use response_verification.Common.Bytes.{Bytes}
use response_verification.Common.Results.{ok, IfOk-ok}
use response_verification.Common.Sha.{Sha256, Collision}
use response_verification.HashTree.{HashTree, digest, SubtreeLookupResult}
use response_verification.HashTree.Order.{IsWellFormed}
use response_verification.HashTree.Prunes.{Prunes}
use response_verification.HashTree.Lookup.{
  AgreesSubtree, silent_subtree, no_subtree, subtrees, lookup_subtree-Agrees,
}
use response_verification.HashTree.Binding.{IsSized, IsWellFormed-IsFull, digest_binding}
use response_verification.Wildcard.{
  Segments, path_prefix, path_dir_separator, wildcard_path_terminator, push, strip_path_affixes,
  responding_for,
}
use response_verification.Wildcard.Halts.{more_specific_wildcards_for-returns}
use response_verification.Wildcard.Complete.{more_specific_wildcards_for_complete}
use response_verification.Response.ExprPath.{request_url_path, validate_expr_path}
use response_verification.Response.ExprPath.Accepted.{
  IsAbsent, IsBestWildcard, IsBest, validate_expr_path-IfOk,
}

module _ ⦃sha : Sha256⦄ where
  absent_of_agrees :
      {a b : SubtreeLookupResult}
      → AgreesSubtree a b
      → a ≡ SubtreeLookupResult.absent
      → b ≡ SubtreeLookupResult.absent
  absent_of_agrees silent_subtree e = absurd (grind arith)
  absent_of_agrees no_subtree e = refl
  absent_of_agrees (subtrees p w) e = absurd (grind arith)

  found_of_agrees :
      {a b : SubtreeLookupResult} (n : HashTree)
      → AgreesSubtree a b
      → a ≡ SubtreeLookupResult.found n
      → (m : HashTree) × (b ≡ SubtreeLookupResult.found m)
  found_of_agrees n silent_subtree e = absurd (grind arith)
  found_of_agrees n no_subtree e = absurd (grind arith)
  found_of_agrees n (subtrees {m = m} p w) e = (m, refl)

  -- What a witness shows of the best path holds of the full tree.
  IsBest-Prunes :
      (s t : HashTree) (expr url : Segments)
      → Prunes s t
      → IsWellFormed t
      → IsBest s expr url
      → IsBest t expr url
  IsBest-Prunes s t expr url p w ((n, found), inl e) =
      (found_of_agrees n (lookup_subtree-Agrees expr s t p w) found, inl e)
  IsBest-Prunes s t expr url p w ((n, found), inr b) = (
    found_of_agrees n (lookup_subtree-Agrees expr s t p w) found,
    inr (record {
      is_wildcard = b.is_wildcard;
      answers = b.answers;
      no_exact = absent_of_agrees (lookup_subtree-Agrees _ s t p w) b.no_exact;
      no_better =
          λ v ws e m. absent_of_agrees (lookup_subtree-Agrees _ s t p w) (b.no_better v ws e m);
    }),
  )

  -- If `validate_expr_path` accepts an expression path for a request on a witness, its pruned nodes
  -- 32 bytes long, with the digest of a well-formed full tree, then the full tree has the path, and
  -- the path is the exact one of the request, or it is a wildcard that answers the request while the
  -- full tree has neither the exact path nor a listed more specific wildcard; or else the two trees
  -- give away a collision of the hash.
  pub validate_expr_path_certified :
      (s t : HashTree) (expr : Segments) (request : Bytes)
      → IsSized s
      → IsWellFormed t
      → digest s ≡ digest t
      → validate_expr_path expr request s ≡ ok tt
      → IsBest t expr (request_url_path request) ⊎ Collision sha
  validate_expr_path_certified s t expr request z w e v =
      elim (digest_binding s t z (IsWellFormed-IsFull t w) e) [
        | inl p ↦ inl (
            IsBest-Prunes s t expr (request_url_path request) p w (
              IfOk-ok _ (validate_expr_path expr request s) tt v
                (validate_expr_path-IfOk expr request s)))
        | inr c ↦ inr c
      ]

-- Where the best path is a wildcard, the tree has no wildcard path for any beginning `q` of the
-- request that is longer than that path, nor for a proper beginning with a separator.
pub IsBestWildcard-longest :
    (tree : HashTree) (expr url q rest : Segments)
    → IsBestWildcard tree expr url
    → strip_path_affixes url ≡ q ++ rest
    → (length (responding_for (q ++ rest) (strip_path_affixes expr)) < length q
        → IsAbsent tree (path_prefix ∷ push q wildcard_path_terminator))
      × (rest ≢ []
          → length (responding_for (q ++ rest) (strip_path_affixes expr)) < suc (length q)
          → IsAbsent tree (path_prefix ∷ push (push q path_dir_separator) wildcard_path_terminator))
IsBestWildcard-longest tree expr url q rest b p =
    let (ws, e) = more_specific_wildcards_for-returns url expr in
    let listed = more_specific_wildcards_for_complete url expr q rest ws e p in
    (λ h. b.no_better _ ws e (listed.0 h), λ n h. b.no_better _ ws e (listed.1 n h))
