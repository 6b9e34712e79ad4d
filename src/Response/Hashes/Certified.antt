-- ===== src/Response/Hashes/Certified.antt =====
-- validation/*.rs: when the checks of hashes succeed, and what that says of the full tree.
use response_verification.Common.{
  ◌≡◌, refl, subst, ◌∙◌, ap, Bool, true, false, if◌then◌else◌, Option, none, some, List, [], ◌∷◌,
  ◌++◌, ◌↔◌, ◌⊎◌, inl, inr, arith, Bool-cases,
}
use response_verification.Common.Bytes.{Bytes, bytes_eq, eq_of_bytes_eq, bytes_eq_refl}
use response_verification.Common.Results.{ok, err, ◌>>=◌, IfOk, IfOk-ok, IfOk-bind}
use response_verification.Common.Sha.{Sha256, Collision}
use response_verification.HashTree.{
  HashTree, digest, LookupLabelResult, lookup_label, LookupResult, lookup_path, SubtreeLookupResult,
  subtree_step, lookup_subtree,
}
use response_verification.HashTree.Order.{IsWellFormed}
use response_verification.HashTree.Prunes.{Prunes, leaves}
use response_verification.HashTree.Lookup.{AgreesSubtree, silent_subtree, no_subtree, subtrees}
use response_verification.HashTree.Binding.{IsSized}
use response_verification.HashTree.Certified.{lookup_subtree_certified}
use response_verification.Certificate.{Certificate, found_or}
use response_verification.Certificate.Steps.{found_or-IfOk}
use response_verification.Wildcard.{Segments, push}
use response_verification.Response.{ResponseError, ResponseResult}
use response_verification.Response.Hashes.{
  certified_data_path, validate_tree, subtree_or, validate_expr_hash, CelExpression, skip,
  response_only, full, request_label, is_empty_leaf, validate_hashes,
}

-- `validate_tree` succeeds if and only if the certificate's tree has, as the canister's certified
-- data, the digest of the tree.
pub validate_tree_lem :
    ⦃sha : Sha256⦄ (canister_id : Bytes) (certificate : Certificate) (tree : HashTree)
    → (validate_tree canister_id certificate tree ≡ ok tt) ↔ (
        lookup_path certificate.tree (certified_data_path canister_id)
        ≡ LookupResult.found (digest tree))
unfolding validate_tree
validate_tree_lem canister_id certificate tree = (
  λ e. IfOk-ok _ (validate_tree canister_id certificate tree) tt e sound,
  λ e. rw (e) (rw (bytes_eq_refl (digest tree)) refl),
)
  where
    Q : Unit {0} → Type 0
    Q u =
        lookup_path certificate.tree (certified_data_path canister_id)
        ≡ LookupResult.found (digest tree)

    sound : IfOk (λ (u : Unit). Q u) (validate_tree canister_id certificate tree)
    sound =
        IfOk-bind _ (λ (u : Unit). Q u)
          (found_or ResponseError.certificate_missing_certified_data
            (lookup_path certificate.tree (certified_data_path canister_id)))
          _ (found_or-IfOk _ _)
          λ w f. elim (Bool-cases (bytes_eq w (digest tree))) [
            | inl h ↦ rw (h) (f ∙ ap (λ z. LookupResult.found z) (eq_of_bytes_eq w (digest tree) h))
            | inr h ↦ rw (h) tt
          ]

-- A lookup goes on from what an earlier one found.
abbrev and_then : SubtreeLookupResult → List Bytes → SubtreeLookupResult
and_then (SubtreeLookupResult.found n) path = lookup_subtree n path
and_then SubtreeLookupResult.absent path = SubtreeLookupResult.absent
and_then SubtreeLookupResult.unknown path = SubtreeLookupResult.unknown

subtree_step-and_then :
    (r : LookupLabelResult) (next more : HashTree → SubtreeLookupResult) (q : List Bytes)
    → ((n : HashTree) → more n ≡ and_then (next n) q)
    → subtree_step r more ≡ and_then (subtree_step r next) q
subtree_step-and_then (LookupLabelResult.found n) next more q h = h n
subtree_step-and_then LookupLabelResult.absent next more q h = refl
subtree_step-and_then LookupLabelResult.unknown next more q h = refl
subtree_step-and_then LookupLabelResult.less next more q h = refl
subtree_step-and_then LookupLabelResult.greater next more q h = refl

lookup_subtree-append :
    (p q : List Bytes) (t : HashTree) → lookup_subtree t (p ++ q) ≡ and_then (lookup_subtree t p) q
unfolding lookup_subtree
lookup_subtree-append [] q t = refl
lookup_subtree-append (x ∷ p) q t =
    subtree_step-and_then (lookup_label t x) (λ n. lookup_subtree n p)
      (λ n. lookup_subtree n (p ++ q)) q (lookup_subtree-append p q)

leaf_of_empty_leaf : (t : HashTree) → is_empty_leaf t ≡ true → t ≡ HashTree.leaf []
leaf_of_empty_leaf (HashTree.leaf v) e = ap (λ z. HashTree.leaf z) (eq_of_bytes_eq v [] e)
leaf_of_empty_leaf HashTree.empty e = absurd (ground arith)
leaf_of_empty_leaf (HashTree.fork a b) e = absurd (ground arith)
leaf_of_empty_leaf (HashTree.labeled l t) e = absurd (ground arith)
leaf_of_empty_leaf (HashTree.pruned h) e = absurd (ground arith)

-- The end of `validate_hashes`, on what the second lookup answers.
abbrev at_response : SubtreeLookupResult → ResponseResult Unit
at_response r = do
  t ← subtree_or ResponseError.invalid_request_and_response_hashes r
  if is_empty_leaf t then ok tt else err ResponseError.missing_leaf_node

abbrev is_found_empty_leaf : SubtreeLookupResult → Bool
is_found_empty_leaf (SubtreeLookupResult.found t) = is_empty_leaf t
is_found_empty_leaf SubtreeLookupResult.absent = false
is_found_empty_leaf SubtreeLookupResult.unknown = false

at_response_lem :
    (r : SubtreeLookupResult)
    → (at_response r ≡ ok tt) ↔ (r ≡ SubtreeLookupResult.found (HashTree.leaf []))
at_response_lem SubtreeLookupResult.absent = (λ e. absurd (grind arith), λ e. absurd (grind arith))
at_response_lem SubtreeLookupResult.unknown = (λ e. absurd (grind arith), λ e. absurd (grind arith))
at_response_lem (SubtreeLookupResult.found t) = elim (Bool-cases (is_empty_leaf t)) [
  | inl h ↦ (λ e. ap (λ z. SubtreeLookupResult.found z) (leaf_of_empty_leaf t h), λ e. rw (h) refl)
  | inr h ↦ (λ e. absurd (no e h), λ e. absurd (clash (found_empty_leaf e) h))
]
  where
    clash : is_empty_leaf t ≡ true → is_empty_leaf t ≡ false → ⊥
    clash a b = ground arith

    found_empty_leaf :
        SubtreeLookupResult.found t ≡ SubtreeLookupResult.found (HashTree.leaf [])
        → is_empty_leaf t ≡ true
    found_empty_leaf e = ap is_found_empty_leaf e ∙ rw (bytes_eq_refl []) refl

    no : at_response (SubtreeLookupResult.found t) ≡ ok tt → is_empty_leaf t ≡ false → ⊥
    no e h = ground arith

at_expr :
    (r : SubtreeLookupResult) (q : List Bytes)
    → ((do t ← subtree_or ResponseError.invalid_expression_hash r; at_response (lookup_subtree t q))
        ≡ ok tt)
      ↔ (and_then r q ≡ SubtreeLookupResult.found (HashTree.leaf []))
at_expr SubtreeLookupResult.absent q = (λ e. absurd (grind arith), λ e. absurd (grind arith))
at_expr SubtreeLookupResult.unknown q = (λ e. absurd (grind arith), λ e. absurd (grind arith))
at_expr (SubtreeLookupResult.found t) q = at_response_lem (lookup_subtree t q)

found_inj : {a b : HashTree} → SubtreeLookupResult.found a ≡ SubtreeLookupResult.found b → a ≡ b
found_inj e = grind arith

module _ ⦃sha : Sha256⦄ where
  leaf_of_Prunes : (m : HashTree) → Prunes (HashTree.leaf []) m → m ≡ HashTree.leaf []
  leaf_of_Prunes m leaves = refl

  full_leaf :
      {a b : SubtreeLookupResult}
      → AgreesSubtree a b
      → a ≡ SubtreeLookupResult.found (HashTree.leaf [])
      → b ≡ SubtreeLookupResult.found (HashTree.leaf [])
  full_leaf silent_subtree e = absurd (grind arith)
  full_leaf no_subtree e = absurd (grind arith)
  full_leaf (subtrees {n} {m} p w) e =
      ap (λ z. SubtreeLookupResult.found z)
        (leaf_of_Prunes m (subst (λ x. Prunes x m) (found_inj e) p))

-- The tree has the empty leaf below these labels.
abbrev pub HasLeaf : HashTree → Segments → Type 0
HasLeaf tree path = lookup_subtree tree path ≡ SubtreeLookupResult.found (HashTree.leaf [])

module _ {Request Response : Type 0} where
  -- `validate_hashes` succeeds if and only if the tree has the empty leaf below the expression's path,
  -- the expression's hash, the request's hash (or, where the request is not certified, an empty label)
  -- and the response's hash.
  pub validate_hashes_lem :
      (expr_hash : Bytes) (request_hash : Option Bytes) (response_hash : Bytes)
      (expr_path : Segments) (tree : HashTree) (c : CelExpression Request Response)
      → (validate_hashes expr_hash request_hash response_hash expr_path tree c ≡ ok tt) ↔ (
          lookup_subtree tree
            (push expr_path expr_hash ++ (request_label c request_hash ∷ response_hash ∷ []))
          ≡ SubtreeLookupResult.found (HashTree.leaf []))
  unfolding validate_hashes validate_expr_hash
  validate_hashes_lem expr_hash request_hash response_hash expr_path tree c =
      rw
        (lookup_subtree-append (push expr_path expr_hash)
          (request_label c request_hash ∷ response_hash ∷ []) tree)
        (at_expr (lookup_subtree tree (push expr_path expr_hash))
          (request_label c request_hash ∷ response_hash ∷ []))

  -- The leaf that a certification asks for, below the expression's path and hash: that of the
  -- request's hash and the response's hash, or, where no request is certified or hashed, that of an
  -- empty label and the response's hash.
  abbrev pub HasHashes :
      HashTree → Segments → CelExpression Request Response → Option Bytes → Bytes → Type 0
  HasHashes tree path (full q r) (some request_hash) response_hash =
      HasLeaf tree (path ++ (request_hash ∷ response_hash ∷ []))
  HasHashes tree path (full q r) none response_hash =
      HasLeaf tree (path ++ ([] ∷ response_hash ∷ []))
  HasHashes tree path (response_only r) request_hash response_hash =
      HasLeaf tree (path ++ ([] ∷ response_hash ∷ []))
  HasHashes tree path skip request_hash response_hash =
      HasLeaf tree (path ++ ([] ∷ response_hash ∷ []))

  label-HasHashes :
      (tree : HashTree) (path : Segments) (c : CelExpression Request Response) (h : Option Bytes)
      (r : Bytes)
      → HasLeaf tree (path ++ (request_label c h ∷ r ∷ []))
      → HasHashes tree path c h r
  label-HasHashes tree path (full q a) (some h) r e = e
  label-HasHashes tree path (full q a) none r e = e
  label-HasHashes tree path (response_only a) h r e = e
  label-HasHashes tree path skip h r e = e

  -- If `validate_hashes` succeeds on a witness, its pruned nodes 32 bytes long, with the digest of a
  -- well-formed full tree, then the full tree has the empty leaf below the expression's path, the
  -- expression's hash, the request's hash and the response's hash, with an empty label in place of
  -- the request's hash where the certification is not of requests too or no request is hashed; or the
  -- two trees give away a collision of the hash.
  pub validate_hashes_certified :
      ⦃sha : Sha256⦄ (s t : HashTree) (expr_hash : Bytes) (request_hash : Option Bytes)
      (response_hash : Bytes) (expr_path : Segments) (c : CelExpression Request Response)
      → IsSized s
      → IsWellFormed t
      → digest s ≡ digest t
      → validate_hashes expr_hash request_hash response_hash expr_path s c ≡ ok tt
      → HasHashes t (push expr_path expr_hash) c request_hash response_hash ⊎ Collision sha
  validate_hashes_certified s t expr_hash request_hash response_hash expr_path c z w e v =
      let path = push expr_path expr_hash in
      let below = path ++ (request_label c request_hash ∷ response_hash ∷ []) in
      let found = (validate_hashes_lem expr_hash request_hash response_hash expr_path s c).0 v in
      elim (lookup_subtree_certified s t below z w e) [
        | inl a ↦ inl (label-HasHashes t path c request_hash response_hash (full_leaf a found))
        | inr k ↦ inr k
      ]
