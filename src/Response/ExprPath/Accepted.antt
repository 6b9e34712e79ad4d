-- ===== src/Response/ExprPath/Accepted.antt =====
-- validation/v2_validation.rs, `validate_expr_path`: the path it accepts is the most specific path for
-- the request, in the witness and in the tree that the witness stands for.
use response_verification.Common.{
  ◌≡◌, refl, sym, subst, ◌∙◌, ap₂, true, false, not, if◌then◌else◌, some, List, [], ◌∷◌, Bool-cases,
  ◌⊎◌, inl, inr, arith, In, here, there, and_left, and_right,
}
use response_verification.Common.Bytes.{Bytes, bytes_eq, eq_of_bytes_eq}
use response_verification.Common.Results.{err, ok_or_err, ok_or_err-IfOk, IfOk, IfOk-bind, IfOk-imp}
use response_verification.HashTree.{HashTree, SubtreeLookupResult, lookup_subtree}
use response_verification.Wildcard.{
  Segments, path_prefix, exact_path_terminator, wildcard_path_terminator, pop, push, ends_with,
  is_wildcard_path_valid_for_request_path, more_specific_wildcards_for,
}
use response_verification.Response.{ResponseError}
use response_verification.Response.ExprPath.{
  might_exist, path_might_exist_in_tree, exists, path_exists_in_tree, expr_path_has_valid_suffix,
  expr_path_has_valid_prefix, request_url_path, path_eq, none_might_exist, check_exists,
  validate_wildcard, validate_expr_path,
}

abbrev pub IsFound : HashTree → Segments → Type 0
IsFound tree path = (n : HashTree) × (lookup_subtree tree path ≡ SubtreeLookupResult.found n)

abbrev pub IsAbsent : HashTree → Segments → Type 0
IsAbsent tree path = lookup_subtree tree path ≡ SubtreeLookupResult.absent

-- The path ends in the wildcard and answers the request, the tree has no exact path for the request,
-- and it has no more specific wildcard.
pub record IsBestWildcard (tree : HashTree) (expr url : Segments) : Type 0 where
  pub is_wildcard : ends_with expr wildcard_path_terminator ≡ true
  pub answers : is_wildcard_path_valid_for_request_path (pop expr) url ≡ true
  pub no_exact : IsAbsent tree (push url exact_path_terminator)
  pub no_better :
      (w : Segments) (ws : List Segments)
      → more_specific_wildcards_for url expr ≡ some ws
      → In w ws
      → IsAbsent tree (path_prefix ∷ w)

-- The tree has the path, and the path is the exact one for the request or the best wildcard.
abbrev pub IsBest : HashTree → Segments → Segments → Type 0
IsBest tree expr url =
    IsFound tree expr × ((expr ≡ push url exact_path_terminator) ⊎ IsBestWildcard tree expr url)

eq_of_path_eq : (p q : Segments) → path_eq p q ≡ true → p ≡ q
unfolding path_eq
eq_of_path_eq [] [] e = refl
eq_of_path_eq [] (y ∷ q) e = absurd (ground arith)
eq_of_path_eq (x ∷ p) [] e = absurd (ground arith)
eq_of_path_eq (x ∷ p) (y ∷ q) e =
    ap₂ (λ (a : Bytes) (s : Segments). a ∷ s) (eq_of_bytes_eq x y (and_left _ _ e))
      (eq_of_path_eq p q (and_right (bytes_eq x y) _ e))

found_of_exists :
    (r : SubtreeLookupResult) → exists r ≡ true → (n : HashTree) × (r ≡ SubtreeLookupResult.found n)
found_of_exists SubtreeLookupResult.absent e = absurd (ground arith)
found_of_exists SubtreeLookupResult.unknown e = absurd (ground arith)
found_of_exists (SubtreeLookupResult.found n) e = (n, refl)

absent_of_not_might_exist :
    (r : SubtreeLookupResult) → might_exist r ≡ false → r ≡ SubtreeLookupResult.absent
absent_of_not_might_exist SubtreeLookupResult.absent e = refl
absent_of_not_might_exist SubtreeLookupResult.unknown e = absurd (ground arith)
absent_of_not_might_exist (SubtreeLookupResult.found n) e = absurd (ground arith)

path_exists_in_tree-IsFound :
    (path : Segments) (tree : HashTree) → path_exists_in_tree path tree ≡ true → IsFound tree path
unfolding path_exists_in_tree
path_exists_in_tree-IsFound path tree e = found_of_exists _ e

path_might_exist_in_tree-IsAbsent :
    (path : Segments) (tree : HashTree)
    → path_might_exist_in_tree path tree ≡ false
    → IsAbsent tree path
unfolding path_might_exist_in_tree
path_might_exist_in_tree-IsAbsent path tree e = absent_of_not_might_exist _ e

none_might_exist-IfOk :
    (tree : HashTree) (ws : List Segments)
    → IfOk
        (λ (u : Unit). (w : Segments) → In w ws → IsAbsent tree (path_prefix ∷ w))
        (none_might_exist tree ws)
unfolding none_might_exist
none_might_exist-IfOk tree [] = λ w m. elim m [ ]
none_might_exist-IfOk tree (v ∷ ws) =
    elim (Bool-cases (path_might_exist_in_tree (path_prefix ∷ v) tree)) [
      | inl e ↦ rw (e) tt
      | inr e ↦ rw (e) (
          IfOk-imp _
            (λ (u : Unit). (w : Segments) → In w (v ∷ ws) → IsAbsent tree (path_prefix ∷ w))
            (none_might_exist tree ws) (none_might_exist-IfOk tree ws) λ _ h w m. one w e h m)
    ]
  where
    one :
        (w : Segments)
        → path_might_exist_in_tree (path_prefix ∷ v) tree ≡ false
        → ((w : Segments) → In w ws → IsAbsent tree (path_prefix ∷ w))
        → In w (v ∷ ws)
        → IsAbsent tree (path_prefix ∷ w)
    one w e h (here f) = rw (f) (path_might_exist_in_tree-IsAbsent (path_prefix ∷ v) tree e)
    one w e h (there m) = h w m

suffix_cases :
    (expr : Segments)
    → expr_path_has_valid_suffix expr ≡ true
    → ends_with expr exact_path_terminator ≡ false
    → ends_with expr wildcard_path_terminator ≡ true
unfolding expr_path_has_valid_suffix
suffix_cases expr e f = ground arith

check_exists-IfOk :
    (path : Segments) (tree : HashTree) (e : ResponseError)
    → IfOk (λ (u : Unit). IsFound tree path) (check_exists path tree e)
check_exists-IfOk path tree e = elim (Bool-cases (path_exists_in_tree path tree)) [
  | inl h ↦ rw (h) (path_exists_in_tree-IsFound path tree h)
  | inr h ↦ rw (h) tt
]

validate_wildcard-IfOk :
    (expr url : Segments) (tree : HashTree)
    → ends_with expr wildcard_path_terminator ≡ true
    → is_wildcard_path_valid_for_request_path (pop expr) url ≡ true
    → IsAbsent tree (push url exact_path_terminator)
    → IfOk (λ (u : Unit). IsBest tree expr url) (validate_wildcard expr url tree)
unfolding validate_wildcard
validate_wildcard-IfOk expr url tree a b c =
    let Q : Unit → Type 0 = λ u. IsBest tree expr url in
    IfOk-bind _ Q (ok_or_err ResponseError.diverges (more_specific_wildcards_for url expr)) _
      (ok_or_err-IfOk _ _)
      λ ws e.
        IfOk-bind _ Q (none_might_exist tree ws) _ (none_might_exist-IfOk tree ws) λ _ absents.
          IfOk-imp _ Q (check_exists expr tree _) (check_exists-IfOk expr tree _) λ _ found. (
            found,
            inr (record {
              is_wildcard = a;
              answers = b;
              no_exact = c;
              no_better =
                  λ w vs f m. absents w (subst (λ us. In w us) (some_inj vs ws (sym f ∙ e)) m);
            }),
          )
  where
    some_inj : (u v : List Segments) → some u ≡ some v → u ≡ v
    some_inj u v e = grind arith

rest-IfOk :
    (expr url : Segments) (tree : HashTree)
    → expr_path_has_valid_suffix expr ≡ true
    → ends_with expr exact_path_terminator ≡ false
    → IfOk
        (λ (u : Unit). IsBest tree expr url)
        (if path_might_exist_in_tree (push url exact_path_terminator) tree
          then err ResponseError.exact_expression_path_might_exist_in_tree
          else (if not (is_wildcard_path_valid_for_request_path (pop expr) url)
              then err ResponseError.wildcard_expression_path_mismatch
              else validate_wildcard expr url tree))
rest-IfOk expr url tree b d =
    elim (Bool-cases (path_might_exist_in_tree (push url exact_path_terminator) tree)) [
      | inl e ↦ rw (e) tt
      | inr e ↦ elim (Bool-cases (is_wildcard_path_valid_for_request_path (pop expr) url)) [
        | inr f ↦ rw (e, f) tt
        | inl f ↦
            rw (e, f)
              (validate_wildcard-IfOk expr url tree (suffix_cases expr b d) f
                (path_might_exist_in_tree-IsAbsent (push url exact_path_terminator) tree e))
      ]
    ]

pub validate_expr_path-IfOk :
    (expr : Segments) (request : Bytes) (tree : HashTree)
    → IfOk
        (λ (u : Unit). IsBest tree expr (request_url_path request))
        (validate_expr_path expr request tree)
unfolding validate_expr_path
validate_expr_path-IfOk expr request tree =
    let exact = push (request_url_path request) exact_path_terminator in
    elim (Bool-cases (expr_path_has_valid_prefix expr)) [
      | inr a ↦ rw (a) tt
      | inl a ↦ elim (Bool-cases (expr_path_has_valid_suffix expr)) [
        | inr b ↦ rw (a, b) tt
        | inl b ↦ elim (Bool-cases (path_eq expr exact)) [
          | inl c ↦
              rw (a, b, c)
                (IfOk-imp _ (λ (u : Unit). IsBest tree expr (request_url_path request))
                  (check_exists expr tree _) (check_exists-IfOk expr tree _)
                  λ _ found. (found, inl (eq_of_path_eq _ _ c)))
          | inr c ↦ elim (Bool-cases (ends_with expr exact_path_terminator)) [
            | inl d ↦ rw (a, b, c, d) tt
            | inr d ↦ rw (a, b, c, d) (rest-IfOk expr (request_url_path request) tree b d)
          ]
        ]
      ]
    ]
