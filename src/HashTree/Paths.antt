-- ===== src/HashTree/Paths.antt =====
-- `lookup_path` against the leaves of a tree, and `list_paths`.
use Prim.Native.Nat.{Ordering}
use Prim.Native.Nat.Ordering.{lt, eq, gt}
use mathlib.Core.List.{append_assoc, append-nil}
use response_verification.Common.{
  ◌≡◌, refl, ◌↔◌, ◌⊎◌, inl, inr, List, [], ◌∷◌, ◌++◌, arith, ap, sym, ◌∙◌, In, In-append,
  In-append_left, In-append_right, here, there,
}
use response_verification.Common.Bytes.{
  Bytes, compare_bytes, compare_bytes_refl, eq_of_compare_bytes,
}
use response_verification.HashTree.{
  HashTree, empty, fork, labeled, leaf, pruned, LookupLabelResult, LookupResult, fork_label, at_end,
  path_step, lookup_label, lookup_path, list_paths,
}
use response_verification.HashTree.LookupLabelResult.{absent, unknown, less, greater, found}
use response_verification.HashTree.Order.{IsWellFormed, IsBranch, left_of_not_less}

-- The tree has the value `v` in a leaf under the labels `path`.
abbrev pub HasLeaf : HashTree → List Bytes → Bytes → Type 0
HasLeaf empty path v = ⊥
HasLeaf (leaf w) path v = (path ≡ []) × (v ≡ w)
HasLeaf (labeled l n) path v = (rest : List Bytes) × (path ≡ l ∷ rest) × HasLeaf n rest v
HasLeaf (fork a b) path v = HasLeaf a path v ⊎ HasLeaf b path v
HasLeaf (pruned h) path v = ⊥

abbrev IsValue : LookupResult → Bytes → Type 0
IsValue r v = r ≡ LookupResult.found v

fork_label-found :
    (r s : LookupLabelResult) (n : HashTree)
    → fork_label r s ≡ found n
    → (r ≡ found n) ⊎ (s ≡ found n)
fork_label-found absent s n e = inl e
fork_label-found less s n e = inl e
fork_label-found (found m) s n e = inl e
fork_label-found unknown s n e = ground arith
fork_label-found greater s n e = ground arith

HasLeaf-lookup_label :
    (t : HashTree) (q : Bytes) (n : HashTree) (path : List Bytes) (v : Bytes)
    → lookup_label t q ≡ found n
    → HasLeaf n path v
    → HasLeaf t (q ∷ path) v
unfolding lookup_label
HasLeaf-lookup_label empty q n path v e h = cc
HasLeaf-lookup_label (leaf w) q n path v e h = cc
HasLeaf-lookup_label (pruned p) q n path v e h = cc
HasLeaf-lookup_label (labeled l m) q n path v e h = at (compare_bytes q l) refl
  where
    at : (o : Ordering) → compare_bytes q l ≡ o → HasLeaf (labeled l m) (q ∷ path) v
    at eq c =
        let same : m ≡ n = ground (arith, c) in
        (path, ap (λ z. z ∷ path) (eq_of_compare_bytes q l c), rw same h)
    at lt c = absurd (ground (arith, c))
    at gt c = absurd (ground (arith, c))
HasLeaf-lookup_label (fork a b) q n path v e h =
    elim (fork_label-found (lookup_label a q) (lookup_label b q) n e) [
      | inl l ↦ inl (HasLeaf-lookup_label a q n path v l h)
      | inr r ↦ inr (HasLeaf-lookup_label b q n path v r h)
    ]

path_step-found :
    (r : LookupLabelResult) (next : HashTree → LookupResult) (v : Bytes)
    → IsValue (path_step r next) v
    → (n : HashTree) × (r ≡ found n) × IsValue (next n) v
path_step-found absent next v e = cc
path_step-found unknown next v e = cc
path_step-found less next v e = cc
path_step-found greater next v e = cc
path_step-found (found n) next v e = (n, refl, e)

at_end-HasLeaf : (t : HashTree) (v : Bytes) → IsValue (at_end t) v → HasLeaf t [] v
at_end-HasLeaf empty v e = cc
at_end-HasLeaf (leaf w) v e = (refl, cc)
at_end-HasLeaf (labeled l n) v e = cc
at_end-HasLeaf (fork a b) v e = cc
at_end-HasLeaf (pruned h) v e = cc

-- What is found at a path is in a leaf under it, in any tree.
pub lookup_path-HasLeaf :
    (path : List Bytes) (t : HashTree) (v : Bytes)
    → lookup_path t path ≡ LookupResult.found v
    → HasLeaf t path v
unfolding lookup_path
lookup_path-HasLeaf [] t v e = at_end-HasLeaf t v e
lookup_path-HasLeaf (q ∷ path) t v e =
    let (n, l, r) = path_step-found (lookup_label t q) (λ n. lookup_path n path) v e in
    HasLeaf-lookup_label t q n path v l (lookup_path-HasLeaf path n v r)

lookup_path_left :
    (a b : HashTree) (path : List Bytes) (v : Bytes)
    → IsBranch a
    → IsValue (lookup_path a path) v
    → IsValue (lookup_path (fork a b) path) v
unfolding lookup_path lookup_label
lookup_path_left (labeled l n) b [] v i e = cc
lookup_path_left (fork c d) b [] v i e = cc
lookup_path_left empty b path v i e = absurd i
lookup_path_left (leaf w) b path v i e = absurd i
lookup_path_left (pruned h) b path v i e = absurd i
lookup_path_left a b (q ∷ path) v i e =
    let (n, l, r) = path_step-found (lookup_label a q) (λ n. lookup_path n path) v e in rw l r

lookup_path_right :
    (a b : HashTree) (path : List Bytes) (v : Bytes)
    → IsWellFormed (fork a b)
    → IsValue (lookup_path b path) v
    → IsValue (lookup_path (fork a b) path) v
unfolding lookup_path lookup_label
lookup_path_right a (labeled l n) [] v w e = cc
lookup_path_right a (fork c d) [] v w e = cc
lookup_path_right a empty path v w e = absurd w.1
lookup_path_right a (leaf u) path v w e = absurd w.1
lookup_path_right a (pruned h) path v w e = absurd w.1
lookup_path_right a b (q ∷ path) v w e =
    let (n, l, r) = path_step-found (lookup_label b q) (λ n. lookup_path n path) v e in
    rw (left_of_not_less a b q w (λ p. cc (p, l)), l) r

lookup_path_down :
    (l : Bytes) (n : HashTree) (rest : List Bytes)
    → lookup_path (labeled l n) (l ∷ rest) ≡ lookup_path n rest
unfolding lookup_path lookup_label
lookup_path_down l n rest = ground (arith, compare_bytes_refl l)

-- In a well-formed tree every leaf is found.
pub HasLeaf-lookup_path :
    (t : HashTree) (path : List Bytes) (v : Bytes)
    → IsWellFormed t
    → HasLeaf t path v
    → lookup_path t path ≡ LookupResult.found v
HasLeaf-lookup_path empty path v w h = absurd h
HasLeaf-lookup_path (pruned p) path v w h = absurd h
HasLeaf-lookup_path (leaf u) path v w h = rw (h.0, h.1) (unfold lookup_path in refl)
HasLeaf-lookup_path (labeled l n) path v w (rest, e, h) =
    rw (e, lookup_path_down l n rest) (HasLeaf-lookup_path n rest v w h)
HasLeaf-lookup_path (fork a b) path v w (inl h) =
    lookup_path_left a b path v w.0 (HasLeaf-lookup_path a path v w.3 h)
HasLeaf-lookup_path (fork a b) path v w (inr h) =
    lookup_path_right a b path v w (HasLeaf-lookup_path b path v w.4 h)

-- The paths under which a value lies.
abbrev pub Listed : HashTree → List Bytes → List Bytes → Type 0
Listed t before path =
    (rest : List Bytes) × (v : Bytes) × (path ≡ before ++ rest) × HasLeaf t rest v

In-list_paths :
    (t : HashTree) (before path : List Bytes) → In path (list_paths t before) → Listed t before path
unfolding list_paths
In-list_paths empty before path m = elim m [ ]
In-list_paths (pruned h) before path m = elim m [ ]
In-list_paths (leaf w) before path (here e) = ([], w, e ∙ sym (append-nil before), (refl, refl))
In-list_paths (leaf w) before path (there m) = elim m [ ]
In-list_paths (labeled l n) before path m =
    let (rest, v, e, h) = In-list_paths n (before ++ l ∷ []) path m in
    (l ∷ rest, v, e ∙ append_assoc before (l ∷ []) rest, (rest, refl, h))
In-list_paths (fork a b) before path m =
    elim (In-append path (list_paths a before) (list_paths b before) m) [
      | inl i ↦ let (rest, v, e, h) = In-list_paths a before path i in (rest, v, e, inl h)
      | inr i ↦ let (rest, v, e, h) = In-list_paths b before path i in (rest, v, e, inr h)
    ]

list_paths-In :
    (t : HashTree) (before rest : List Bytes) (v : Bytes)
    → HasLeaf t rest v
    → In (before ++ rest) (list_paths t before)
unfolding list_paths
list_paths-In empty before rest v h = absurd h
list_paths-In (pruned p) before rest v h = absurd h
list_paths-In (leaf w) before rest v h = rw h.0 (here (append-nil before))
list_paths-In (labeled l n) before rest v (below, e, h) =
    rw (e, ← append_assoc before (l ∷ []) below) (list_paths-In n (before ++ l ∷ []) below v h)
list_paths-In (fork a b) before rest v (inl h) =
    In-append_left (before ++ rest) (list_paths a before) (list_paths b before)
      (list_paths-In a before rest v h)
list_paths-In (fork a b) before rest v (inr h) =
    In-append_right (before ++ rest) (list_paths a before) (list_paths b before)
      (list_paths-In b before rest v h)

-- A well-formed tree lists exactly the paths at which a lookup finds a value.
pub list_paths-lookup_path :
    (t : HashTree) (path : List Bytes)
    → IsWellFormed t
    → In path (list_paths t []) ↔ ((v : Bytes) × (lookup_path t path ≡ LookupResult.found v))
list_paths-lookup_path t path w = (
  λ m.
      let (rest, v, e, h) = In-list_paths t [] path m in
      (v, rw e (HasLeaf-lookup_path t rest v w h)),
  λ s. list_paths-In t [] path s.0 (lookup_path-HasLeaf path t s.0 s.1),
)
