-- ===== src/NestedTree/Insert.antt =====
-- `insert` into a nested tree, against the paths of its leaves.
use mathlib.Core.Option
use response_verification.Common.{
  ◌≡◌, refl, sym, ap, ◌∙◌, Bool, true, false, ◌&&◌, if◌then◌else◌, Option, none, some, List, [],
  ◌∷◌, inl, inr, Bool-cases, Option-cases, subst,
}
use response_verification.Common.Bytes.{Bytes, bytes_eq, eq_of_bytes_eq, bytes_eq_refl}
use response_verification.Common.Options.{
  ◌>>=◌, Returns, Returns-bind, Returns-some, Returns-imp, Returns-both, some_inj,
}
use response_verification.Common.Sha.{Sha256}
use response_verification.RbTree
use response_verification.RbTree.{AsHashTree, NodeRef}
use response_verification.RbTree.Hashes.{IsLawful}
use response_verification.RbTree.Insert.{insert_lem, modify_lem}
use response_verification.RbTree.Balanced.{insert-IsBalanced}
use response_verification.NestedTree.{
  NestedTree, leaf, nested, from_ref, empty_tree, get, insert, ensure_key, children,
  nested_as_hash_tree,
}
use response_verification.NestedTree.Children.{to_ref-from_ref}
use response_verification.NestedTree.Valid.{
  IsValid, valid_leaf, valid_nested, AreValid, AreValid-IsValid, IsValid-AreValid,
  no_nodes-AreValid, modify-AreValid, empty_tree-IsValid, IsValid-IsLawful,
}

-- The path starts with the other.
unfoldable pub starts_with : List Bytes → List Bytes → Bool
starts_with [] q = true
starts_with (k ∷ p) [] = false
starts_with (k ∷ p) (j ∷ q) = bytes_eq j k && starts_with p q

pub bytes_eq_sym : (a b : Bytes) → bytes_eq a b ≡ bytes_eq b a
bytes_eq_sym a b = elim (Bool-cases (bytes_eq a b)) [
  | inl e ↦ rw (eq_of_bytes_eq a b e) refl
  | inr e ↦ elim (Bool-cases (bytes_eq b a)) [
    | inl f ↦ rw (eq_of_bytes_eq b a f) refl
    | inr f ↦ e ∙ sym f
  ]
]

module _ {V : Type 0} where
  -- A lookup from a tree of nodes on.
  abbrev pub at_key : NodeRef (NestedTree V) → Bytes → List Bytes → Option V
  at_key t k q = RbTree.get t k >>= λ child. get child q

  pub get-empty_tree : (q : List Bytes) → get {V = V} empty_tree q ≡ none
  unfolding get RbTree.get
  get-empty_tree [] = refl
  get-empty_tree (k ∷ q) = refl

  pub get-nested :
      (t : NodeRef (NestedTree V)) (k : Bytes) (q : List Bytes)
      → get (nested (from_ref t)) (k ∷ q) ≡ at_key t k q
  unfolding get
  get-nested t k q = ap (λ z. at_key z k q) (to_ref-from_ref t)

  pub get-children :
      (t : NestedTree V) (k : Bytes) (q : List Bytes) → get t (k ∷ q) ≡ at_key (children t) k q
  unfolding get RbTree.get
  get-children (leaf v) k q = refl
  get-children (nested ns) k q = refl

  -- What a path reads after `v` was put at the path `p`, from what it read before.
  abbrev pub after_insert : List Bytes → V → List Bytes → Option V → Option V
  after_insert p v q old =
      if starts_with p q
      then (if starts_with q p then some v else none)
      else (if starts_with q p then none else old)

choose :
    {A B : Type 0} (b : Bool) (o : Option A) (c d : A) (f : A → Option B)
    → (b ≡ true → o ≡ some d)
    → ((if b then Option.map (λ _. c) o else o) >>= f) ≡ (if b then f c else (o >>= f))
choose true o c d f h = rw (h refl) refl
choose false o c d f h = refl

module _ {V : Type 0} where
  leaf_reads :
      (v : V) (t : NestedTree V) (q : List Bytes) → get (leaf v) q ≡ after_insert [] v q (get t q)
  unfolding get starts_with
  leaf_reads v t [] = refl
  leaf_reads v t (j ∷ q) = refl

  -- The two tests at a path that starts with another key, or with the same.
  parted :
      (k j : Bytes) (p q : List Bytes) (v : V) (old : Option V)
      → after_insert (k ∷ p) v (j ∷ q) old ≡ (if bytes_eq j k then after_insert p v q old else old)
  unfolding starts_with
  parted k j p q v old = elim (Bool-cases (bytes_eq j k)) [
    | inl e ↦ rw (bytes_eq_sym k j) (rw e refl)
    | inr e ↦ rw (bytes_eq_sym k j) (rw e refl)
  ]

  -- A new key with an empty child, seen through lookups.
  fresh_child :
      (b : Bool) (o : Option (NestedTree V)) (q : List Bytes)
      → (b ≡ true → o ≡ none)
      → ((if b then some empty_tree else o) >>= λ child. get child q) ≡ (o >>= λ child. get child q)
  fresh_child true o q h = rw (h refl) (get-empty_tree q)
  fresh_child false o q h = refl

module _ {V : Type 0} ⦃sha : Sha256⦄ ⦃tr : AsHashTree V⦄ where
  pub children-AreValid : {t : NestedTree V} → IsValid t → AreValid (children t)
  children-AreValid (valid_leaf w) = no_nodes-AreValid
  children-AreValid (valid_nested s b h f) = IsValid-AreValid (valid_nested s b h f)

  pub at_key-modify :
      (t : NodeRef (NestedTree V)) (k : Bytes) (c d : NestedTree V) (j : Bytes) (q : List Bytes)
      → RbTree.get t k ≡ some d
      → at_key (RbTree.modify t k (λ _. c)) j q ≡ (if bytes_eq j k then get c q else at_key t j q)
  at_key-modify t k c d j q e =
      ap (λ o. o >>= λ child. get child q) (modify_lem t k (λ _. c) j)
      ∙ choose (bytes_eq j k) (RbTree.get t j) c d (λ child. get child q)
          (λ same. ap (RbTree.get t) (eq_of_bytes_eq j k same) ∙ e)

  -- The key has a child now, and nothing else is read otherwise.
  record Ensured (k : Bytes) (t u : NodeRef (NestedTree V)) : Type 0 where
    pub valid : AreValid u
    pub child : NestedTree V
    pub present : RbTree.get u k ≡ some child
    pub reads : (j : Bytes) (q : List Bytes) → at_key u j q ≡ at_key t j q

  ensure_key-Ensured :
      (k : Bytes) (t : NodeRef (NestedTree V)) → AreValid t → Returns (ensure_key t k) (Ensured k t)
  unfolding ensure_key
  ensure_key-Ensured k t p = elim (Option-cases (RbTree.get t k)) [
    | inr (c, there) ↦
        rw (there, ensure_key)
          (Returns-some _ t (record { valid = p; child = c; present = there; reads = λ j q. refl }))
    | inl absent ↦
        rw (absent, ensure_key)
          (Returns-imp
            (λ u r. record {
              valid = record {
                sorted = r.0.0;
                balanced = r.1;
                hashed = r.0.2 p.hashed;
                valid = λ j child e.
                    new_valid (bytes_eq j k) (RbTree.get t j) child (p.valid j child)
                      (sym (r.0.1 j) ∙ e);
              };
              child = empty_tree;
              present = r.0.1 k ∙ rw (bytes_eq_refl k) refl;
              reads = λ j q.
                  ap (λ o. o >>= λ child. get child q) (r.0.1 j)
                  ∙ fresh_child (bytes_eq j k) (RbTree.get t j) q
                      (λ same. ap (RbTree.get t) (eq_of_bytes_eq j k same) ∙ absent);
            })
            (Returns-both (insert_lem k empty_tree (IsValid-IsLawful empty_tree-IsValid) t p.sorted)
              (insert-IsBalanced k empty_tree t p.balanced)))
  ]
    where
      new_valid :
          (b : Bool) (o : Option (NestedTree V)) (child : NestedTree V)
          → (o ≡ some child → IsValid child)
          → (if b then some empty_tree else o) ≡ some child
          → IsValid child
      new_valid true o child f e = subst IsValid (some_inj e) empty_tree-IsValid
      new_valid false o child f e = f e

  -- `u` is `t` with the value at the path.
  pub record Inserted (p : List Bytes) (v : V) (t u : NestedTree V) : Type 0 where
    pub valid : IsValid u
    pub reads : (q : List Bytes) → get u q ≡ after_insert p v q (get t q)

  -- Insertion into a valid tree never panics and gives a valid tree, in which the path reads as the
  -- value, every other path that is a part of it or goes on from it reads as nothing, and each path
  -- that parts from it reads as before.
  pub insert-Inserted :
      (p : List Bytes) (v : V) (t : NestedTree V)
      → IsLawful v
      → IsValid t
      → Returns (insert t p v) (Inserted p v t)
  unfolding insert
  insert-Inserted [] v t w valid =
      Returns-some _ (leaf v) (record { valid = valid_leaf w; reads = leaf_reads v t })
  insert-Inserted (k ∷ p) v t w valid =
      Returns-bind _ (ensure_key (children t) k) _
        (ensure_key-Ensured k (children t) (children-AreValid valid))
        λ u e.
          rw (e.present, ◌>>=◌)
            (Returns-bind _ (insert e.child p v) _
              (insert-Inserted p v e.child w (e.valid.valid k e.child e.present))
              λ c i. Returns-some _ _ (record {
                valid =
                    AreValid-IsValid _
                      (modify-AreValid u k c e.valid i.valid (IsValid-IsLawful i.valid));
                reads = reads_at u c e i;
              }))
    where
      reads_at :
          (u : NodeRef (NestedTree V)) (c : NestedTree V) (e : Ensured k (children t) u)
          → Inserted p v e.child c
          → (q : List Bytes)
          → get (nested (from_ref (RbTree.modify u k (λ _. c)))) q
            ≡ after_insert (k ∷ p) v q (get t q)
      reads_at u c e i [] = unfold get starts_with in refl
      reads_at u c e i (j ∷ q) =
          get-nested (RbTree.modify u k (λ _. c)) j q
          ∙ at_key-modify u k c e.child j q e.present
          ∙ (elim (Bool-cases (bytes_eq j k)) [
            | inl same ↦ rw same (
                i.reads q
                ∙ ap (λ z. after_insert p v q z)
                    (sym (ap (λ o. o >>= λ z. get z q) e.present)
                      ∙ e.reads k q
                      ∙ sym (get-children t k q)
                      ∙ ap (λ z. get t (z ∷ q)) (sym (eq_of_bytes_eq j k same))))
            | inr other ↦ rw other (e.reads j q ∙ sym (get-children t j q))
          ])
          ∙ sym (parted k j p q v (get t (j ∷ q)))
