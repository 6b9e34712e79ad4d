-- ===== src/NestedTree/Delete.antt =====
-- `delete` from a nested tree, against the paths of its leaves.
use mathlib.Core.Option
use response_verification.Common.{
  ◌≡◌, refl, sym, ap, ◌∙◌, Bool, true, false, if◌then◌else◌, Option, none, some, List, [], ◌∷◌, inl,
  inr, Bool-cases, Option-cases,
}
use response_verification.Common.Bytes.{Bytes, bytes_eq, eq_of_bytes_eq}
use response_verification.Common.Options.{◌>>=◌, Returns, Returns-bind, Returns-some, Returns-imp}
use response_verification.Common.Sha.{Sha256}
use response_verification.RbTree
use response_verification.RbTree.{AsHashTree, NodeRef}
use response_verification.RbTree.Delete.Go.{delete_lem}
use response_verification.RbTree.Insert.{modify_lem, modify-IsHashed}
use response_verification.RbTree.Modify.{modify-IsSorted, modify-IsBalanced}
use response_verification.NestedTree.{
  NestedTree, Nodes, leaf, nested, to_ref, from_ref, empty_tree, get, delete, prune_key,
  nested_as_hash_tree,
}
use response_verification.NestedTree.Valid.{
  IsValid, AreValid, AreValid-IsValid, IsValid-AreValid, modify-AreValid, empty_tree-IsValid,
  IsValid-IsLawful,
}
use response_verification.NestedTree.Insert.{
  starts_with, at_key, get-empty_tree, get-nested, get-children, at_key-modify,
}

map_id : {A : Type 0} (b : Bool) (o : Option A) → (if b then Option.map (λ a. a) o else o) ≡ o
map_id true none = refl
map_id true (some a) = refl
map_id false o = refl

none_either : {A : Type 0} (b : Bool) → ◌≡◌ {A = Option A} (if b then none else none) none
none_either true = refl
none_either false = refl

cut_below :
    {V : Type 0} (k j : Bytes) (p q : List Bytes) (x y old : Option V)
    → (bytes_eq j k ≡ true → x ≡ (if starts_with p q then none else old))
    → (bytes_eq j k ≡ false → y ≡ old)
    → (if bytes_eq j k then x else y) ≡ (if starts_with (k ∷ p) (j ∷ q) then none else old)
unfolding starts_with
cut_below k j p q x y old f g = elim (Bool-cases (bytes_eq j k)) [
  | inl e ↦ rw e (f e)
  | inr e ↦ rw e (g e)
]

either {ℓ} : {A : Type ℓ} (b : Bool) (x : A) → x ≡ (if b then x else x)
either true x = refl
either false x = refl

module _ {V : Type 0} ⦃sha : Sha256⦄ ⦃tr : AsHashTree V⦄ where
  -- A child was changed to `c`, or removed if `c` is empty.
  record Pruned (k : Bytes) (t : NodeRef (NestedTree V)) (c : NestedTree V)
      (u : NodeRef (NestedTree V)) : Type 0 where
    pub valid : AreValid u
    pub reads :
        (j : Bytes) (q : List Bytes)
        → at_key u j q ≡ (if bytes_eq j k then get c q else at_key t j q)

  module _ (k : Bytes) (t : NodeRef (NestedTree V)) (d : NestedTree V) (p : AreValid t)
      (e : RbTree.get t k ≡ some d) where
    kept : (c : NestedTree V) → IsValid c → Pruned k t c (RbTree.modify t k (λ _. c))
    kept c valid = record {
      valid = modify-AreValid t k c p valid (IsValid-IsLawful valid);
      reads = λ j q. at_key-modify t k c d j q e;
    }

    prune_key-Pruned :
        (c : NestedTree V)
        → IsValid c
        → Returns (prune_key (RbTree.modify t k (λ _. c)) k c) (Pruned k t c)
    prune_key-Pruned (leaf v) valid = Returns-some _ _ (kept (leaf v) valid)
    prune_key-Pruned (nested (Nodes.node j s l r c h)) valid = Returns-some _ _ (kept _ valid)
    prune_key-Pruned (nested Nodes.nil) valid =
        let m = kept empty_tree valid in
        Returns-imp
          (λ u r. record {
            valid = record {
              sorted = r.0;
              balanced = r.1;
              hashed = r.3 m.valid.hashed;
              valid = λ j child f.
                  left_valid (bytes_eq j k) _ child (m.valid.valid j child) (sym (r.2 j) ∙ f);
            };
            reads = λ j q.
                ap (λ o. o >>= λ child. get child q) (r.2 j)
                ∙ gone (bytes_eq j k) _ q (at_key t j q) (m.reads j q);
          })
          (delete_lem k (RbTree.modify t k (λ _. empty_tree)) m.valid.sorted m.valid.balanced)
      where
        left_valid :
            (b : Bool) (o : Option (NestedTree V)) (child : NestedTree V)
            → (o ≡ some child → IsValid child)
            → (if b then none else o) ≡ some child
            → IsValid child
        left_valid true o child f g = cc
        left_valid false o child f g = f g

        gone :
            (b : Bool) (o : Option (NestedTree V)) (q : List Bytes) (old : Option V)
            → (o >>= λ child. get child q) ≡ (if b then get empty_tree q else old)
            → ((if b then none else o) >>= λ child. get child q)
              ≡ (if b then get empty_tree q else old)
        gone true o q old f = sym (get-empty_tree q)
        gone false o q old f = f

  -- At a missing key `modify` computes hashes again, and no more.
  touched :
      (k : Bytes) (t : NodeRef (NestedTree V)) → AreValid t → AreValid (RbTree.modify t k (λ c. c))
  touched k t p = record {
    sorted = modify-IsSorted k (λ c. c) t p.sorted;
    balanced = modify-IsBalanced k (λ c. c) t p.balanced;
    hashed = modify-IsHashed t k (λ c. c) (λ c h. h) p.hashed;
    valid = λ j child e.
        p.valid j child
          (sym (modify_lem t k (λ c. c) j ∙ map_id (bytes_eq j k) (RbTree.get t j)) ∙ e);
  }

  -- `u` is `t` without what stands at the path and below.
  pub record Removed (p : List Bytes) (t u : NestedTree V) : Type 0 where
    pub valid : IsValid u
    pub reads : (q : List Bytes) → get u q ≡ (if starts_with p q then none else get t q)

  -- Deletion from a valid tree never panics and gives a valid tree, in which the path and all paths
  -- that go on from it read as nothing, and every other path reads as before.
  pub delete-Removed :
      (p : List Bytes) (t : NestedTree V) → IsValid t → Returns (delete t p) (Removed p t)
  unfolding delete
  delete-Removed [] t valid =
      Returns-some _ empty_tree
        (record { valid = empty_tree-IsValid; reads = λ q. unfold starts_with in get-empty_tree q })
  delete-Removed (k ∷ p) (leaf v) valid =
      Returns-some _ (leaf v) (record { valid = valid; reads = same })
    where
      same :
          (q : List Bytes)
          → get (leaf v) q ≡ (if starts_with (k ∷ p) q then none else get (leaf v) q)
      same [] = unfold starts_with in refl
      same (j ∷ q) = unfold get in sym (none_either (starts_with (k ∷ p) (j ∷ q)))
  delete-Removed (k ∷ p) (nested ns) valid = elim (Option-cases (RbTree.get t k)) [
    | inl absent ↦
        rw (absent, delete)
          (Returns-some _ _
            (record { valid = AreValid-IsValid _ (touched k t are); reads = untouched absent }))
    | inr (child, there) ↦
        rw (there, delete)
          (Returns-bind _ (delete child p) _ (delete-Removed p child (are.valid k child there))
            λ c i.
              Returns-bind _ (prune_key (RbTree.modify t k (λ _. c)) k c) _
                (prune_key-Pruned k t child are there c i.valid)
                λ u r. Returns-some _ _ (record {
                  valid = AreValid-IsValid u r.valid;
                  reads = changed child there c u i r;
                }))
  ]
    where
      t : NodeRef (NestedTree V)
      t = to_ref ns

      are : AreValid t
      are = IsValid-AreValid valid

      untouched :
          RbTree.get t k ≡ none
          → (q : List Bytes)
          → get (nested (from_ref (RbTree.modify t k (λ c. c)))) q
            ≡ (if starts_with (k ∷ p) q then none else get (nested ns) q)
      untouched absent [] = unfold get starts_with in refl
      untouched absent (j ∷ q) =
          get-nested (RbTree.modify t k (λ c. c)) j q
          ∙ ap (λ o. o >>= λ c. get c q)
              (modify_lem t k (λ c. c) j ∙ map_id (bytes_eq j k) (RbTree.get t j))
          ∙ either (bytes_eq j k) (at_key t j q)
          ∙ cut_below k j p q (at_key t j q) (at_key t j q) (get (nested ns) (j ∷ q))
              (λ same.
                let gone =
                  ap (λ z. at_key t z q) (eq_of_bytes_eq j k same)
                  ∙ ap (λ o. o >>= λ c. get c q) absent in
                gone
                ∙ sym (
                    ap (λ z. if starts_with p q then none else z)
                      (get-children (nested ns) j q ∙ gone)
                    ∙ none_either (starts_with p q)))
              (λ other. sym (get-children (nested ns) j q))

      changed :
          (child : NestedTree V)
          → RbTree.get t k ≡ some child
          → (c : NestedTree V) (u : NodeRef (NestedTree V)) → Removed p child c
          → Pruned k t c u
          → (q : List Bytes)
          → get (nested (from_ref u)) q
            ≡ (if starts_with (k ∷ p) q then none else get (nested ns) q)
      changed child there c u i r [] = unfold get starts_with in refl
      changed child there c u i r (j ∷ q) =
          get-nested u j q
          ∙ r.reads j q
          ∙ cut_below k j p q (get c q) (at_key t j q) (get (nested ns) (j ∷ q))
              (λ same.
                i.reads q
                ∙ ap (λ z. if starts_with p q then none else z)
                    (sym (ap (λ o. o >>= λ z. get z q) there)
                      ∙ ap (λ z. at_key t z q) (sym (eq_of_bytes_eq j k same))
                      ∙ sym (get-children (nested ns) j q)))
              (λ other. sym (get-children (nested ns) j q))
