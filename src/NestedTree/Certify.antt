-- ===== src/NestedTree/Certify.antt =====
-- The witness of a path in a nested tree.
use response_verification.Common.{◌≡◌, sym, ◌∙◌, List, [], ◌∷◌, subst}
use response_verification.Common.Bytes.{Bytes}
use response_verification.Common.Sha.{Sha256}
use response_verification.HashTree.{digest}
use response_verification.HashTree.Prunes.{Prunes, Prunes-refl, digest-Prunes}
use response_verification.RbTree.{AsHashTree}
use response_verification.RbTree.Fork.{Shows-Prunes}
use response_verification.RbTree.Certify.{nested_witness-Shows}
use response_verification.NestedTree.{
  NestedTree, leaf, nested, to_ref, as_hash_tree, root_hash, witness, nested_as_hash_tree,
}
use response_verification.NestedTree.Children.{nodes_hash_tree_lem}
use response_verification.NestedTree.Valid.{IsValid, valid_nested, IsValid-IsLawful}

module _ {V : Type 0} ⦃sha : Sha256⦄ ⦃tr : AsHashTree V⦄ where
  witness-Prunes :
      (p : List Bytes) (t : NestedTree V) → IsValid t → Prunes (witness t p) (as_hash_tree t)
  unfolding witness as_hash_tree nested_as_hash_tree
  witness-Prunes [] t valid = Prunes-refl (as_hash_tree t)
  witness-Prunes (k ∷ p) (leaf v) valid = Prunes-refl (tr.as_hash_tree v)
  witness-Prunes (k ∷ p) (nested ns) (valid_nested s b h f) =
      subst (λ z. Prunes (witness (nested ns) (k ∷ p)) z) (sym (nodes_hash_tree_lem ns))
        (Shows-Prunes (
          nested_witness-Shows (λ child. witness child p) (to_ref ns) k h
            (λ child e. witness-Prunes p child (f k child e))))

  -- Of a valid tree, the witness of any path, whether something is there or not, is the hash tree with
  -- parts replaced by their digests, and has the stored root hash for its digest.
  pub witness-certifies :
      (p : List Bytes) (t : NestedTree V)
      → IsValid t
      → Prunes (witness t p) (as_hash_tree t) × (digest (witness t p) ≡ root_hash t)
  witness-certifies p t valid =
      let shown = witness-Prunes p t valid in
      (shown, digest-Prunes shown ∙ unfold nested_as_hash_tree in IsValid-IsLawful valid)
