-- ===== src/Examples/Nested.antt =====
-- Examples of the theorems on nested trees.
use Prim.Native.Nat.Ordering.{lt, eq, gt}
use response_verification.Common.{Ordering, ◌≡◌, refl, some, none, [], ◌∷◌, subst}
use response_verification.Common.Bytes.{Bytes, codes, compare_bytes}
use response_verification.Common.Options.{Returns, some_inj}
use response_verification.HashTree.{digest, leaf_hash}
use response_verification.HashTree.Prunes.{Prunes}
use response_verification.RbTree
use response_verification.RbTree.{NodeRef, AsHashTree, bytes_as_hash_tree}
use response_verification.NestedTree.{
  NestedTree, leaf, nested, from_ref, root_hash, as_hash_tree, nested_as_hash_tree, insert, delete,
  witness,
}
use response_verification.NestedTree.Valid.{
  IsValid, valid_leaf, IsValid-IsLawful, AreValid, AreValid-IsValid,
}
use response_verification.NestedTree.Insert.{insert-Inserted, Inserted}
use response_verification.NestedTree.Delete.{delete-Removed, Removed}
use response_verification.NestedTree.Certify.{witness-certifies}
use response_verification.RbTree.Shape.{leaf_shape, two_shape}
use response_verification.Examples.{toy_sha}
use response_verification.Examples.Nodes.{lawful}

abbrev sample_nodes : NodeRef (NestedTree Bytes)
sample_nodes =
    RbTree.with_hash (codes "img") (leaf (codes "one")) NodeRef.nil NodeRef.nil RbTree.black

abbrev sample_tree : NestedTree Bytes
sample_tree = nested (from_ref sample_nodes)

abbrev sample_child : NestedTree Bytes
sample_child = leaf (codes "one")

child-IsValid :
    (o : Ordering) (child : NestedTree Bytes)
    → elim o [ eq ↦ some sample_child | lt ↦ none | gt ↦ none ] ≡ some child
    → IsValid child
child-IsValid eq child e = subst IsValid (some_inj e) (valid_leaf (lawful (codes "one")))
child-IsValid lt child e = cc e
child-IsValid gt child e = cc e

sample_nodes-AreValid : AreValid sample_nodes
unfolding RbTree.with_hash RbTree.get compare_bytes nested_as_hash_tree bytes_as_hash_tree
    as_hash_tree root_hash leaf_hash
sample_nodes-AreValid = record {
  sorted = (tt, tt);
  balanced = (1, two_shape leaf_shape leaf_shape);
  hashed = (refl, IsValid-IsLawful {V = Bytes} (valid_leaf (lawful (codes "one"))), tt, tt);
  valid = λ k child e. child-IsValid (compare_bytes k (codes "img")) child e;
}

sample_tree-IsValid : IsValid sample_tree
sample_tree-IsValid = AreValid-IsValid sample_nodes sample_nodes-AreValid

insert-Inserted_example :
    Returns
      (insert sample_tree (codes "img" ∷ codes "b" ∷ []) (codes "two"))
      (Inserted (codes "img" ∷ codes "b" ∷ []) (codes "two") sample_tree)
insert-Inserted_example =
    insert-Inserted (codes "img" ∷ codes "b" ∷ []) (codes "two") sample_tree (lawful (codes "two"))
      sample_tree-IsValid

delete-Removed_example :
    Returns (delete sample_tree (codes "img" ∷ [])) (Removed (codes "img" ∷ []) sample_tree)
delete-Removed_example = delete-Removed (codes "img" ∷ []) sample_tree sample_tree-IsValid

witness-certifies_example :
    Prunes (witness sample_tree (codes "js" ∷ [])) (as_hash_tree sample_tree)
    × (digest (witness sample_tree (codes "js" ∷ [])) ≡ root_hash sample_tree)
witness-certifies_example = witness-certifies (codes "js" ∷ []) sample_tree sample_tree-IsValid
