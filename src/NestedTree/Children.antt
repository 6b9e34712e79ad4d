-- ===== src/NestedTree/Children.antt =====
-- The conversion between the inner trees and `NodeRef`, and hash trees on both sides of it.
use response_verification.Common.{◌≡◌, refl, ap₂}
use response_verification.Common.Sha.{Sha256}
use response_verification.HashTree.{labeled}
use response_verification.RbTree.{AsHashTree, NodeRef}
use response_verification.RbTree.Witness.{three_way_fork, full_witness_tree, data_tree}
use response_verification.RbTree.Witness as RbWitness
use response_verification.NestedTree.{
  NestedTree, Nodes, nested, to_ref, from_ref, as_hash_tree, nodes_hash_tree, root_hash,
  nested_as_hash_tree,
}

module _ {V : Type 0} where
  pub to_ref-from_ref : (t : NodeRef (NestedTree V)) → to_ref (from_ref t) ≡ t
  to_ref-from_ref NodeRef.nil = refl
  to_ref-from_ref (NodeRef.node k v l r c h) =
      ap₂ (λ a b. NodeRef.node k v a b c h) (to_ref-from_ref l) (to_ref-from_ref r)

module _ {V : Type 0} ⦃sha : Sha256⦄ ⦃tr : AsHashTree V⦄ where
  pub nodes_hash_tree_lem : (ns : Nodes V) → nodes_hash_tree ns ≡ RbWitness.as_hash_tree (to_ref ns)
  unfolding nodes_hash_tree RbWitness.as_hash_tree full_witness_tree data_tree nested_as_hash_tree
  nodes_hash_tree_lem Nodes.nil = refl
  nodes_hash_tree_lem (Nodes.node k t l r c h) =
      ap₂ (λ a b. three_way_fork a (labeled k (as_hash_tree t)) b) (nodes_hash_tree_lem l)
        (nodes_hash_tree_lem r)

  pub nested_root_hash : (ns : Nodes V) → root_hash (nested ns) ≡ RbWitness.root_hash (to_ref ns)
  unfolding root_hash RbWitness.root_hash
  nested_root_hash Nodes.nil = refl
  nested_root_hash (Nodes.node k t l r c h) = refl
