-- ===== src/RbTree/Full.antt =====
-- The full hash tree of a tree: its digest is the stored root hash, and it has a label for each key.
use response_verification.Common.{◌≡◌, refl, ◌∙◌}
use response_verification.Common.Bytes.{Bytes}
use response_verification.Common.Sha.{Sha256}
use response_verification.HashTree.{HashTree, empty, labeled, labeled_hash, digest}
use response_verification.HashTree.Order.{IsBranch}
use response_verification.RbTree.{
  Color, AsHashTree, NodeRef, nil, node, child_hash_tree, data_hash, compute_subtree_hash,
}
use response_verification.RbTree.Fork.{
  Shows, nothing, hidden, hidden_fork, three_way_fork-branches, three_way_fork-left,
  three_way_fork-right,
}
use response_verification.RbTree.Hashes.{IsHashed, IsLawful}
use response_verification.RbTree.Witness.{
  three_way_fork, data_tree, full_witness_tree, root_hash, as_hash_tree,
}

module _ ⦃sha : Sha256⦄ where
  three_way_fork-IsBranch :
      (a : HashTree) (k : Bytes) (n b : HashTree) → IsBranch (three_way_fork a (labeled k n) b)
  unfolding three_way_fork
  three_way_fork-IsBranch empty k n empty = tt
  three_way_fork-IsBranch empty k n b = tt
  three_way_fork-IsBranch a k n empty = tt
  three_way_fork-IsBranch a k n b = tt

  middle : (k : Bytes) (n : HashTree) → three_way_fork empty (labeled k n) empty ≡ labeled k n
  unfolding three_way_fork
  middle k n = refl

module _ {ℓ} (V : Type ℓ) ⦃sha : Sha256⦄ ⦃tr : AsHashTree V⦄ where
  pub as_hash_tree-nil : as_hash_tree {V = V} nil ≡ empty
  unfolding as_hash_tree full_witness_tree
  as_hash_tree-nil = refl

module _ {ℓ} {V : Type ℓ} ⦃sha : Sha256⦄ ⦃tr : AsHashTree V⦄ where
  pub as_hash_tree-IsBranch :
      (k : Bytes) (v : V) (l r : NodeRef V) (c : Color) (h : Bytes)
      → IsBranch (as_hash_tree (node k v l r c h))
  unfolding as_hash_tree full_witness_tree data_tree
  as_hash_tree-IsBranch k v l r c h = three_way_fork-IsBranch _ k (tr.as_hash_tree v) _

  pub data_digest :
      (k : Bytes) (v : V) → IsLawful v → data_hash k v ≡ digest (labeled k (tr.as_hash_tree v))
  unfolding digest data_hash labeled_hash
  data_digest k v w = cc w

  -- The hash of a node from the full trees of its parts.
  node_digest :
      (k : Bytes) (v : V) (l r : NodeRef V)
      → IsLawful v
      → root_hash l ≡ digest (as_hash_tree l)
      → root_hash r ≡ digest (as_hash_tree r)
      → compute_subtree_hash k v l r
        ≡ digest (three_way_fork (as_hash_tree l) (labeled k (tr.as_hash_tree v)) (as_hash_tree r))
  unfolding compute_subtree_hash root_hash
  node_digest k v nil nil w e f = rw (as_hash_tree-nil V, middle) (data_digest k v w)
  node_digest k v (node lk lv ll lr lc lh) nil w e f =
      rw (as_hash_tree-nil V, three_way_fork-left _ k _ (as_hash_tree-IsBranch lk lv ll lr lc lh))
        (hidden_fork lh (data_hash k v) _ _ e (data_digest k v w))
  node_digest k v nil (node rk rv rl rr rc rh) w e f =
      rw (as_hash_tree-nil V, three_way_fork-right k _ _ (as_hash_tree-IsBranch rk rv rl rr rc rh))
        (hidden_fork (data_hash k v) rh _ _ (data_digest k v w) f)
  node_digest k v (node lk lv ll lr lc lh) (node rk rv rl rr rc rh) w e f =
      rw
        (three_way_fork-branches _ k _ _ (as_hash_tree-IsBranch lk lv ll lr lc lh)
          (as_hash_tree-IsBranch rk rv rl rr rc rh))
        (hidden_fork lh _ _ _ e (hidden_fork (data_hash k v) rh _ _ (data_digest k v w) f))

  -- The stored root hash is the digest of the full tree, which the trait's comment asks for.
  pub root_hash-digest : (t : NodeRef V) → IsHashed t → root_hash t ≡ digest (as_hash_tree t)
  unfolding root_hash as_hash_tree full_witness_tree data_tree
  root_hash-digest nil h = refl
  root_hash-digest (node k v l r c s) h =
      h.0 ∙ node_digest k v l r h.1 (root_hash-digest l h.2) (root_hash-digest r h.3)

  pub child-Shows : (t : NodeRef V) → IsHashed t → Shows (child_hash_tree t) (as_hash_tree t)
  unfolding child_hash_tree root_hash
  child-Shows nil h = rw (as_hash_tree-nil V) nothing
  child-Shows (node k v l r c s) h =
      hidden (root_hash-digest (node k v l r c s) h) (as_hash_tree-IsBranch k v l r c s)
