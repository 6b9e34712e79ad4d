-- ===== src/RbTree/Witness.antt =====
-- rb_tree/mod.rs: the hash trees built from a tree, full and pruned to a key or a range of keys. The
-- functions `f: fn(&Node) -> HashTree` that the code passes read a node's key and value alone, which
-- is what `f` takes here.
use Prim.Native.Nat.{Ordering}
use Prim.Native.Nat.Ordering.{lt, eq, gt}
use response_verification.Common.{Option, none, some}
use response_verification.Common.Bytes.{Bytes, compare_bytes}
use response_verification.Common.Options.{◌>>=◌}
use response_verification.Common.Sha.{Sha256}
use response_verification.HashTree.{HashTree, empty, fork, labeled, pruned, fork_hash, digest}
use response_verification.RbTree.{AsHashTree, NodeRef, nil, node, child_hash_tree, data_hash}
use response_verification.RbTree.Bounds.{
  KeyBound, exact, neighbor, key_of, lower_bound, upper_bound, right_prefix_neighbor,
}

module _ ⦃sha : Sha256⦄ where
  unfoldable pub three_way_fork : HashTree → HashTree → HashTree → HashTree
  three_way_fork empty m empty = m
  three_way_fork l m empty = fork l m
  three_way_fork empty m r = fork m r
  three_way_fork (pruned lh) (pruned mh) (pruned rh) = pruned (fork_hash lh (fork_hash mh rh))
  three_way_fork l (pruned mh) (pruned rh) = fork l (pruned (fork_hash mh rh))
  three_way_fork l m r = fork l (fork m r)

module _ {ℓ} {V : Type ℓ} ⦃sha : Sha256⦄ ⦃tr : AsHashTree V⦄ where
  unfoldable pub data_tree : Bytes → V → HashTree
  data_tree k v = labeled k (tr.as_hash_tree v)

  unfoldable pub subtree_with : (V → HashTree) → Bytes → V → HashTree
  subtree_with f k v = labeled k (f v)

  unfoldable pub witness_tree : Bytes → V → HashTree
  witness_tree k v = labeled k (pruned (tr.root_hash v))

  unfoldable pub full_witness_tree : NodeRef V → (Bytes → V → HashTree) → HashTree
  full_witness_tree nil f = empty
  full_witness_tree (node k v l r c h) f =
      three_way_fork (full_witness_tree l f) (f k v) (full_witness_tree r f)

  -- `AsHashTree for RbTree`.
  unfoldable pub root_hash : NodeRef V → Bytes
  root_hash nil = digest empty
  root_hash (node k v l r c h) = h

  unfoldable pub as_hash_tree : NodeRef V → HashTree
  as_hash_tree t = full_witness_tree t data_tree

  -- A node at the end of a range: shown if the end belongs to it, else its label alone.
  abbrev pub at_bound : KeyBound → (Bytes → V → HashTree) → Bytes → V → HashTree
  at_bound (exact _) f k v = f k v
  at_bound (neighbor _) f k v = witness_tree k v

  unfoldable pub witness_range_above : NodeRef V → KeyBound → (Bytes → V → HashTree) → HashTree
  witness_range_above nil lo f = empty
  witness_range_above (node k v l r c h) lo f = elim (compare_bytes k (key_of lo)) [
    | eq ↦ three_way_fork (child_hash_tree l) (at_bound lo f k v) (full_witness_tree r f)
    | lt ↦ three_way_fork (child_hash_tree l) (pruned (data_hash k v)) (witness_range_above r lo f)
    | gt ↦ three_way_fork (witness_range_above l lo f) (f k v) (full_witness_tree r f)
  ]

  unfoldable pub witness_range_below : NodeRef V → KeyBound → (Bytes → V → HashTree) → HashTree
  witness_range_below nil hi f = empty
  witness_range_below (node k v l r c h) hi f = elim (compare_bytes k (key_of hi)) [
    | eq ↦ three_way_fork (full_witness_tree l f) (at_bound hi f k v) (child_hash_tree r)
    | gt ↦ three_way_fork (witness_range_below l hi f) (pruned (data_hash k v)) (child_hash_tree r)
    | lt ↦ three_way_fork (full_witness_tree l f) (f k v) (witness_range_below r hi f)
  ]

  -- A node at both ends of a range.
  abbrev pub at_bounds : KeyBound → KeyBound → (Bytes → V → HashTree) → Bytes → V → HashTree
  at_bounds (exact _) hi f k v = f k v
  at_bounds (neighbor _) hi f k v = at_bound hi f k v

  -- The `match` of `witness_range_between` on the comparisons of a node's key `k` with the two
  -- bounds, in the order of its arms: `left` and `right` are the results for the node's children.
  abbrev pub between_node :
      KeyBound
      → KeyBound
      → (Bytes → V → HashTree)
      → Bytes
      → V
      → NodeRef V
      → NodeRef V
      → Bytes
      → Ordering
      → Ordering
      → HashTree
      → HashTree
      → HashTree
  between_node lo hi f k v l r h lt lt left right = three_way_fork left (f k v) right
  between_node lo hi f k v l r h eq eq left right =
      three_way_fork (child_hash_tree l) (at_bounds lo hi f k v) (child_hash_tree r)
  between_node lo hi f k v l r h _ eq left right =
      three_way_fork left (at_bound hi f k v) (child_hash_tree r)
  between_node lo hi f k v l r h eq _ left right =
      three_way_fork (child_hash_tree l) (at_bound lo f k v) right
  between_node lo hi f k v l r h lt gt left right =
      three_way_fork left (pruned (data_hash k v)) (child_hash_tree r)
  between_node lo hi f k v l r h gt lt left right =
      three_way_fork (child_hash_tree l) (pruned (data_hash k v)) right
  between_node lo hi f k v l r h gt gt left right = pruned h

  -- The order check of the bounds is a `debug_assert!`.
  unfoldable pub witness_range_between :
      NodeRef V → KeyBound → KeyBound → (Bytes → V → HashTree) → HashTree
  witness_range_between nil lo hi f = empty
  witness_range_between (node k v l r c h) lo hi f =
      between_node lo hi f k v l r h (compare_bytes (key_of lo) k) (compare_bytes k (key_of hi))
        (witness_range_between l lo hi f) (witness_range_between r lo hi f)

  unfoldable pub range_witness :
      NodeRef V → Option KeyBound → Option KeyBound → (Bytes → V → HashTree) → HashTree
  range_witness t none none f = full_witness_tree t f
  range_witness t (some lo) none f = witness_range_above t lo f
  range_witness t none (some hi) f = witness_range_below t hi f
  range_witness t (some lo) (some hi) f = witness_range_between t lo hi f

  unfoldable pub lookup_and_build_witness : NodeRef V → Bytes → (V → HashTree) → Option HashTree
  lookup_and_build_witness nil q f = none
  lookup_and_build_witness (node k v l r c h) q f = elim (compare_bytes q k) [
    | eq ↦ some (three_way_fork (child_hash_tree l) (subtree_with f k v) (child_hash_tree r))
    | lt ↦ (do
      subtree ← lookup_and_build_witness l q f
      some (three_way_fork subtree (pruned (data_hash k v)) (child_hash_tree r)))
    | gt ↦ (do
      subtree ← lookup_and_build_witness r q f
      some (three_way_fork (child_hash_tree l) (pruned (data_hash k v)) subtree))
  ]

  -- `if let Some(t) = … { return t; }`, and a proof of absence otherwise.
  unfoldable pub nested_witness : NodeRef V → Bytes → (V → HashTree) → HashTree
  nested_witness t q f = elim (lookup_and_build_witness t q f) [
    | some w ↦ w
    | none ↦ range_witness t (lower_bound t q) (upper_bound t q) witness_tree
  ]

  unfoldable pub witness : NodeRef V → Bytes → HashTree
  witness t q = nested_witness t q tr.as_hash_tree

  unfoldable pub keys : NodeRef V → HashTree
  keys t = full_witness_tree t witness_tree

  unfoldable pub key_range : NodeRef V → Bytes → Bytes → HashTree
  key_range t first last = range_witness t (lower_bound t first) (upper_bound t last) witness_tree

  unfoldable pub value_range : NodeRef V → Bytes → Bytes → HashTree
  value_range t first last = range_witness t (lower_bound t first) (upper_bound t last) data_tree

  unfoldable pub keys_with_prefix : NodeRef V → Bytes → HashTree
  keys_with_prefix t prefix =
      range_witness t (lower_bound t prefix) (right_prefix_neighbor t prefix) witness_tree
