-- ===== src/NestedTree.antt =====
-- packages/ic-certification/src/nested_rb_tree.rs, `NestedTree`: red-black trees whose values are such
-- trees or leaves. The inner trees have a type of their own here, which converts to `NodeRef` and
-- back; the operations are those of RbTree on the converted trees.
pub mod Children
pub mod Valid
pub mod Insert
pub mod Delete
pub mod Certify
pub mod Carried
pub mod Excluded
use response_verification.Common.{Bool, true, false, Option, none, some, List, [], ◌∷◌}
use response_verification.Common.Bytes.{Bytes}
use response_verification.Common.Options.{◌>>=◌}
use response_verification.Common.Sha.{Sha256}
use response_verification.HashTree.{HashTree, empty, labeled, digest}
use response_verification.RbTree
use response_verification.RbTree.{Color, AsHashTree, NodeRef}
use response_verification.RbTree.Delete as RbDelete
use response_verification.RbTree.Witness.{three_way_fork, nested_witness}

mutual
  pub data NestedTree (V : Type 0) : Type 0 where
    leaf : V → NestedTree V
    nested : Nodes V → NestedTree V

  -- `RbTree<K, NestedTree<K, V>>`.
  pub data Nodes (V : Type 0) : Type 0 where
    nil : Nodes V
    node : Bytes → NestedTree V → Nodes V → Nodes V → Color → Bytes → Nodes V

module _ {V : Type 0} where
  abbrev pub to_ref : Nodes V → NodeRef (NestedTree V)
  to_ref Nodes.nil = NodeRef.nil
  to_ref (Nodes.node k t l r c h) = NodeRef.node k t (to_ref l) (to_ref r) c h

  abbrev pub from_ref : NodeRef (NestedTree V) → Nodes V
  from_ref NodeRef.nil = Nodes.nil
  from_ref (NodeRef.node k t l r c h) = Nodes.node k t (from_ref l) (from_ref r) c h

  -- `default()`.
  abbrev pub empty_tree : NestedTree V
  empty_tree = nested Nodes.nil

  -- `&path[1..]` after `path.first()` is the rest of the list.
  unfoldable pub get : NestedTree V → List Bytes → Option V
  get (leaf v) [] = some v
  get (nested ns) [] = none
  get (leaf v) (k ∷ path) = none
  get (nested ns) (k ∷ path) = do child ← RbTree.get (to_ref ns) k; get child path

  unfoldable pub contains_leaf : NestedTree V → List Bytes → Bool
  contains_leaf (leaf v) [] = true
  contains_leaf (nested ns) [] = false
  contains_leaf (leaf v) (k ∷ path) = false
  contains_leaf (nested ns) (k ∷ path) = elim (RbTree.get (to_ref ns) k) [
    | some child ↦ contains_leaf child path
    | none ↦ false
  ]

  unfoldable pub contains_path : NestedTree V → List Bytes → Bool
  contains_path t [] = true
  contains_path (leaf v) (k ∷ path) = false
  contains_path (nested ns) (k ∷ path) = elim (RbTree.get (to_ref ns) k) [
    | some child ↦ contains_path child path
    | none ↦ false
  ]

  unfoldable pub clear : NestedTree V → NestedTree V
  clear t = empty_tree

  -- The tree that the second call of `insert` finds at a leaf, which was cleared.
  abbrev pub children : NestedTree V → NodeRef (NestedTree V)
  children (leaf v) = NodeRef.nil
  children (nested ns) = to_ref ns

module _ {V : Type 0} ⦃sha : Sha256⦄ ⦃tr : AsHashTree V⦄ where
  unfoldable mutual
    pub as_hash_tree : NestedTree V → HashTree
    as_hash_tree (leaf v) = tr.as_hash_tree v
    as_hash_tree (nested ns) = nodes_hash_tree ns

    pub nodes_hash_tree : Nodes V → HashTree
    nodes_hash_tree Nodes.nil = empty
    nodes_hash_tree (Nodes.node k t l r c h) =
        three_way_fork (nodes_hash_tree l) (labeled k (as_hash_tree t)) (nodes_hash_tree r)

  unfoldable pub root_hash : NestedTree V → Bytes
  root_hash (leaf v) = tr.root_hash v
  root_hash (nested Nodes.nil) = digest empty
  root_hash (nested (Nodes.node k t l r c h)) = h

  -- `AsHashTree for NestedTree`.
  instance unfoldable pub nested_as_hash_tree : AsHashTree (NestedTree V)
  nested_as_hash_tree = record { root_hash = root_hash; as_hash_tree = as_hash_tree }

  -- The branch of `insert` that makes the key before it is modified.
  unfoldable pub ensure_key : NodeRef (NestedTree V) → Bytes → Option (NodeRef (NestedTree V))
  ensure_key tree k = elim (RbTree.get tree k) [
    | some child ↦ some tree
    | none ↦ RbTree.insert tree k empty_tree
  ]

  -- The closure of `modify` may panic, so what it makes of the child is computed first.
  unfoldable pub insert : NestedTree V → List Bytes → V → Option (NestedTree V)
  insert t [] v = some (leaf v)
  insert t (k ∷ path) v = do
    tree ← ensure_key (children t) k
    child ← RbTree.get tree k
    child' ← insert child path v
    some (nested (from_ref (RbTree.modify tree k (λ _. child'))))

  -- A child that became empty is removed.
  abbrev pub prune_key :
      NodeRef (NestedTree V) → Bytes → NestedTree V → Option (NodeRef (NestedTree V))
  prune_key tree k (nested Nodes.nil) = RbDelete.delete tree k
  prune_key tree k (nested (Nodes.node j t l r c h)) = some tree
  prune_key tree k (leaf v) = some tree

  unfoldable pub delete : NestedTree V → List Bytes → Option (NestedTree V)
  delete t [] = some empty_tree
  delete (leaf v) (k ∷ path) = some (leaf v)
  delete (nested ns) (k ∷ path) = elim (RbTree.get (to_ref ns) k) [
    | none ↦ some (nested (from_ref (RbTree.modify (to_ref ns) k (λ child. child))))
    | some child ↦ (do
      child' ← delete child path
      tree ← prune_key (RbTree.modify (to_ref ns) k (λ _. child')) k child'
      some (nested (from_ref tree)))
  ]

  unfoldable pub witness : NestedTree V → List Bytes → HashTree
  witness t [] = as_hash_tree t
  witness (leaf v) (k ∷ path) = tr.as_hash_tree v
  witness (nested ns) (k ∷ path) = nested_witness (to_ref ns) k (λ child. witness child path)
