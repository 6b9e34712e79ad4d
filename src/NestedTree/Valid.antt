-- ===== src/NestedTree/Valid.antt =====
-- The invariant of a nested tree: all inner trees are ordered, balanced and rightly hashed.
use response_verification.Common.{
  ◌≡◌, sym, ◌∙◌, ap, Option, none, some, subst, if◌then◌else◌, inl, inr, Bool-cases,
}
use mathlib.Core.Option
use response_verification.Common.Bytes.{Bytes, bytes_eq}
use response_verification.Common.Sha.{Sha256}
use response_verification.HashTree.{digest}
use response_verification.RbTree
use response_verification.RbTree.{AsHashTree, NodeRef}
use response_verification.RbTree.Entries.{entries, IsSorted}
use response_verification.RbTree.Hashes.{IsHashed, IsLawful}
use response_verification.RbTree.Shape.{IsBalanced, leaf_shape}
use response_verification.RbTree.Modify.{modify-IsSorted, modify-IsBalanced}
use response_verification.RbTree.Insert.{modify_lem, modify-IsHashed}
use response_verification.RbTree.Full.{root_hash-digest}
use response_verification.NestedTree.{
  NestedTree, Nodes, leaf, nested, to_ref, from_ref, as_hash_tree, root_hash, nested_as_hash_tree,
  empty_tree,
}
use response_verification.NestedTree.Children.{
  to_ref-from_ref, nodes_hash_tree_lem, nested_root_hash,
}

map_same : {A : Type 0} (o : Option A) (c d : A) → Option.map (λ _. c) o ≡ some d → c ≡ d
map_same none c d e = cc e
map_same (some a) c d e = cc e

module _ {V : Type 0} ⦃sha : Sha256⦄ ⦃tr : AsHashTree V⦄ where
  -- Values keep the law of `AsHashTree`, too.
  pub data IsValid : NestedTree V → Type 0 where
    valid_leaf : {v : V} → IsLawful v → IsValid (leaf v)
    valid_nested :
        {ns : Nodes V}
        → IsSorted (entries (to_ref ns))
        → IsBalanced (to_ref ns)
        → IsHashed (to_ref ns)
        → ((k : Bytes) (child : NestedTree V)
            → RbTree.get (to_ref ns) k ≡ some child
            → IsValid child)
        → IsValid (nested ns)

  -- The same of a tree of nodes.
  pub record AreValid (t : NodeRef (NestedTree V)) : Type 0 where
    pub sorted : IsSorted (entries t)
    pub balanced : IsBalanced t
    pub hashed : IsHashed t
    pub valid : (k : Bytes) (child : NestedTree V) → RbTree.get t k ≡ some child → IsValid child

  -- A change of one child, seen through the lookups and the hashes.
  pub modify-AreValid :
      (t : NodeRef (NestedTree V)) (k : Bytes) (c : NestedTree V)
      → AreValid t
      → IsValid c
      → IsLawful c
      → AreValid (RbTree.modify t k (λ _. c))
  modify-AreValid t k c p valid lawful = record {
    sorted = modify-IsSorted k (λ _. c) t p.sorted;
    balanced = modify-IsBalanced k (λ _. c) t p.balanced;
    hashed = modify-IsHashed t k (λ _. c) (λ _ _. lawful) p.hashed;
    valid = λ j child e. pick j child (sym (modify_lem t k (λ _. c) j) ∙ e);
  }
    where
      pick :
          (j : Bytes) (child : NestedTree V)
          → (if bytes_eq j k then Option.map (λ _. c) (RbTree.get t j) else RbTree.get t j)
            ≡ some child
          → IsValid child
      pick j child e = elim (Bool-cases (bytes_eq j k)) [
        | inl same ↦ subst IsValid (map_same (RbTree.get t j) c child (rw same at e)) valid
        | inr other ↦ p.valid j child (rw other at e)
      ]

  pub AreValid-IsValid : (t : NodeRef (NestedTree V)) → AreValid t → IsValid (nested (from_ref t))
  AreValid-IsValid t p =
      let e = sym (to_ref-from_ref t) in
      valid_nested (subst (λ z. IsSorted (entries z)) e p.sorted) (subst IsBalanced e p.balanced)
        (subst IsHashed e p.hashed)
        (subst
          (λ z. (k : Bytes) (child : NestedTree V) → RbTree.get z k ≡ some child → IsValid child) e
          p.valid)

  pub IsValid-AreValid : {ns : Nodes V} → IsValid (nested ns) → AreValid (to_ref ns)
  IsValid-AreValid (valid_nested s b h f) = record {
    sorted = s;
    balanced = b;
    hashed = h;
    valid = f;
  }

  pub no_nodes-AreValid : AreValid NodeRef.nil
  unfolding RbTree.get
  no_nodes-AreValid = record {
    sorted = tt;
    balanced = (0, leaf_shape);
    hashed = tt;
    valid = λ k c e. cc e;
  }

  pub empty_tree-IsValid : IsValid empty_tree
  empty_tree-IsValid = AreValid-IsValid NodeRef.nil no_nodes-AreValid

  -- A valid tree stores the digest of its hash tree.
  pub IsValid-IsLawful : {t : NestedTree V} → IsValid t → IsLawful t
  unfolding nested_as_hash_tree as_hash_tree root_hash
  IsValid-IsLawful (valid_leaf w) = w
  IsValid-IsLawful (valid_nested {ns} s b h f) =
      ap digest (nodes_hash_tree_lem ns)
      ∙ sym (nested_root_hash ns ∙ root_hash-digest (to_ref ns) h)
