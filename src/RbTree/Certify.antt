-- ===== src/RbTree/Certify.antt =====
-- Every witness that the code builds is the full hash tree with parts replaced by their digests.
use Prim.Native.Nat.Ordering.{lt, eq, gt}
use response_verification.Common.{
  ◌≡◌, refl, sym, ◌∙◌, Option, none, some, inl, inr, Ordering, Ordering-cases,
}
use response_verification.Common.Bytes.{Bytes, compare_bytes}
use response_verification.Common.Options.{IfSome, IfSome-bind}
use response_verification.Common.Sha.{Sha256}
use response_verification.HashTree.{HashTree, labeled, pruned, digest}
use response_verification.HashTree.Prunes.{Prunes, cut, digest-Prunes, Prunes-refl}
use response_verification.RbTree.{
  Color, AsHashTree, NodeRef, nil, node, child_hash_tree, data_hash, get,
}
use response_verification.RbTree.Bounds.{KeyBound, exact, neighbor, key_of}
use response_verification.RbTree.Fork.{
  Shows, nothing, Shows-Prunes, ShowsBranch, hidden_branch, label_branch, three_way_fork-Shows,
}
use response_verification.RbTree.Full.{as_hash_tree-nil, data_digest, root_hash-digest, child-Shows}
use response_verification.RbTree.Hashes.{IsHashed, IsLawful}
use response_verification.RbTree.Witness.{
  three_way_fork, data_tree, subtree_with, witness_tree, full_witness_tree, root_hash, as_hash_tree,
  at_bound, at_bounds, between_node, witness_range_above, witness_range_below,
  witness_range_between, range_witness, lookup_and_build_witness, nested_witness, witness, keys,
  key_range, value_range, keys_with_prefix,
}

module _ {ℓ} {V : Type ℓ} ⦃sha : Sha256⦄ ⦃tr : AsHashTree V⦄ where
  -- What a node is turned into shows the node's label and something of its value.
  abbrev pub ShowsNode : (Bytes → V → HashTree) → Type ℓ
  ShowsNode f =
      (k : Bytes) (v : V) → IsLawful v → ShowsBranch (f k v) (labeled k (tr.as_hash_tree v))

  pub witness_tree-ShowsNode : ShowsNode witness_tree
  unfolding witness_tree
  witness_tree-ShowsNode k v w = label_branch (cut (sym w))

  pub data_tree-ShowsNode : ShowsNode data_tree
  unfolding data_tree
  data_tree-ShowsNode k v w = label_branch (Prunes-refl _)

  hidden_node :
      (k : Bytes) (v : V)
      → IsLawful v
      → ShowsBranch (pruned (data_hash k v)) (labeled k (tr.as_hash_tree v))
  hidden_node k v w = hidden_branch (data_digest k v w)

  subtree_with-ShowsNode :
      (f : V → HashTree) (k : Bytes) (v : V)
      → Prunes (f v) (tr.as_hash_tree v)
      → ShowsBranch (subtree_with f k v) (labeled k (tr.as_hash_tree v))
  unfolding subtree_with
  subtree_with-ShowsNode f k v p = label_branch p

  -- A fork of three shown parts is the full tree of the node, shown.
  node-Shows :
      (k : Bytes) (v : V) (l r : NodeRef V) (c : Color) (h : Bytes) {a m b : HashTree}
      → Shows a (as_hash_tree l)
      → ShowsBranch m (labeled k (tr.as_hash_tree v))
      → Shows b (as_hash_tree r)
      → Shows (three_way_fork a m b) (as_hash_tree (node k v l r c h))
  unfolding as_hash_tree full_witness_tree data_tree
  node-Shows k v l r c h p q s = three_way_fork-Shows p q s

  module _ (f : Bytes → V → HashTree) (shows : ShowsNode f) where
    at_bound-ShowsNode : (b : KeyBound) → ShowsNode (at_bound b f)
    at_bound-ShowsNode (exact q) = shows
    at_bound-ShowsNode (neighbor q) = witness_tree-ShowsNode

    at_bounds-ShowsNode : (lo hi : KeyBound) → ShowsNode (at_bounds lo hi f)
    at_bounds-ShowsNode (exact q) hi = shows
    at_bounds-ShowsNode (neighbor q) hi = at_bound-ShowsNode hi

    full_witness_tree-Shows :
        (t : NodeRef V) → IsHashed t → Shows (full_witness_tree t f) (as_hash_tree t)
    unfolding full_witness_tree
    full_witness_tree-Shows nil h = rw (as_hash_tree-nil V) nothing
    full_witness_tree-Shows (node k v l r c s) h =
        node-Shows k v l r c s (full_witness_tree-Shows l h.2) (shows k v h.1)
          (full_witness_tree-Shows r h.3)

    above-Shows :
        (lo : KeyBound) (t : NodeRef V)
        → IsHashed t
        → Shows (witness_range_above t lo f) (as_hash_tree t)
    unfolding witness_range_above
    above-Shows lo nil h = rw (as_hash_tree-nil V) nothing
    above-Shows lo (node k v l r c s) h = elim (Ordering-cases (compare_bytes k (key_of lo))) [
      | inl e ↦
          rw (e, witness_range_above)
            (node-Shows k v l r c s (child-Shows l h.2) (hidden_node k v h.1)
              (above-Shows lo r h.3))
      | inr (inl e) ↦
          rw (e, witness_range_above)
            (node-Shows k v l r c s (child-Shows l h.2) (at_bound-ShowsNode lo k v h.1)
              (full_witness_tree-Shows r h.3))
      | inr (inr e) ↦
          rw (e, witness_range_above)
            (node-Shows k v l r c s (above-Shows lo l h.2) (shows k v h.1)
              (full_witness_tree-Shows r h.3))
    ]

    below-Shows :
        (hi : KeyBound) (t : NodeRef V)
        → IsHashed t
        → Shows (witness_range_below t hi f) (as_hash_tree t)
    unfolding witness_range_below
    below-Shows hi nil h = rw (as_hash_tree-nil V) nothing
    below-Shows hi (node k v l r c s) h = elim (Ordering-cases (compare_bytes k (key_of hi))) [
      | inl e ↦
          rw (e, witness_range_below)
            (node-Shows k v l r c s (full_witness_tree-Shows l h.2) (shows k v h.1)
              (below-Shows hi r h.3))
      | inr (inl e) ↦
          rw (e, witness_range_below)
            (node-Shows k v l r c s (full_witness_tree-Shows l h.2) (at_bound-ShowsNode hi k v h.1)
              (child-Shows r h.3))
      | inr (inr e) ↦
          rw (e, witness_range_below)
            (node-Shows k v l r c s (below-Shows hi l h.2) (hidden_node k v h.1)
              (child-Shows r h.3))
    ]

    between_node-Shows :
        (lo hi : KeyBound) (k : Bytes) (v : V) (l r : NodeRef V) (c : Color) (s : Bytes)
        (o p : Ordering) (a b : HashTree)
        → IsHashed (node k v l r c s)
        → Shows a (as_hash_tree l)
        → Shows b (as_hash_tree r)
        → Shows (between_node lo hi f k v l r s o p a b) (as_hash_tree (node k v l r c s))
    unfolding child_hash_tree
    between_node-Shows lo hi k v l r c s lt lt a b h x y =
        node-Shows k v l r c s x (shows k v h.1) y
    between_node-Shows lo hi k v l r c s eq eq a b h x y =
        node-Shows k v l r c s (child-Shows l h.2) (at_bounds-ShowsNode lo hi k v h.1)
          (child-Shows r h.3)
    between_node-Shows lo hi k v l r c s lt eq a b h x y =
        node-Shows k v l r c s x (at_bound-ShowsNode hi k v h.1) (child-Shows r h.3)
    between_node-Shows lo hi k v l r c s gt eq a b h x y =
        node-Shows k v l r c s x (at_bound-ShowsNode hi k v h.1) (child-Shows r h.3)
    between_node-Shows lo hi k v l r c s eq lt a b h x y =
        node-Shows k v l r c s (child-Shows l h.2) (at_bound-ShowsNode lo k v h.1) y
    between_node-Shows lo hi k v l r c s eq gt a b h x y =
        node-Shows k v l r c s (child-Shows l h.2) (at_bound-ShowsNode lo k v h.1) y
    between_node-Shows lo hi k v l r c s lt gt a b h x y =
        node-Shows k v l r c s x (hidden_node k v h.1) (child-Shows r h.3)
    between_node-Shows lo hi k v l r c s gt lt a b h x y =
        node-Shows k v l r c s (child-Shows l h.2) (hidden_node k v h.1) y
    between_node-Shows lo hi k v l r c s gt gt a b h x y = child-Shows (node k v l r c s) h

    between-Shows :
        (lo hi : KeyBound) (t : NodeRef V)
        → IsHashed t
        → Shows (witness_range_between t lo hi f) (as_hash_tree t)
    unfolding witness_range_between
    between-Shows lo hi nil h = rw (as_hash_tree-nil V) nothing
    between-Shows lo hi (node k v l r c s) h =
        between_node-Shows lo hi k v l r c s (compare_bytes (key_of lo) k)
          (compare_bytes k (key_of hi)) _ _ h (between-Shows lo hi l h.2)
          (between-Shows lo hi r h.3)

    -- Every witness of a range shows parts of the full tree.
    pub range_witness-Shows :
        (t : NodeRef V) (lo hi : Option KeyBound)
        → IsHashed t
        → Shows (range_witness t lo hi f) (as_hash_tree t)
    unfolding range_witness
    range_witness-Shows t none none h = full_witness_tree-Shows t h
    range_witness-Shows t (some lo) none h = above-Shows lo t h
    range_witness-Shows t none (some hi) h = below-Shows hi t h
    range_witness-Shows t (some lo) (some hi) h = between-Shows lo hi t h

  module _ (f : V → HashTree) where
    -- What `f` shows of the value of the key.
    abbrev pub Reveals : NodeRef V → Bytes → Type ℓ
    Reveals t q = (v : V) → get t q ≡ some v → Prunes (f v) (tr.as_hash_tree v)

    lookup-Shows :
        (t : NodeRef V) (q : Bytes)
        → IsHashed t
        → Reveals t q
        → IfSome (λ w. Shows w (as_hash_tree t)) (lookup_and_build_witness t q f)
    unfolding lookup_and_build_witness get
    lookup-Shows nil q h reveals = tt
    lookup-Shows (node k v l r c s) q h reveals = elim (Ordering-cases (compare_bytes q k)) [
      | inl e ↦
          rw (e, lookup_and_build_witness)
            (IfSome-bind (λ (w : HashTree). Shows w (as_hash_tree l))
              (λ (w : HashTree). Shows w (as_hash_tree (node k v l r c s)))
              (lookup_and_build_witness l q f)
              (λ w. some (three_way_fork w (pruned (data_hash k v)) (child_hash_tree r)))
              (lookup-Shows l q h.2 (λ u g. reveals u (rw (e, get) g)))
              λ w p. node-Shows k v l r c s p (hidden_node k v h.1) (child-Shows r h.3))
      | inr (inl e) ↦
          rw (e, lookup_and_build_witness)
            (node-Shows k v l r c s (child-Shows l h.2)
              (subtree_with-ShowsNode f k v (reveals v (rw (e, get) refl))) (child-Shows r h.3))
      | inr (inr e) ↦
          rw (e, lookup_and_build_witness)
            (IfSome-bind (λ (w : HashTree). Shows w (as_hash_tree r))
              (λ (w : HashTree). Shows w (as_hash_tree (node k v l r c s)))
              (lookup_and_build_witness r q f)
              (λ w. some (three_way_fork (child_hash_tree l) (pruned (data_hash k v)) w))
              (lookup-Shows r q h.3 (λ u g. reveals u (rw (e, get) g)))
              λ w p. node-Shows k v l r c s (child-Shows l h.2) (hidden_node k v h.1) p)
    ]

    or_range-Shows :
        (o : Option HashTree) (other full : HashTree)
        → IfSome (λ w. Shows w full) o
        → Shows other full
        → Shows (elim o [ some w ↦ w | none ↦ other ]) full
    or_range-Shows none other full h k = k
    or_range-Shows (some w) other full h k = h

    -- The witness of a key, whether the key is there or not, shows parts of the full tree.
    pub nested_witness-Shows :
        (t : NodeRef V) (q : Bytes)
        → IsHashed t
        → Reveals t q
        → Shows (nested_witness t q f) (as_hash_tree t)
    unfolding nested_witness
    nested_witness-Shows t q h reveals =
        or_range-Shows (lookup_and_build_witness t q f) _ _ (lookup-Shows t q h reveals)
          (range_witness-Shows witness_tree witness_tree-ShowsNode t _ _ h)

  -- Of a tree whose hashes are right, the witness of any key, the witness of all keys, and the
  -- witnesses of any range of keys, with values or without, and of any prefix, are the full hash tree
  -- with parts replaced by their digests; so each has the stored root hash for its digest.
  pub witnesses_certify :
      (t : NodeRef V) (a b : Bytes)
      → IsHashed t
      → (Prunes (witness t a) (as_hash_tree t) × (digest (witness t a) ≡ root_hash t))
        × (Prunes (keys t) (as_hash_tree t) × (digest (keys t) ≡ root_hash t))
        × (Prunes (key_range t a b) (as_hash_tree t) × (digest (key_range t a b) ≡ root_hash t))
        × (Prunes (value_range t a b) (as_hash_tree t) × (digest (value_range t a b) ≡ root_hash t))
        × (Prunes (keys_with_prefix t a) (as_hash_tree t)
            × (digest (keys_with_prefix t a) ≡ root_hash t))
  unfolding witness keys key_range value_range keys_with_prefix
  witnesses_certify t a b h = (
    certified (nested_witness-Shows tr.as_hash_tree t a h (λ v w. Prunes-refl _)),
    certified (full_witness_tree-Shows witness_tree witness_tree-ShowsNode t h),
    certified (range_witness-Shows witness_tree witness_tree-ShowsNode t _ _ h),
    certified (range_witness-Shows data_tree data_tree-ShowsNode t _ _ h),
    certified (range_witness-Shows witness_tree witness_tree-ShowsNode t _ _ h),
  )
    where
      certified :
          {w : HashTree}
          → Shows w (as_hash_tree t)
          → Prunes w (as_hash_tree t) × (digest w ≡ root_hash t)
      certified p = (Shows-Prunes p, digest-Prunes (Shows-Prunes p) ∙ sym (root_hash-digest t h))
