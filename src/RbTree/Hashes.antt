-- ===== src/RbTree/Hashes.antt =====
-- The hash invariant: every node stores the hash computed from its key, its value and its children,
-- and the hash of every value is the digest of its hash tree.
use response_verification.Common.{◌≡◌, refl}
use response_verification.Common.Bytes.{Bytes}
use response_verification.Common.Sha.{Sha256}
use response_verification.HashTree.{digest}
use response_verification.RbTree.{
  Color, AsHashTree, NodeRef, nil, node, with_hash, compute_subtree_hash, with_color,
}

module _ {ℓ} {V : Type ℓ} ⦃sha : Sha256⦄ ⦃tr : AsHashTree V⦄ where
  -- `AsHashTree`'s law at one value.
  abbrev pub IsLawful : V → Type 0
  IsLawful v = digest (tr.as_hash_tree v) ≡ tr.root_hash v

  abbrev pub IsHashed : NodeRef V → Type 0
  IsHashed nil = Unit
  IsHashed (node k v l r c h) =
      (h ≡ compute_subtree_hash k v l r) × IsLawful v × IsHashed l × IsHashed r

  pub with_hash-IsHashed :
      (k : Bytes) (v : V) (l r : NodeRef V) (c : Color)
      → IsLawful v
      → IsHashed l
      → IsHashed r
      → IsHashed (with_hash k v l r c)
  unfolding with_hash
  with_hash-IsHashed k v l r c w hl hr = (refl, w, hl, hr)

  pub with_color-IsHashed : (c : Color) (t : NodeRef V) → IsHashed t → IsHashed (with_color c t)
  unfolding with_color
  with_color-IsHashed c nil h = h
  with_color-IsHashed c (node k v l r d s) h = h
