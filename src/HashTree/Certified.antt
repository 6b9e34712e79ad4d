-- ===== src/HashTree/Certified.antt =====
-- Lookups in a tree whose digest is that of a well-formed full tree.
use response_verification.Common.{◌≡◌, refl, ◌⊎◌, inl, inr, List}
use response_verification.Common.Bytes.{Bytes}
use response_verification.Common.Sha.{Sha256, Collision}
use response_verification.HashTree.{HashTree, digest, LookupResult, lookup_path, lookup_subtree}
use response_verification.HashTree.Order.{IsWellFormed}
use response_verification.HashTree.Lookup.{
  AgreesPath, silent_path, same_path, lookup_path-Agrees, AgreesSubtree, lookup_subtree-Agrees,
}
use response_verification.HashTree.Binding.{IsSized, IsWellFormed-IsFull, digest_binding}

module _ ⦃sha : Sha256⦄ where
  AgreesPath-cases : {r s : LookupResult} → AgreesPath r s → (r ≡ LookupResult.unknown) ⊎ (r ≡ s)
  AgreesPath-cases silent_path = inl refl
  AgreesPath-cases same_path = inr refl

  -- If a tree, its pruned nodes 32 bytes long, has the digest of a well-formed full tree, then each
  -- lookup of a path in it answers `Unknown` or exactly as in the full tree, `Absent` and the found
  -- value included, or the two trees give away a collision of the hash.
  pub lookup_path_certified :
      (s t : HashTree) (path : List Bytes)
      → IsSized s
      → IsWellFormed t
      → digest s ≡ digest t
      → (lookup_path s path ≡ LookupResult.unknown)
        ⊎ (lookup_path s path ≡ lookup_path t path)
        ⊎ Collision sha
  lookup_path_certified s t path ss w e = elim (digest_binding s t ss (IsWellFormed-IsFull t w) e) [
    | inl p ↦ elim (AgreesPath-cases (lookup_path-Agrees path s t p w)) [
      | inl u ↦ inl u
      | inr r ↦ inr (inl r)
    ]
    | inr c ↦ inr (inr c)
  ]

  -- The same for subtrees: under the same conditions a lookup of a subtree answers `Unknown`, or
  -- `Absent` as the full tree does, or finds a witness of what the full tree has there; or else the
  -- two trees give away a collision.
  pub lookup_subtree_certified :
      (s t : HashTree) (path : List Bytes)
      → IsSized s
      → IsWellFormed t
      → digest s ≡ digest t
      → AgreesSubtree (lookup_subtree s path) (lookup_subtree t path) ⊎ Collision sha
  lookup_subtree_certified s t path ss w e =
      elim (digest_binding s t ss (IsWellFormed-IsFull t w) e) [
        | inl p ↦ inl (lookup_subtree-Agrees path s t p w)
        | inr c ↦ inr c
      ]
