-- ===== src/NestedTree/Carried.antt =====
-- The witness of a path in a nested tree carries what stands at the path.
use response_verification.Common.{
  ◌≡◌, Option, none, some, Option-cases, inl, inr, subst, List, [], ◌∷◌,
}
use response_verification.Common.Bytes.{Bytes}
use response_verification.Common.Options.{◌>>=◌, some_inj}
use response_verification.Common.Sha.{Sha256}
use response_verification.HashTree.Prunes.{Prunes-refl}
use response_verification.HashTree.Carries.{Carries, carried}
use response_verification.RbTree
use response_verification.RbTree.{AsHashTree}
use response_verification.RbTree.Carried.{nested_witness-Carries}
use response_verification.NestedTree.{
  NestedTree, leaf, nested, to_ref, as_hash_tree, witness, nested_as_hash_tree,
}

module _ {V : Type 0} where
  -- The tree or leaf that stands at a path.
  unfoldable pub subtree_at : NestedTree V → List Bytes → Option (NestedTree V)
  subtree_at t [] = some t
  subtree_at (leaf v) (k ∷ path) = none
  subtree_at (nested ns) (k ∷ path) = do child ← RbTree.get (to_ref ns) k; subtree_at child path

module _ {V : Type 0} ⦃sha : Sha256⦄ ⦃tr : AsHashTree V⦄ where
  -- The witness of a path at which something stands has the labels along it, and all of the hash tree
  -- of what stands there.
  pub witness-Carries :
      (p : List Bytes) (t u : NestedTree V)
      → subtree_at t p ≡ some u
      → Carries p (as_hash_tree u) (witness t p)
  unfolding subtree_at witness
  witness-Carries [] t u e =
      subst (λ z. Carries [] (as_hash_tree z) (as_hash_tree t)) (some_inj e)
        (carried (Prunes-refl (as_hash_tree t)))
  witness-Carries (k ∷ p) (leaf v) u e = cc e
  witness-Carries (k ∷ p) (nested ns) u e = elim (Option-cases (RbTree.get (to_ref ns) k)) [
    | inl absent ↦ absurd (cc (rw (absent, ◌>>=◌) at e))
    | inr (child, there) ↦
        nested_witness-Carries (λ c. witness c p) (to_ref ns) k child p (as_hash_tree u) there
          (witness-Carries p child u (rw (there, ◌>>=◌) at e))
  ]
