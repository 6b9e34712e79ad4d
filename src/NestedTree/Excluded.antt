-- ===== src/NestedTree/Excluded.antt =====
-- The witness of a path at which nothing stands shows that nothing does.
use response_verification.Common.{◌≡◌, refl, none, Option-cases, inl, inr, List, [], ◌∷◌}
use response_verification.Common.Bytes.{Bytes}
use response_verification.Common.Options.{◌>>=◌}
use response_verification.Common.Sha.{Sha256}
use response_verification.HashTree.{HashTree}
use response_verification.HashTree.Prunes.{Prunes, leaves, Prunes-refl}
use response_verification.HashTree.Carries.{Carries, carried, Carries-Prunes}
use response_verification.HashTree.Clear.{
  Excludes, IsClear-AllLabels, Carries-AllLabels, Carries-both,
}
use response_verification.RbTree
use response_verification.RbTree.{bytes_as_hash_tree}
use response_verification.RbTree.Carried.{nested_witness-Carries}
use response_verification.RbTree.NoPlace.{nested_witness-IsClear}
use response_verification.NestedTree.{
  NestedTree, leaf, nested, to_ref, witness, nested_as_hash_tree,
}
use response_verification.NestedTree.Carried.{subtree_at}
use response_verification.NestedTree.Valid.{IsValid, valid_nested}

module _ ⦃sha : Sha256⦄ where
  carried_tree : {s t : HashTree} → Carries [] s t → Prunes s t
  carried_tree (carried a) = a

  -- Below a leaf there is nothing.
  not_in_leaf :
      {v k : Bytes} {p : List Bytes} {s t : HashTree}
      → Prunes (HashTree.leaf v) t
      → Carries (k ∷ p) s t
      → ⊥
  not_in_leaf leaves c = elim c [ ]

  -- No well-formed tree that the witness is one of has anything at the path.
  pub witness-Excludes :
      (p : List Bytes) (t : NestedTree Bytes)
      → IsValid t
      → subtree_at t p ≡ none
      → Excludes p (witness t p)
  unfolding subtree_at witness bytes_as_hash_tree
  witness-Excludes [] t valid e h form prunes s c = cc e
  witness-Excludes (k ∷ p) (leaf v) valid e h form prunes s c = not_in_leaf prunes c
  witness-Excludes (k ∷ p) (nested ns) (valid_nested sorted balanced hashed each) e h form prunes s
        c =
      elim (Option-cases (RbTree.get (to_ref ns) k)) [
        | inl absent ↦
            let clear =
              nested_witness-IsClear k (λ child. witness child p) (to_ref ns) sorted absent in
            Carries-AllLabels (λ x. x ≡ k → ⊥) c (IsClear-AllLabels k prunes form clear) refl
        | inr (child, there) ↦
            let shown =
              nested_witness-Carries (λ z. witness z p) (to_ref ns) k child [] (witness child p)
                there (carried (Prunes-refl (witness child p))) in
            let (m, well, below, same) = Carries-both form refl (Carries-Prunes shown prunes) c in
            witness-Excludes p child (each k child there) (rw (there, ◌>>=◌) at e) m well
              (carried_tree below) s same
      ]
