-- ===== src/RbTree/Carried.antt =====
-- rb_tree/mod.rs: the witness of a key that is there carries its label.
use response_verification.Common.{◌≡◌, refl, some, List, ◌∷◌, inl, inr, Ordering-cases, subst, sym}
use response_verification.Common.Bytes.{Bytes, compare_bytes, eq_of_compare_bytes}
use response_verification.Common.Options.{some_inj}
use response_verification.Common.Sha.{Sha256}
use response_verification.HashTree.{HashTree, empty, fork, labeled, leaf, pruned}
use response_verification.HashTree.Carries.{Carries, below_label, in_left, in_right}
use response_verification.RbTree.{AsHashTree, NodeRef, nil, node, get, child_hash_tree, data_hash}
use response_verification.RbTree.Witness.{
  three_way_fork, subtree_with, lookup_and_build_witness, nested_witness,
}

module _ ⦃sha : Sha256⦄ {k : Bytes} {p : List Bytes} {s : HashTree} where
  fork-left : (a m b : HashTree) → Carries (k ∷ p) s a → Carries (k ∷ p) s (three_way_fork a m b)
  unfolding three_way_fork
  fork-left (labeled l t) m empty c = in_left c
  fork-left (fork x y) m empty c = in_left c
  fork-left (labeled l t) (pruned h) (pruned g) c = in_left c
  fork-left (fork x y) (pruned h) (pruned g) c = in_left c
  fork-left (labeled l t) m b c = in_left c
  fork-left (fork x y) m b c = in_left c
  fork-left empty m b c = elim c [ ]
  fork-left (leaf v) m b c = elim c [ ]
  fork-left (pruned h) m b c = elim c [ ]

  fork-right : (a m b : HashTree) → Carries (k ∷ p) s b → Carries (k ∷ p) s (three_way_fork a m b)
  unfolding three_way_fork
  fork-right empty m (labeled l t) c = in_right c
  fork-right empty m (fork x y) c = in_right c
  fork-right a m (labeled l t) c = in_right (in_right c)
  fork-right a m (fork x y) c = in_right (in_right c)
  fork-right a m empty c = elim c [ ]
  fork-right a m (leaf v) c = elim c [ ]
  fork-right a m (pruned h) c = elim c [ ]

  fork-middle :
      (a n b : HashTree) → Carries p s n → Carries (k ∷ p) s (three_way_fork a (labeled k n) b)
  unfolding three_way_fork
  fork-middle empty n empty c = below_label c
  fork-middle a n empty c = in_right (below_label c)
  fork-middle empty n b c = in_left (below_label c)
  fork-middle a n b c = in_right (in_left (below_label c))

module _ {ℓ} {V : Type ℓ} ⦃sha : Sha256⦄ ⦃tr : AsHashTree V⦄ (f : V → HashTree) where
  built :
      (t : NodeRef V) (q : Bytes) (v : V) (p : List Bytes) (s : HashTree)
      → get t q ≡ some v
      → Carries p s (f v)
      → (w : HashTree) × (lookup_and_build_witness t q f ≡ some w) × Carries (q ∷ p) s w
  unfolding get lookup_and_build_witness subtree_with
  built nil q v p s e c = cc e
  built (node k u l r col h) q v p s e c = elim (Ordering-cases (compare_bytes q k)) [
    | inl o ↦
        let (w, made, carries) = built l q v p s (rw (o, get) at e) c in
        (
          three_way_fork w (pruned (data_hash k u)) (child_hash_tree r),
          rw (o, lookup_and_build_witness) (rw (made, lookup_and_build_witness) refl),
          fork-left w _ _ carries,
        )
    | inr (inl o) ↦ (
      three_way_fork (child_hash_tree l) (labeled k (f u)) (child_hash_tree r),
      rw (o, lookup_and_build_witness) refl,
      subst
          (λ z.
            Carries (z ∷ p) s
              (three_way_fork (child_hash_tree l) (labeled k (f u)) (child_hash_tree r)))
          (sym (eq_of_compare_bytes q k o))
          (fork-middle (child_hash_tree l) (f u) (child_hash_tree r)
            (subst (λ z. Carries p s (f z)) (sym (some_inj (rw (o, get) at e))) c)),
    )
    | inr (inr o) ↦
        let (w, made, carries) = built r q v p s (rw (o, get) at e) c in
        (
          three_way_fork (child_hash_tree l) (pruned (data_hash k u)) w,
          rw (o, lookup_and_build_witness) (rw (made, lookup_and_build_witness) refl),
          fork-right _ _ w carries,
        )
  ]

  -- The witness of a key that is there carries the key and what is made of its value.
  pub nested_witness-Carries :
      (t : NodeRef V) (q : Bytes) (v : V) (p : List Bytes) (s : HashTree)
      → get t q ≡ some v
      → Carries p s (f v)
      → Carries (q ∷ p) s (nested_witness t q f)
  unfolding nested_witness
  nested_witness-Carries t q v p s e c =
      let (w, made, carries) = built t q v p s e c in rw (made, nested_witness) carries
