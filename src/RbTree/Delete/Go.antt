-- ===== src/RbTree/Delete/Go.antt =====
-- `delete` of an ordered and balanced tree whose hashes are right.
use Prim.Native.Nat.{ℕ, zero, suc, ◌≤◌}
use response_verification.Common.{
  ◌≡◌, sym, ap, ◌∙◌, none, arith, inl, inr, Ordering-cases, Option-cases, if◌then◌else◌,
}
use response_verification.Common.Bytes.{Bytes, compare_bytes, bytes_eq, eq_of_bytes_eq}
use response_verification.Common.Options.{Returns, Returns-bind, Returns-imp, Returns-some}
use response_verification.Common.Sha.{Sha256}
use response_verification.RbTree.{
  Color, red, black, AsHashTree, NodeRef, nil, node, is_red, with_color, get,
}
use response_verification.RbTree.Entries.{entries, IsSorted, find, get-eq-find}
use response_verification.RbTree.Hashes.{IsHashed, with_color-IsHashed}
use response_verification.RbTree.Insert.{entries-with_color}
use response_verification.RbTree.Delete.{size, delete_go, delete, redden}
use response_verification.RbTree.Delete.Remove.{remove-IsSorted, find-remove}
use response_verification.RbTree.Shape.{
  Shape, leaf_shape, red_shape, two_shape, three_shape, Fits, Shape-is_red, IsBalanced, paint_black,
}
use response_verification.RbTree.Delete.Min.{loose, lean}
use response_verification.RbTree.Delete.Step.{HasKey, Deletes}
use response_verification.RbTree.Delete.Ready.{Ready, slack, Ready-Slack, Runs}
use response_verification.RbTree.Delete.Left.{delete_left-Deletes}
use response_verification.RbTree.Delete.Right.{delete_right-Deletes}

module _ {ℓ} {V : Type ℓ} ⦃sha : Sha256⦄ ⦃tr : AsHashTree V⦄ (q : Bytes) (w : V) where
  delete_go-Deletes :
      (fuel : ℕ) (c : Color) (n : ℕ) (t : NodeRef V)
      → Ready q c n t
      → size t ≤ fuel
      → HasKey q w t
      → Returns (delete_go fuel t q) (λ u. Fits c n u × Deletes q t u)
  unfolding delete_go find
  delete_go-Deletes zero c n nil p f has = cc has.found
  delete_go-Deletes zero c n (node k v l r d h) p f has = absurd (omega arith)
  delete_go-Deletes (suc fuel) c n nil p f has = cc has.found
  delete_go-Deletes (suc fuel) c n (node k v l r d h) p f has =
      let go = λ (t : NodeRef V). delete_go fuel t q in
      let run : Runs q w fuel go = λ c n t. delete_go-Deletes fuel c n t in
      elim (Ordering-cases (compare_bytes q k)) [
        | inl e ↦
            rw (e, delete_go) (delete_left-Deletes q w fuel go run c n _ (Ready-Slack p e) f e has)
        | inr (inl e) ↦
            rw (e, delete_go) (delete_right-Deletes q w fuel go run c n _ p f (inr e) has)
        | inr (inr e) ↦
            rw (e, delete_go) (delete_right-Deletes q w fuel go run c n _ p f (inl e) has)
      ]

module _ {ℓ} {V : Type ℓ} ⦃sha : Sha256⦄ ⦃tr : AsHashTree V⦄ (q : Bytes) where
  -- `u` is `t` without the key, and is balanced.
  record Removed (t u : NodeRef V) : Type ℓ where
    pub removed : Deletes q t u
    pub balanced : IsBalanced (with_color black u)

  redden-Removed :
      (w : V) (n : ℕ) (t : NodeRef V)
      → Shape black n t
      → HasKey q w t
      → Returns (delete_go (size t) (redden t) q) (Removed t)
  unfolding is_red with_color find
  redden-Removed w n t leaf_shape has = cc has.found
  redden-Removed w n t (two_shape {n = m} a b) has = rw (Shape-is_red a) (
      rw (Shape-is_red b) (
        Returns-imp
          (λ u p. record {
            removed = record { entries_remove = p.1.entries_remove; hashed = p.1.hashed };
            balanced = paint_black red m u p.0;
          })
          (delete_go-Deletes q w _ red m _ (slack (loose (red_shape a b))) (omega arith)
            (record { sorted = has.sorted; found = has.found }))))
  redden-Removed w n t (three_shape (red_shape a b) c) has =
      (Returns-imp (λ u p. record { removed = p.1; balanced = paint_black black n u p.0 })
        (delete_go-Deletes q w _ black n t (slack (lean (red_shape a b) c)) (omega arith) has))

  -- From an ordered and balanced tree `delete` never panics, neither by an `unwrap` nor by a
  -- `debug_assert!` of its own; the new tree is ordered and balanced, reads as the old one but for the
  -- key, which is absent, and its hashes are right if those of the old one are.
  pub delete_lem :
      (t : NodeRef V)
      → IsSorted (entries t)
      → IsBalanced t
      → Returns (delete t q) (λ u.
        IsSorted (entries u)
        × IsBalanced u
        × ((j : Bytes) → get u j ≡ (if bytes_eq j q then none else get t j))
        × (IsHashed t → IsHashed u))
  unfolding delete
  delete_lem t s (n, shape) = elim (Option-cases (get t q)) [
    | inl absent ↦
        rw (absent, delete)
          (Returns-some _ t
            (s, (n, shape), λ j. ground (arith, absent, eq_of_bytes_eq j q), λ h. h))
    | inr (w, present) ↦
        rw (present, delete)
          (Returns-bind _ (delete_go (size t) (redden t) q) _
            (redden-Removed w n t shape
              (record { sorted = s; found = sym (get-eq-find t q s) ∙ present }))
            λ u p.
              let e = entries-with_color black u ∙ p.removed.entries_remove in
              let sorted : IsSorted (entries (with_color black u)) =
                rw e (remove-IsSorted q (entries t) s) in
              Returns-some _ (with_color black u) (
                sorted,
                p.balanced,
                λ j.
                    get-eq-find _ j sorted
                    ∙ ap (λ z. find z j) e
                    ∙ find-remove (entries t) q j s
                    ∙ rw (get-eq-find t j s),
                λ h. with_color-IsHashed black u (p.removed.hashed h),
              ))
  ]
