-- ===== src/RbTree/Delete/Right.antt =====
-- The branch of `delete` for a key that is not smaller than that of the root.
use Prim.Native.Nat.{ℕ, suc, ◌≤◌}
use Prim.Native.Nat.Ordering.{eq, gt}
use mathlib.Core.List.{append_assoc}
use response_verification.Common.{
  ◌≡◌, refl, sym, Option, arith, ◌⊎◌, inl, inr, ◌++◌, ◌∷◌, false, Bool, true, ◌&&◌,
}
use response_verification.Common.Bytes.{Bytes, compare_bytes, bytes_eq}
use response_verification.Common.Options.{Returns, Returns-some}
use response_verification.Common.Sha.{Sha256}
use response_verification.RbTree.{
  Color, red, black, AsHashTree, NodeRef, nil, node, is_red, is_empty, balance, with_hash,
  flip_colors, rotate_right,
}
use response_verification.RbTree.Entries.{entries}
use response_verification.RbTree.Hashes.{IsHashed, IsLawful}
use response_verification.RbTree.Delete.{size, move_red_right, delete_right, delete_below}
use response_verification.RbTree.Delete.Remove.{remove-eq}
use response_verification.RbTree.Shape.{
  leaf_shape, red_shape, two_shape, three_shape, Fits, Shape-is_red, balance-red, balance-right,
  balance-both,
}
use response_verification.RbTree.Delete.Min.{Slack, loose, lean}
use response_verification.RbTree.Delete.Swap.{Slack-Swaps}
use response_verification.RbTree.Delete.Step.{HasKey, Deletes, below-gt, below-eq}
use response_verification.RbTree.Delete.Ready.{Root, Ready, slack, turned, Runs, only_key, last_key}

and_false : (b : Bool) → (b && false) ≡ false
and_false true = refl
and_false false = refl

module _ {ℓ} {V : Type ℓ} ⦃sha : Sha256⦄ ⦃tr : AsHashTree V⦄ (q : Bytes) (w : V) (fuel : ℕ)
    (go : NodeRef V → Option (NodeRef V)) (run : Runs q w fuel go) where
  below :
      {Fit : NodeRef V → Type ℓ} (d : Color) (n : ℕ) (t : NodeRef V) (has : HasKey q w t)
      (k : Bytes) (v : V) (l r : NodeRef V) (c : Color) (h : Bytes)
      → entries l ++ ((k, v) ∷ entries r) ≡ entries t
      → (IsHashed t → IsLawful v × IsHashed l × IsHashed r)
      → (compare_bytes q k ≡ gt) ⊎ (compare_bytes q k ≡ eq)
      → Slack d n r
      → size r ≤ fuel
      → ((k : Bytes) (v : V) (u : NodeRef V) (h : Bytes)
          → Fits d n u
          → Returns (balance (node k v l u c h)) Fit)
      → Returns (delete_below fuel go q (node k v l r c h)) (λ z. Fit z × Deletes q t z)
  below d n t has k v l r c h e parts o s f fits = elim o [
    | inl g ↦ below-gt q w t has k v l r c e parts fuel go d n h fits g (run d n r (slack s) f)
    | inr g ↦ below-eq q w t has k v l r c e parts fuel go d n h fits g f s (Slack-Swaps k v s)
  ]

  pub delete_right-Deletes :
      (c : Color) (n : ℕ) (t : NodeRef V)
      → Ready q c n t
      → size t ≤ suc fuel
      → Root gt q t ⊎ Root eq q t
      → HasKey q w t
      → Returns (delete_right fuel go q t) (λ u. Fits c n u × Deletes q t u)
  unfolding delete_right is_red is_empty move_red_right flip_colors rotate_right with_hash
  delete_right-Deletes red n t (slack (loose (red_shape leaf_shape leaf_shape))) f o has =
      rw (only_key q w _ _ _ _ has, bytes_eq)
        (Returns-some _ nil (
          inr leaf_shape,
          record {
            entries_remove = sym (remove-eq _ _ _ q (only_key q w _ _ _ _ has));
            hashed = λ s. tt;
          },
        ))
  delete_right-Deletes red n t (slack (loose (red_shape (two_shape a b) (two_shape c d)))) f o has =
      rw (and_false _) (
        rw (Shape-is_red c) (
          rw (Shape-is_red a) (
            below red _ t has _ _ _ _ black _ refl (λ s. (s.1, s.2, s.3)) o (loose (red_shape c d))
              (omega arith) λ k v u h p. balance-both k v h (red_shape a b) p)))
  delete_right-Deletes red n t
        (slack (loose (red_shape (two_shape a b) (three_shape (red_shape c d) e)))) f o has =
      rw (and_false _) (
        below black _ t has _ _ _ _ red _ refl (λ s. (s.1, s.2, s.3)) o (lean (red_shape c d) e)
          (omega arith) λ k v u h p. balance-red k v h (two_shape a b) p)
  delete_right-Deletes red n t
        (slack (loose (red_shape (three_shape (red_shape a b) c) (two_shape d e)))) f o has =
      rw (and_false _) (
        rw (Shape-is_red d) (
          below-gt q w t has _ _ _ _ red (simp append_assoc)
            (λ s. (s.2.1, s.2.2, (refl, s.1, s.2.3, s.3))) fuel go black _ _
            (λ k v u h p. balance-red k v h (two_shape a b) p) (last_key q w has o)
            (run black _ _ (turned o c (red_shape d e)) (omega arith))))
  delete_right-Deletes red n t
        (slack (loose (red_shape (three_shape (red_shape a b) c) (three_shape (red_shape d e) g))))
        f o has =
      rw (and_false _) (
        below black _ t has _ _ _ _ red _ refl (λ s. (s.1, s.2, s.3)) o (lean (red_shape d e) g)
          (omega arith) λ k v u h p. balance-red k v h (three_shape (red_shape a b) c) p)
  delete_right-Deletes black n t (slack (lean (red_shape a b) c)) f o has = rw (and_false _) (
      below-gt q w t has _ _ _ _ black (simp append_assoc)
        (λ s. (s.2.1, s.2.2, (refl, s.1, s.2.3, s.3))) fuel go red _ _
        (λ k v u h p. balance-right k v h a p) (last_key q w has o)
        (run red _ _ (slack (loose (red_shape b c))) (omega arith)))
  delete_right-Deletes black n t (turned p a (red_shape b c)) f o has = rw (Shape-is_red a) (
      rw (and_false _) (
        below red _ t has _ _ _ _ black _ refl (λ s. (s.1, s.2, s.3)) o (loose (red_shape b c))
          (omega arith) λ k v u h p. balance-right k v h a p))
