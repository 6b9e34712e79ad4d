-- ===== src/RbTree/Delete/Left.antt =====
-- The branch of `delete` for a key that is smaller than that of the root.
use Prim.Native.Nat.{ℕ, suc, ◌≤◌}
use Prim.Native.Nat.Ordering.{lt}
use mathlib.Core.List.{append_assoc}
use response_verification.Common.{◌∙◌, refl, sym, Option, arith}
use response_verification.Common.Bytes.{Bytes, lt_trans}
use response_verification.Common.Options.{Returns}
use response_verification.Common.Sha.{Sha256}
use response_verification.RbTree.{
  Color, red, black, AsHashTree, NodeRef, is_red, with_hash, flip_colors, rotate_left, rotate_right,
}
use response_verification.RbTree.Delete.{size, move_red_left, delete_left}
use response_verification.RbTree.Shape.{
  leaf_shape, red_shape, two_shape, three_shape, Fits, Shape-is_red, balance-red, balance-left,
  balance-turn,
}
use response_verification.RbTree.Delete.Min.{Slack, loose, lean}
use response_verification.RbTree.Delete.Step.{HasKey, Deletes, step_left}
use response_verification.RbTree.Delete.Ready.{Root, slack, Runs, lt_ne_eq, only_key, next_key}

module _ {ℓ} {V : Type ℓ} ⦃sha : Sha256⦄ ⦃tr : AsHashTree V⦄ (q : Bytes) (w : V) (fuel : ℕ)
    (go : NodeRef V → Option (NodeRef V)) (run : Runs q w fuel go) where
  pub delete_left-Deletes :
      (c : Color) (n : ℕ) (t : NodeRef V)
      → Slack c n t
      → size t ≤ suc fuel
      → Root lt q t
      → HasKey q w t
      → Returns (delete_left go t) (λ u. Fits c n u × Deletes q t u)
  unfolding delete_left is_red move_red_left flip_colors rotate_left rotate_right with_hash
  delete_left-Deletes red n t (loose (red_shape leaf_shape leaf_shape)) f o has =
      absurd (lt_ne_eq (sym o ∙ only_key q w _ _ _ _ has))
  delete_left-Deletes red n t (loose (red_shape (two_shape a b) (two_shape c d))) f o has =
      rw (Shape-is_red a) (
        rw (Shape-is_red c) (
          step_left q w t has _ _ _ _ black refl (λ s. (s.1, s.2, s.3)) go o
            (run red _ _ (slack (loose (red_shape a b))) (omega arith))
            λ u h p. balance-turn _ _ h p (red_shape c d)))
  delete_left-Deletes red n t (loose (red_shape (two_shape a b) (three_shape (red_shape c d) e))) f
        o has =
      rw (Shape-is_red a) (
        step_left q w t has _ _ _ _ red (simp append_assoc)
          (λ s. (s.3.2.1, (refl, s.1, s.2, s.3.2.2), (refl, s.3.1, s.3.2.3, s.3.3))) go
          (lt_trans q _ _ o (next_key q w has))
          (run black _ _ (slack (lean (red_shape a b) c)) (omega arith))
          λ u h p. balance-red _ _ h p (two_shape d e))
  delete_left-Deletes red n t (loose (red_shape (three_shape (red_shape a b) c) d)) f o has =
      step_left q w t has _ _ _ _ red refl (λ s. (s.1, s.2, s.3)) go o
        (run black _ _ (slack (lean (red_shape a b) c)) (omega arith))
        λ u h p. balance-red _ _ h p d
  delete_left-Deletes black n t (lean (red_shape a b) d) f o has =
      step_left q w t has _ _ _ _ black refl (λ s. (s.1, s.2, s.3)) go o
        (run red _ _ (slack (loose (red_shape a b))) (omega arith)) λ u h p. balance-left _ _ h p d
