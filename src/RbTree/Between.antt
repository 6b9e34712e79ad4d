-- ===== src/RbTree/Between.antt =====
-- rb_tree/mod.rs: the witness of the range round a key that is not there leaves no place for it.
use response_verification.Common.{◌≡◌, refl, sym, ◌∷◌, ◌⊎◌, inl, inr, Ordering-cases, subst, ◌∙◌}
use response_verification.Common.Bytes.{
  Bytes, ◌≺◌, compare_bytes, eq_of_compare_bytes, lt_of_gt, lt_trans,
}
use response_verification.Common.Sha.{Sha256}
use response_verification.HashTree.{HashTree, labeled, pruned}
use response_verification.HashTree.Clear.{ShowsBelow, ShowsAbove, IsClear, not_below_self}
use response_verification.RbTree.{Color, AsHashTree, NodeRef, nil, node, child_hash_tree, data_hash}
use response_verification.RbTree.Bounds.{KeyBound, exact, neighbor, key_of}
use response_verification.RbTree.Entries.{
  entries, AllKeys-append, IsSorted, IsSplit, IsSorted-IsSplit,
}
use response_verification.RbTree.Witness.{
  three_way_fork, witness_tree, at_bound, witness_range_between,
}
use response_verification.RbTree.Absent.{HasKey, Misses, HasKey-left, HasKey-right}
use response_verification.RbTree.Sides.{
  Starts, Stops, Starts-left, Starts-right, Starts-HasKey, Stops-left, Stops-right, Stops-HasKey,
}
use response_verification.RbTree.Gap.{
  fork-Contains_left, fork-Contains_right, fork-Contains_middle, fork-IsClear,
}

-- A key between two bounds is not behind the upper and before the lower.
not_reversed : (lo q hi j : Bytes) → lo ≺ q → q ≺ hi → (j ≺ lo) ⊎ (j ≡ lo) → (hi ≺ j) ⊎ (hi ≡ j) → ⊥
not_reversed lo q hi j smaller greater x y = not_below_self lo lo (before x y) refl
  where
    apart : lo ≺ hi
    apart = lt_trans lo q hi smaller greater

    before : (j ≺ lo) ⊎ (j ≡ lo) → (hi ≺ j) ⊎ (hi ≡ j) → lo ≺ lo
    before (inl x) (inl y) = lt_trans lo hi lo apart (lt_trans hi j lo y x)
    before (inl x) (inr y) = lt_trans lo j lo (subst (λ z. lo ≺ z) y apart) x
    before (inr x) (inl y) = lt_trans lo hi lo apart (subst (λ z. hi ≺ z) x y)
    before (inr x) (inr y) = subst (λ z. lo ≺ z) (y ∙ x) apart

module _ {ℓ} {V : Type ℓ} ⦃sha : Sha256⦄ ⦃tr : AsHashTree V⦄ (q : Bytes) where
  pub at_bound-witness :
      (b : KeyBound) (k : Bytes) (v : V) → at_bound b witness_tree k v ≡ witness_tree k v
  at_bound-witness (exact j) k v = refl
  at_bound-witness (neighbor j) k v = refl

  -- The witness of a part of the tree leaves no place for the key, and shows the bounds it has.
  pub record IsTight (lo hi : Bytes) (t : NodeRef V) (w : HashTree) : Type 0 where
    pub clear : IsClear q w
    pub below : HasKey lo t → ShowsBelow q w
    pub above : HasKey hi t → ShowsAbove q w

  module _ (lo hi : Bytes) (smaller : lo ≺ q) (greater : q ≺ hi) (k : Bytes) (v : V)
      (l r : NodeRef V) (c : Color) (h : Bytes) (s : IsSplit (entries l) k (entries r))
      (other : k ≡ q → ⊥) (a : Starts lo (node k v l r c h)) (b : Stops hi (node k v l r c h)) where
    IsTight-inside :
        {x y : HashTree}
        → lo ≺ k
        → k ≺ hi
        → (Starts lo l → Stops hi l → IsTight lo hi l x)
        → (Starts lo r → Stops hi r → IsTight lo hi r y)
        → IsTight lo hi (node k v l r c h) (three_way_fork x (witness_tree k v) y)
    unfolding witness_tree
    IsTight-inside {x} {y} less more left right =
        let m = labeled k (pruned (tr.root_hash v)) in
        let tl =
          left (Starts-left k v l r c h s lo less a) (Stops-left k v l r c h s hi (inl more)) in
        let tr =
          right (Starts-right k v l r c h s lo (inl less)) (Stops-right k v l r c h s hi more b) in
        record {
          clear = fork-IsClear q x m y (inl tl.clear) (inl other) (inl tr.clear);
          below =
              λ z. fork-Contains_left (λ j. j ≺ q) x m y (tl.below (HasKey-left lo k l r s less z));
          above = λ z.
              fork-Contains_right (λ j. q ≺ j) x m y (tr.above (HasKey-right hi k l r s more z));
        }

    IsTight-at_hi :
        {x : HashTree}
        → lo ≺ k
        → k ≡ hi
        → (Starts lo l → Stops hi l → IsTight lo hi l x)
        → (y : HashTree) → IsTight lo hi (node k v l r c h) (three_way_fork x (witness_tree k v) y)
    unfolding witness_tree
    IsTight-at_hi {x} less e left y =
        let m = labeled k (pruned (tr.root_hash v)) in
        let over : q ≺ k = subst (λ z. q ≺ z) (sym e) greater in
        let tl = left (Starts-left k v l r c h s lo less a) (Stops-left k v l r c h s hi (inr e)) in
        record {
          clear = fork-IsClear q x m y (inl tl.clear) (inl other) (inr (inr over));
          below =
              λ z. fork-Contains_left (λ j. j ≺ q) x m y (tl.below (HasKey-left lo k l r s less z));
          above = λ z. fork-Contains_middle (λ j. q ≺ j) x k _ y over;
        }

    IsTight-at_lo :
        {y : HashTree}
        → lo ≡ k
        → k ≺ hi
        → (x : HashTree) → (Starts lo r → Stops hi r → IsTight lo hi r y)
        → IsTight lo hi (node k v l r c h) (three_way_fork x (witness_tree k v) y)
    unfolding witness_tree
    IsTight-at_lo {y} e more x right =
        let m = labeled k (pruned (tr.root_hash v)) in
        let under : k ≺ q = subst (λ z. z ≺ q) e smaller in
        let tr =
          right (Starts-right k v l r c h s lo (inr e)) (Stops-right k v l r c h s hi more b) in
        record {
          clear = fork-IsClear q x m y (inr (inl under)) (inl other) (inl tr.clear);
          below = λ z. fork-Contains_middle (λ j. j ≺ q) x k _ y under;
          above = λ z.
              fork-Contains_right (λ j. q ≺ j) x m y (tr.above (HasKey-right hi k l r s more z));
        }

    IsTight-left :
        {x : HashTree} (g : Bytes)
        → lo ≺ k
        → hi ≺ k
        → (Starts lo l → Stops hi l → IsTight lo hi l x)
        → (y : HashTree) → IsTight lo hi (node k v l r c h) (three_way_fork x (pruned g) y)
    IsTight-left {x} g less more left y =
        let inside = HasKey-left hi k l r s more (Stops-HasKey k v l r c h s hi more b) in
        let tl = left (Starts-left k v l r c h s lo less a) (inl inside) in
        let over = tl.above inside in
        record {
          clear = fork-IsClear q x (pruned g) y (inl tl.clear) (inr (inl over)) (inr (inl over));
          below = λ z.
              fork-Contains_left (λ j. j ≺ q) x (pruned g) y
                (tl.below (HasKey-left lo k l r s less z));
          above = λ z. fork-Contains_left (λ j. q ≺ j) x (pruned g) y over;
        }

    IsTight-right :
        {y : HashTree} (g : Bytes)
        → k ≺ lo
        → k ≺ hi
        → (x : HashTree) → (Starts lo r → Stops hi r → IsTight lo hi r y)
        → IsTight lo hi (node k v l r c h) (three_way_fork x (pruned g) y)
    IsTight-right {y} g less more x right =
        let inside = HasKey-right lo k l r s less (Starts-HasKey k v l r c h s lo less a) in
        let tr = right (inl inside) (Stops-right k v l r c h s hi more b) in
        let under = tr.below inside in
        record {
          clear = fork-IsClear q x (pruned g) y (inr (inr under)) (inr (inr under)) (inl tr.clear);
          below = λ z. fork-Contains_right (λ j. j ≺ q) x (pruned g) y under;
          above = λ z.
              fork-Contains_right (λ j. q ≺ j) x (pruned g) y
                (tr.above (HasKey-right hi k l r s more z));
        }

  module _ (lo hi : KeyBound) (smaller : key_of lo ≺ q) (greater : q ≺ key_of hi) where
    pub between-IsTight :
        (t : NodeRef V)
        → IsSorted (entries t)
        → Misses q t
        → Starts (key_of lo) t
        → Stops (key_of hi) t
        → IsTight (key_of lo) (key_of hi) t (witness_range_between t lo hi witness_tree)
    unfolding witness_range_between
    between-IsTight nil s m a b = record {
      clear = tt;
      below = λ x. absurd x;
      above = λ x. absurd x;
    }
    between-IsTight (node k v l r c h) s m a b =
        let parts = IsSorted-IsSplit (entries l) k v (entries r) s in
        let (low, high) = AllKeys-append (λ j. j ≡ q → ⊥) (entries l) ((k, v) ∷ entries r) m in
        let left = λ (x : Starts (key_of lo) l) (y : Stops (key_of hi) l).
          between-IsTight l parts.left low x y in
        let right = λ (x : Starts (key_of lo) r) (y : Stops (key_of hi) r).
          between-IsTight r parts.right high.1 x y in
        elim (Ordering-cases (compare_bytes (key_of lo) k)) [
          | inl o ↦ elim (Ordering-cases (compare_bytes k (key_of hi))) [
            | inl u ↦
                rw (o, u)
                  (IsTight-inside (key_of lo) (key_of hi) smaller greater k v l r c h parts high.0 a
                    b o u left right)
            | inr (inl u) ↦
                rw (o, u, at_bound-witness hi k v)
                  (IsTight-at_hi (key_of lo) (key_of hi) smaller greater k v l r c h parts high.0 a
                    b o (eq_of_compare_bytes k (key_of hi) u) left (child_hash_tree r))
            | inr (inr u) ↦
                rw (o, u)
                  (IsTight-left (key_of lo) (key_of hi) smaller greater k v l r c h parts high.0 a b
                    (data_hash k v) o (lt_of_gt k (key_of hi) u) left (child_hash_tree r))
          ]
          | inr (inl o) ↦
              let e = eq_of_compare_bytes (key_of lo) k o in
              elim (Ordering-cases (compare_bytes k (key_of hi))) [
                | inl u ↦
                    rw (o, u, at_bound-witness lo k v)
                      (IsTight-at_lo (key_of lo) (key_of hi) smaller greater k v l r c h parts
                        high.0 a b e u (child_hash_tree l) right)
                | inr (inl u) ↦ absurd (
                    not_reversed (key_of lo) q (key_of hi) k smaller greater (inr (sym e))
                      (inr (sym (eq_of_compare_bytes k (key_of hi) u))))
                | inr (inr u) ↦ absurd (
                    not_reversed (key_of lo) q (key_of hi) k smaller greater (inr (sym e))
                      (inl (lt_of_gt k (key_of hi) u)))
              ]
          | inr (inr o) ↦
              let less = lt_of_gt (key_of lo) k o in
              elim (Ordering-cases (compare_bytes k (key_of hi))) [
                | inl u ↦
                    rw (o, u)
                      (IsTight-right (key_of lo) (key_of hi) smaller greater k v l r c h parts
                        high.0 a b (data_hash k v) less u (child_hash_tree l) right)
                | inr (inl u) ↦ absurd (
                    not_reversed (key_of lo) q (key_of hi) k smaller greater (inl less)
                      (inr (sym (eq_of_compare_bytes k (key_of hi) u))))
                | inr (inr u) ↦ absurd (
                    not_reversed (key_of lo) q (key_of hi) k smaller greater (inl less)
                      (inl (lt_of_gt k (key_of hi) u)))
              ]
        ]
