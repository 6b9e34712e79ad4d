-- ===== src/RbTree/NoPlace.antt =====
-- rb_tree/mod.rs: the witness of a key that is not there leaves no place for it.
use response_verification.Common.{
  ◌≡◌, refl, sym, Option, none, some, ◌∷◌, inl, inr, Ordering-cases, subst,
}
use response_verification.Common.Bytes.{Bytes, ◌≺◌, compare_bytes, eq_of_compare_bytes, lt_of_gt}
use response_verification.Common.Options.{IfSome}
use response_verification.Common.Sha.{Sha256}
use response_verification.HashTree.{HashTree, labeled, pruned}
use response_verification.HashTree.Clear.{ShowsBelow, ShowsAbove, IsClear}
use response_verification.RbTree.{AsHashTree, NodeRef, nil, node, get, child_hash_tree, data_hash}
use response_verification.RbTree.Bounds.{KeyBound, key_of, lower_bound, upper_bound}
use response_verification.RbTree.Entries.{entries, AllKeys-append, IsSorted, IsSorted-IsSplit}
use response_verification.RbTree.Witness.{
  witness_tree, full_witness_tree, witness_range_above, witness_range_below, range_witness,
  lookup_and_build_witness, nested_witness,
}
use response_verification.RbTree.Absent.{
  Misses, HasKey-left, HasKey-right, IsLower, IsUpper, get-Misses, lower_bound-IsLower,
  upper_bound-IsUpper,
}
use response_verification.RbTree.Gap.{
  fork-Contains_left, fork-Contains_right, fork-Contains_middle, fork-IsClear,
}
use response_verification.RbTree.Between.{at_bound-witness, between-IsTight}

module _ {ℓ} {V : Type ℓ} ⦃sha : Sha256⦄ ⦃tr : AsHashTree V⦄ (q : Bytes) where
  full-IsClear : (t : NodeRef V) → Misses q t → IsClear q (full_witness_tree t witness_tree)
  unfolding full_witness_tree witness_tree
  full-IsClear nil m = tt
  full-IsClear (node k v l r c h) m =
      let (low, high) = AllKeys-append (λ j. j ≡ q → ⊥) (entries l) ((k, v) ∷ entries r) m in
      fork-IsClear q (full_witness_tree l witness_tree) (witness_tree k v)
        (full_witness_tree r witness_tree) (inl (full-IsClear l low)) (inl high.0)
        (inl (full-IsClear r high.1))

  above-IsClear :
      (lo : KeyBound) (t : NodeRef V)
      → IsSorted (entries t)
      → Misses q t
      → IsLower t q lo
      → IsClear q (witness_range_above t lo witness_tree)
        × ShowsBelow q (witness_range_above t lo witness_tree)
  unfolding witness_range_above witness_tree
  above-IsClear lo nil s m (a, b) = elim a [ ]
  above-IsClear lo (node k v l r c h) s m (has, smaller) =
      let parts = IsSorted-IsSplit (entries l) k v (entries r) s in
      let (low, high) = AllKeys-append (λ j. j ≡ q → ⊥) (entries l) ((k, v) ∷ entries r) m in
      let mid = labeled k (pruned (tr.root_hash v)) in
      let full = full_witness_tree r witness_tree in
      let full_clear = full-IsClear r high.1 in
      elim (Ordering-cases (compare_bytes k (key_of lo))) [
        | inl o ↦
            let (clear, under) =
              above-IsClear lo r parts.right high.1
                (HasKey-right (key_of lo) k l r parts o has, smaller) in
            let w = witness_range_above r lo witness_tree in
            let cut = pruned (data_hash k v) in
            rw (o, witness_range_above)
              (
                fork-IsClear q (child_hash_tree l) cut w (inr (inr under)) (inr (inr under))
                    (inl clear),
                fork-Contains_right (λ j. j ≺ q) (child_hash_tree l) cut w under,
              )
        | inr (inl o) ↦
            let under : k ≺ q =
              subst (λ z. z ≺ q) (sym (eq_of_compare_bytes k (key_of lo) o)) smaller in
            rw (o, witness_range_above, at_bound-witness q lo k v)
              (
                fork-IsClear q (child_hash_tree l) mid full (inr (inl under)) (inl high.0)
                    (inl full_clear),
                fork-Contains_middle (λ j. j ≺ q) (child_hash_tree l) k (pruned (tr.root_hash v))
                    full under,
              )
        | inr (inr o) ↦
            let (clear, under) =
              above-IsClear lo l parts.left low
                (HasKey-left (key_of lo) k l r parts (lt_of_gt k (key_of lo) o) has, smaller) in
            let w = witness_range_above l lo witness_tree in
            rw (o, witness_range_above)
              (
                fork-IsClear q w mid full (inl clear) (inl high.0) (inl full_clear),
                fork-Contains_left (λ j. j ≺ q) w mid full under,
              )
      ]

  below-IsClear :
      (hi : KeyBound) (t : NodeRef V)
      → IsSorted (entries t)
      → Misses q t
      → IsUpper t q hi
      → IsClear q (witness_range_below t hi witness_tree)
        × ShowsAbove q (witness_range_below t hi witness_tree)
  unfolding witness_range_below witness_tree
  below-IsClear hi nil s m (a, b) = elim a [ ]
  below-IsClear hi (node k v l r c h) s m (has, greater) =
      let parts = IsSorted-IsSplit (entries l) k v (entries r) s in
      let (low, high) = AllKeys-append (λ j. j ≡ q → ⊥) (entries l) ((k, v) ∷ entries r) m in
      let mid = labeled k (pruned (tr.root_hash v)) in
      let full = full_witness_tree l witness_tree in
      let full_clear = full-IsClear l low in
      elim (Ordering-cases (compare_bytes k (key_of hi))) [
        | inl o ↦
            let (clear, over) =
              below-IsClear hi r parts.right high.1
                (HasKey-right (key_of hi) k l r parts o has, greater) in
            let w = witness_range_below r hi witness_tree in
            rw (o, witness_range_below)
              (
                fork-IsClear q full mid w (inl full_clear) (inl high.0) (inl clear),
                fork-Contains_right (λ j. q ≺ j) full mid w over,
              )
        | inr (inl o) ↦
            let over : q ≺ k =
              subst (λ z. q ≺ z) (sym (eq_of_compare_bytes k (key_of hi) o)) greater in
            rw (o, witness_range_below, at_bound-witness q hi k v)
              (
                fork-IsClear q full mid (child_hash_tree r) (inl full_clear) (inl high.0)
                    (inr (inr over)),
                fork-Contains_middle (λ j. q ≺ j) full k (pruned (tr.root_hash v))
                    (child_hash_tree r) over,
              )
        | inr (inr o) ↦
            let (clear, over) =
              below-IsClear hi l parts.left low
                (HasKey-left (key_of hi) k l r parts (lt_of_gt k (key_of hi) o) has, greater) in
            let w = witness_range_below l hi witness_tree in
            let cut = pruned (data_hash k v) in
            rw (o, witness_range_below)
              (
                fork-IsClear q w cut (child_hash_tree r) (inl clear) (inr (inl over))
                    (inr (inl over)),
                fork-Contains_left (λ j. q ≺ j) w cut (child_hash_tree r) over,
              )
      ]

  range-IsClear :
      (t : NodeRef V) (lo hi : Option KeyBound)
      → IsSorted (entries t)
      → Misses q t
      → IfSome (IsLower t q) lo
      → IfSome (IsUpper t q) hi
      → IsClear q (range_witness t lo hi witness_tree)
  unfolding range_witness
  range-IsClear t none none s m a b = full-IsClear t m
  range-IsClear t (some lo) none s m a b = (above-IsClear lo t s m a).0
  range-IsClear t none (some hi) s m a b = (below-IsClear hi t s m b).0
  range-IsClear t (some lo) (some hi) s m (a, x) (b, y) =
      (between-IsTight q lo hi x y t s m (inl a) (inl b)).clear

  lookup-none :
      (f : V → HashTree) (t : NodeRef V) → get t q ≡ none → lookup_and_build_witness t q f ≡ none
  unfolding get lookup_and_build_witness
  lookup-none f nil e = refl
  lookup-none f (node k v l r c h) e = elim (Ordering-cases (compare_bytes q k)) [
    | inl o ↦
        rw (o, lookup_and_build_witness)
          (rw (lookup-none f l (rw (o, get) at e), lookup_and_build_witness) refl)
    | inr (inl o) ↦ absurd (cc (rw (o, get) at e))
    | inr (inr o) ↦
        rw (o, lookup_and_build_witness)
          (rw (lookup-none f r (rw (o, get) at e), lookup_and_build_witness) refl)
  ]

  pub nested_witness-IsClear :
      (f : V → HashTree) (t : NodeRef V)
      → IsSorted (entries t)
      → get t q ≡ none
      → IsClear q (nested_witness t q f)
  unfolding nested_witness
  nested_witness-IsClear f t s e =
      let m = get-Misses t q s e in
      rw (lookup-none f t e, nested_witness)
        (range-IsClear t (lower_bound t q) (upper_bound t q) s m (lower_bound-IsLower t q m)
          (upper_bound-IsUpper t q m))
