-- ===== src/RbTree/Delete/Remove.antt =====
-- Removal from a sorted list of entries: the specification of `delete`.
use Prim.Native.Nat.Ordering.{lt, eq, gt}
use response_verification.Common.{
  ◌≡◌, refl, ap, ◌∙◌, none, some, List, [], ◌∷◌, ◌++◌, arith, if◌then◌else◌, Ordering-cases, inl,
  inr, sym,
}
use response_verification.Common.Bytes.{
  Bytes, compare_bytes, ◌≺◌, bytes_eq, compare_bytes_refl, eq_of_compare_bytes, lt_of_gt, gt_of_lt,
  lt_trans,
}
use response_verification.RbTree.Entries.{
  AllKeys, IsSorted, IsSplit, AllKeys-imp, find, find_before, find_split,
}

module _ {ℓ} {V : Type ℓ} where
  unfoldable pub remove : Bytes → List (Bytes × V) → List (Bytes × V)
  remove q [] = []
  remove q ((k, v) ∷ xs) = elim (compare_bytes q k) [
    | lt ↦ (k, v) ∷ xs
    | eq ↦ xs
    | gt ↦ (k, v) ∷ remove q xs
  ]

  module _ (k : Bytes) (v : V) (xs : List (Bytes × V)) (q : Bytes) where
    remove_lt : q ≺ k → remove q ((k, v) ∷ xs) ≡ (k, v) ∷ xs
    unfolding remove
    remove_lt e = ground (arith, e)

    pub remove-eq : compare_bytes q k ≡ eq → remove q ((k, v) ∷ xs) ≡ xs
    unfolding remove
    remove-eq e = ground (arith, e)

    remove-gt : compare_bytes q k ≡ gt → remove q ((k, v) ∷ xs) ≡ (k, v) ∷ remove q xs
    unfolding remove
    remove-gt e = ground (arith, e)

  remove_beyond :
      (xs ys : List (Bytes × V)) (q : Bytes)
      → AllKeys (λ j. j ≺ q) xs
      → remove q (xs ++ ys) ≡ xs ++ remove q ys
  remove_beyond [] ys q h = refl
  remove_beyond ((k, v) ∷ xs) ys q h =
      rw (remove-gt k v (xs ++ ys) q (gt_of_lt k q h.0), remove_beyond xs ys q h.1)

  remove_before :
      (xs : List (Bytes × V)) (k : Bytes) (v : V) (ys : List (Bytes × V)) (q : Bytes)
      → q ≺ k
      → remove q (xs ++ ((k, v) ∷ ys)) ≡ remove q xs ++ ((k, v) ∷ ys)
  unfolding remove
  remove_before [] k v ys q h = ground (arith, h)
  remove_before ((j, u) ∷ xs) k v ys q h = ground (arith, remove_before xs k v ys q h)

  -- Removal at one entry of a sorted list goes to its left, to it, or to its right.
  module _ (xs : List (Bytes × V)) (k : Bytes) (v : V) (ys : List (Bytes × V)) (q : Bytes)
      (s : IsSplit xs k ys) where
    pub remove-left : q ≺ k → remove q (xs ++ ((k, v) ∷ ys)) ≡ remove q xs ++ ((k, v) ∷ ys)
    remove-left e = remove_before xs k v ys q e

    pub remove-here : compare_bytes q k ≡ eq → remove q (xs ++ ((k, v) ∷ ys)) ≡ xs ++ ys
    remove-here e =
        remove_beyond xs ((k, v) ∷ ys) q
          (AllKeys-imp (λ j h. rw (eq_of_compare_bytes q k e) h) xs s.low)
        ∙ ap (λ z. xs ++ z) (remove-eq k v ys q e)

    pub remove-right :
        compare_bytes q k ≡ gt → remove q (xs ++ ((k, v) ∷ ys)) ≡ xs ++ ((k, v) ∷ remove q ys)
    remove-right e =
        remove_beyond xs ((k, v) ∷ ys) q
          (AllKeys-imp (λ j h. lt_trans j k q h (lt_of_gt q k e)) xs s.low)
        ∙ ap (λ z. xs ++ z) (remove-gt k v ys q e)

    -- An entry on one side of another is found there.
    pub find-left : {w : V} → q ≺ k → find (xs ++ ((k, v) ∷ ys)) q ≡ some w → find xs q ≡ some w
    find-left e f = sym (rw e at (find_split xs k v ys q s)) ∙ f

    pub find-right :
        {w : V}
        → compare_bytes q k ≡ gt
        → find (xs ++ ((k, v) ∷ ys)) q ≡ some w
        → find ys q ≡ some w
    find-right e f = sym (rw e at (find_split xs k v ys q s)) ∙ f

  AllKeys-remove :
      (P : Bytes → Type 0) (q : Bytes) (xs : List (Bytes × V))
      → AllKeys P xs
      → AllKeys P (remove q xs)
  unfolding remove
  AllKeys-remove P q [] p = tt
  AllKeys-remove P q ((k, v) ∷ xs) p = ground (arith, AllKeys-remove P q xs)

  -- Removal keeps a list sorted.
  pub remove-IsSorted : (q : Bytes) (xs : List (Bytes × V)) → IsSorted xs → IsSorted (remove q xs)
  remove-IsSorted q [] s = unfold remove in tt
  remove-IsSorted q ((k, v) ∷ xs) s = elim (Ordering-cases (compare_bytes q k)) [
    | inl e ↦ rw (remove_lt k v xs q e) s
    | inr (inl e) ↦ rw (remove-eq k v xs q e) s.1
    | inr (inr e) ↦
        rw (remove-gt k v xs q e) (AllKeys-remove (λ j. k ≺ j) q xs s.0, remove-IsSorted q xs s.1)
  ]

  find_below :
      (k : Bytes) (xs : List (Bytes × V)) (q : Bytes)
      → AllKeys (λ j. k ≺ j) xs
      → q ≺ k
      → find xs q ≡ none
  find_below k xs q h e = find_before xs q (AllKeys-imp (λ j. lt_trans q k j e) xs h)

  pub find-remove :
      (xs : List (Bytes × V)) (q j : Bytes)
      → IsSorted xs
      → find (remove q xs) j ≡ (if bytes_eq j q then none else find xs j)
  unfolding find remove
  find-remove [] q j s = ground arith
  find-remove ((k, v) ∷ xs) q j s = ground (
    arith,
    find-remove xs q j s.1,
    eq_of_compare_bytes q k,
    eq_of_compare_bytes j q,
    eq_of_compare_bytes j k,
    compare_bytes_refl q,
    find_below k xs q s.0,
    find_before xs k s.0,
  )
