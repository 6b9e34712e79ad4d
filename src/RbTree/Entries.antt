-- ===== src/RbTree/Entries.antt =====
-- A tree as the list of its entries from left to right, and maps as sorted lists of entries.
use Prim.Native.Nat.Ordering.{lt, eq, gt}
use response_verification.Common.{
  ◌≡◌, refl, ap, ◌∙◌, Option, none, some, List, [], ◌∷◌, ◌++◌, arith, if◌then◌else◌, Ordering-cases,
  inl, inr, false,
}
use response_verification.Common.Bytes.{
  Bytes, compare_bytes, ◌≺◌, bytes_eq, compare_bytes_refl, eq_of_compare_bytes, lt_of_gt, gt_of_lt,
  lt_trans,
}
use response_verification.RbTree.{NodeRef, nil, node, get}

module _ {ℓ} {V : Type ℓ} where
  abbrev pub entries : NodeRef V → List (Bytes × V)
  entries nil = []
  entries (node k v l r c h) = entries l ++ ((k, v) ∷ entries r)

  abbrev pub AllKeys : (Bytes → Type 0) → List (Bytes × V) → Type 0
  AllKeys P [] = Unit
  AllKeys P ((k, v) ∷ xs) = P k × AllKeys P xs

  -- Keys increase.
  abbrev pub IsSorted : List (Bytes × V) → Type 0
  IsSorted [] = Unit
  IsSorted ((k, v) ∷ xs) = AllKeys (λ j. k ≺ j) xs × IsSorted xs

  -- The map that a list of entries stands for, and an insertion that keeps it sorted.
  unfoldable pub find : List (Bytes × V) → Bytes → Option V
  find [] q = none
  find ((k, v) ∷ xs) q = if bytes_eq q k then some v else find xs q

  unfoldable pub put : Bytes → V → List (Bytes × V) → List (Bytes × V)
  put q w [] = (q, w) ∷ []
  put q w ((k, v) ∷ xs) = elim (compare_bytes q k) [
    | lt ↦ (q, w) ∷ ((k, v) ∷ xs)
    | eq ↦ (k, w) ∷ xs
    | gt ↦ (k, v) ∷ put q w xs
  ]

  pub AllKeys-imp :
      {P Q : Bytes → Type 0}
      → ((k : Bytes) → P k → Q k)
      → (xs : List (Bytes × V)) → AllKeys P xs
      → AllKeys Q xs
  AllKeys-imp f [] h = tt
  AllKeys-imp f ((k, v) ∷ xs) h = (f k h.0, AllKeys-imp f xs h.1)

  pub AllKeys-append :
      (P : Bytes → Type 0) (xs ys : List (Bytes × V))
      → AllKeys P (xs ++ ys)
      → AllKeys P xs × AllKeys P ys
  AllKeys-append P [] ys h = (tt, h)
  AllKeys-append P ((k, v) ∷ xs) ys h = let (hx, hy) = AllKeys-append P xs ys h.1 in ((h.0, hx), hy)

  -- The parts of a sorted list round one entry.
  pub record IsSplit (xs : List (Bytes × V)) (k : Bytes) (ys : List (Bytes × V)) : Type 0 where
    pub low : AllKeys (λ j. j ≺ k) xs
    pub high : AllKeys (λ j. k ≺ j) ys
    pub left : IsSorted xs
    pub right : IsSorted ys

  pub IsSorted-IsSplit :
      (xs : List (Bytes × V)) (k : Bytes) (v : V) (ys : List (Bytes × V))
      → IsSorted (xs ++ ((k, v) ∷ ys))
      → IsSplit xs k ys
  IsSorted-IsSplit [] k v ys h = record { low = tt; high = h.0; left = tt; right = h.1 }
  IsSorted-IsSplit ((j, w) ∷ xs) k v ys h =
      let s = IsSorted-IsSplit xs k v ys h.1 in
      let (hx, hy) = AllKeys-append (λ i. j ≺ i) xs ((k, v) ∷ ys) h.0 in
      record { low = (hy.0, s.low); high = s.high; left = (hx, s.left); right = s.right }

  pub find_beyond :
      (xs ys : List (Bytes × V)) (q : Bytes)
      → AllKeys (λ j. j ≺ q) xs
      → find (xs ++ ys) q ≡ find ys q
  unfolding find
  find_beyond [] ys q h = refl
  find_beyond ((k, v) ∷ xs) ys q h = ground (arith, gt_of_lt k q h.0, find_beyond xs ys q h.1)

  pub find_before : (xs : List (Bytes × V)) (q : Bytes) → AllKeys (λ j. q ≺ j) xs → find xs q ≡ none
  unfolding find
  find_before [] q h = refl
  find_before ((k, v) ∷ xs) q h = ground (arith, h.0, find_before xs q h.1)

  pub find_left :
      (xs ys : List (Bytes × V)) (q : Bytes) → find ys q ≡ none → find (xs ++ ys) q ≡ find xs q
  unfolding find
  find_left [] ys q h = h
  find_left ((k, v) ∷ xs) ys q h = ground (arith, find_left xs ys q h)

  module _ (k : Bytes) (v : V) (xs : List (Bytes × V)) (q : Bytes) where
    find_skip : bytes_eq q k ≡ false → find ((k, v) ∷ xs) q ≡ find xs q
    unfolding find
    find_skip e = rw e

    find_lt : q ≺ k → find ((k, v) ∷ xs) q ≡ find xs q
    find_lt e = find_skip (rw (e, bytes_eq))

    find-gt : compare_bytes q k ≡ gt → find ((k, v) ∷ xs) q ≡ find xs q
    find-gt e = find_skip (rw (e, bytes_eq))

    find-eq : compare_bytes q k ≡ eq → find ((k, v) ∷ xs) q ≡ some v
    unfolding find
    find-eq e = ground (arith, e)

  module _ (k : Bytes) (v : V) (xs : List (Bytes × V)) (q : Bytes) (w : V) where
    put_lt : q ≺ k → put q w ((k, v) ∷ xs) ≡ (q, w) ∷ ((k, v) ∷ xs)
    unfolding put
    put_lt e = ground (arith, e)

    put-eq : compare_bytes q k ≡ eq → put q w ((k, v) ∷ xs) ≡ (k, w) ∷ xs
    unfolding put
    put-eq e = ground (arith, e)

    put-gt : compare_bytes q k ≡ gt → put q w ((k, v) ∷ xs) ≡ (k, v) ∷ put q w xs
    unfolding put
    put-gt e = ground (arith, e)

  -- Reading at one entry of a sorted list goes to its left, to it, or to its right.
  pub find_split :
      (xs : List (Bytes × V)) (k : Bytes) (v : V) (ys : List (Bytes × V)) (q : Bytes)
      → IsSplit xs k ys
      → find (xs ++ ((k, v) ∷ ys)) q
        ≡ (elim (compare_bytes q k) [ lt ↦ find xs q | eq ↦ some v | gt ↦ find ys q ])
  find_split xs k v ys q s = elim (Ordering-cases (compare_bytes q k)) [
    | inl e ↦ rw e (
        find_left xs ((k, v) ∷ ys) q
          (find_lt k v ys q e ∙ find_before ys q (AllKeys-imp (λ j. lt_trans q k j e) ys s.high)))
    | inr (inl e) ↦ rw e (
        find_beyond xs ((k, v) ∷ ys) q
          (AllKeys-imp (λ j h. rw (eq_of_compare_bytes q k e) h) xs s.low)
        ∙ find-eq k v ys q e)
    | inr (inr e) ↦ rw e (
        find_beyond xs ((k, v) ∷ ys) q
          (AllKeys-imp (λ j h. lt_trans j k q h (lt_of_gt q k e)) xs s.low)
        ∙ find-gt k v ys q e)
  ]

  put_beyond :
      (xs ys : List (Bytes × V)) (q : Bytes) (w : V)
      → AllKeys (λ j. j ≺ q) xs
      → put q w (xs ++ ys) ≡ xs ++ put q w ys
  put_beyond [] ys q w h = refl
  put_beyond ((k, v) ∷ xs) ys q w h =
      rw (put-gt k v (xs ++ ys) q w (gt_of_lt k q h.0), put_beyond xs ys q w h.1)

  put_before :
      (xs : List (Bytes × V)) (k : Bytes) (v : V) (ys : List (Bytes × V)) (q : Bytes) (w : V)
      → q ≺ k
      → put q w (xs ++ ((k, v) ∷ ys)) ≡ put q w xs ++ ((k, v) ∷ ys)
  unfolding put
  put_before [] k v ys q w h = ground (arith, h)
  put_before ((j, u) ∷ xs) k v ys q w h = ground (arith, put_before xs k v ys q w h)

  -- Writing at one entry of a sorted list goes to its left, to it, or to its right.
  pub put_split :
      (xs : List (Bytes × V)) (k : Bytes) (v : V) (ys : List (Bytes × V)) (q : Bytes) (w : V)
      → IsSplit xs k ys
      → put q w (xs ++ ((k, v) ∷ ys)) ≡ (elim (compare_bytes q k) [
        | lt ↦ put q w xs ++ ((k, v) ∷ ys)
        | eq ↦ xs ++ ((k, w) ∷ ys)
        | gt ↦ xs ++ ((k, v) ∷ put q w ys)
      ])
  put_split xs k v ys q w s = elim (Ordering-cases (compare_bytes q k)) [
    | inl e ↦ rw e (put_before xs k v ys q w e)
    | inr (inl e) ↦ rw e (
        put_beyond xs ((k, v) ∷ ys) q w
          (AllKeys-imp (λ j h. rw (eq_of_compare_bytes q k e) h) xs s.low)
        ∙ ap (λ z. xs ++ z) (put-eq k v ys q w e))
    | inr (inr e) ↦ rw e (
        put_beyond xs ((k, v) ∷ ys) q w
          (AllKeys-imp (λ j h. lt_trans j k q h (lt_of_gt q k e)) xs s.low)
        ∙ ap (λ z. xs ++ z) (put-gt k v ys q w e))
  ]

  AllKeys-put :
      (P : Bytes → Type 0) (q : Bytes) (w : V) (xs : List (Bytes × V))
      → P q
      → AllKeys P xs
      → AllKeys P (put q w xs)
  unfolding put
  AllKeys-put P q w [] p h = (p, tt)
  AllKeys-put P q w ((k, v) ∷ xs) p h = ground (arith, AllKeys-put P q w xs p)

  -- Insertion keeps a list sorted.
  pub put-IsSorted :
      (q : Bytes) (w : V) (xs : List (Bytes × V)) → IsSorted xs → IsSorted (put q w xs)
  put-IsSorted q w [] s = unfold put in (tt, tt)
  put-IsSorted q w ((k, v) ∷ xs) s = elim (Ordering-cases (compare_bytes q k)) [
    | inl e ↦ rw (put_lt k v xs q w e) ((e, AllKeys-imp (λ j. lt_trans q k j e) xs s.0), s)
    | inr (inl e) ↦ rw (put-eq k v xs q w e) s
    | inr (inr e) ↦
        rw (put-gt k v xs q w e)
          (AllKeys-put (λ j. k ≺ j) q w xs (lt_of_gt q k e) s.0, put-IsSorted q w xs s.1)
  ]

  -- A lookup in an ordered tree reads the list of its entries.
  pub get-eq-find :
      (t : NodeRef V) (q : Bytes) → IsSorted (entries t) → get t q ≡ find (entries t) q
  unfolding get
  get-eq-find nil q s = unfold find in refl
  get-eq-find (node k v l r c h) q s =
      let parts = IsSorted-IsSplit (entries l) k v (entries r) s in
      ground (
        arith,
        find_split (entries l) k v (entries r) q parts,
        get-eq-find l q parts.left,
        get-eq-find r q parts.right,
      )

  pub find-put :
      (xs : List (Bytes × V)) (q j : Bytes) (w : V)
      → IsSorted xs
      → find (put q w xs) j ≡ (if bytes_eq j q then some w else find xs j)
  unfolding find put
  find-put [] q j w s = refl
  find-put ((k, v) ∷ xs) q j w s = ground (
    arith,
    find-put xs q j w s.1,
    eq_of_compare_bytes q k,
    eq_of_compare_bytes j q,
    eq_of_compare_bytes j k,
    compare_bytes_refl q,
  )
