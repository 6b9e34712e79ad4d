-- ===== src/RbTree/Sides.antt =====
-- rb_tree/mod.rs: a part of a tree against the ends of a range: an end is a key of the part, or all of
-- the part is on one side of it.
use response_verification.Common.{◌≡◌, refl, sym, ◌∷◌, ◌⊎◌, inl, inr, subst}
use response_verification.Common.Bytes.{Bytes, ◌≺◌, lt_trans}
use response_verification.HashTree.Clear.{not_below_self}
use response_verification.RbTree.{Color, NodeRef, node}
use response_verification.RbTree.Entries.{entries, AllKeys, AllKeys-append, AllKeys-imp, IsSplit}
use response_verification.RbTree.Absent.{HasKey, HasKey-left, HasKey-right}

module _ {ℓ} {V : Type ℓ} where
  -- The key is one of the part, or is before, or behind all of it.
  abbrev pub Starts : Bytes → NodeRef V → Type 0
  Starts lo t = HasKey lo t ⊎ AllKeys (λ j. lo ≺ j) (entries t)

  abbrev pub Stops : Bytes → NodeRef V → Type 0
  Stops hi t = HasKey hi t ⊎ AllKeys (λ j. j ≺ hi) (entries t)

  module _ (k : Bytes) (v : V) (l r : NodeRef V) (c : Color) (h : Bytes)
      (s : IsSplit (entries l) k (entries r)) where
    pub Starts-left : (lo : Bytes) → lo ≺ k → Starts lo (node k v l r c h) → Starts lo l
    Starts-left lo less (inl m) = inl (HasKey-left lo k l r s less m)
    Starts-left lo less (inr a) =
        inr ((AllKeys-append (λ j. lo ≺ j) (entries l) ((k, v) ∷ entries r) a).0)

    pub Starts-right : (lo : Bytes) → (lo ≺ k) ⊎ (lo ≡ k) → Starts lo r
    Starts-right lo (inl less) = inr (AllKeys-imp (λ j. lt_trans lo k j less) (entries r) s.high)
    Starts-right lo (inr e) = inr (subst (λ z. AllKeys (λ j. z ≺ j) (entries r)) (sym e) s.high)

    pub Starts-HasKey :
        (lo : Bytes) → k ≺ lo → Starts lo (node k v l r c h) → HasKey lo (node k v l r c h)
    Starts-HasKey lo more (inl m) = m
    Starts-HasKey lo more (inr a) =
        let (low, high) = AllKeys-append (λ j. lo ≺ j) (entries l) ((k, v) ∷ entries r) a in
        absurd (not_below_self k k (lt_trans k lo k more high.0) refl)

    pub Stops-right : (hi : Bytes) → k ≺ hi → Stops hi (node k v l r c h) → Stops hi r
    Stops-right hi more (inl m) = inl (HasKey-right hi k l r s more m)
    Stops-right hi more (inr a) =
        let (low, high) = AllKeys-append (λ j. j ≺ hi) (entries l) ((k, v) ∷ entries r) a in
        inr high.1

    pub Stops-left : (hi : Bytes) → (k ≺ hi) ⊎ (k ≡ hi) → Stops hi l
    Stops-left hi (inl more) = inr (AllKeys-imp (λ j x. lt_trans j k hi x more) (entries l) s.low)
    Stops-left hi (inr e) = inr (subst (λ z. AllKeys (λ j. j ≺ z) (entries l)) e s.low)

    pub Stops-HasKey :
        (hi : Bytes) → hi ≺ k → Stops hi (node k v l r c h) → HasKey hi (node k v l r c h)
    Stops-HasKey hi less (inl m) = m
    Stops-HasKey hi less (inr a) =
        let (low, high) = AllKeys-append (λ j. j ≺ hi) (entries l) ((k, v) ∷ entries r) a in
        absurd (not_below_self k k (lt_trans k hi k high.0 less) refl)
