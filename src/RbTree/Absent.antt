-- ===== src/RbTree/Absent.antt =====
-- rb_tree/mod.rs: the keys of a tree, and the bounds around a key that is not there.
use response_verification.Common.{
  ◌≡◌, refl, sym, ◌∙◌, Option, none, some, List, [], ◌∷◌, ◌⊎◌, inl, inr, Ordering-cases, Bool-cases,
  subst,
}
use response_verification.Common.Bytes.{
  Bytes, ◌≺◌, compare_bytes, eq_of_compare_bytes, lt_of_gt, lt_trans, bytes_eq, bytes_eq_refl,
}
use response_verification.Common.Options.{IfSome}
use response_verification.HashTree.Clear.{not_below_self, not_above_self}
use response_verification.RbTree.{NodeRef, nil, node, get}
use response_verification.RbTree.Bounds.{
  KeyBound, neighbor, key_of, or_else, lower_bound, upper_bound,
}
use response_verification.RbTree.Entries.{
  entries, AllKeys, AllKeys-append, IsSorted, IsSplit, find, get-eq-find,
}

or_else-IfSome :
    {P Q : KeyBound → Type 0} (o : Option KeyBound) (b : KeyBound)
    → IfSome P o
    → ((a : KeyBound) → P a → Q a)
    → Q b
    → IfSome Q (or_else o (some b))
or_else-IfSome none b h f g = g
or_else-IfSome (some a) b h f g = f a h

weaken-IfSome :
    {P Q : KeyBound → Type 0} (o : Option KeyBound)
    → IfSome P o
    → ((a : KeyBound) → P a → Q a)
    → IfSome Q o
weaken-IfSome none h f = tt
weaken-IfSome (some a) h f = f a h

module _ {ℓ} {V : Type ℓ} where
  abbrev pub HasKey : Bytes → NodeRef V → Type 0
  HasKey j nil = ⊥
  HasKey j (node k v l r c h) = (j ≡ k) ⊎ HasKey j l ⊎ HasKey j r

  abbrev pub Misses : Bytes → NodeRef V → Type 0
  Misses q t = AllKeys (λ j. j ≡ q → ⊥) (entries t)

  find-Misses : (xs : List (Bytes × V)) (q : Bytes) → find xs q ≡ none → AllKeys (λ j. j ≡ q → ⊥) xs
  unfolding find
  find-Misses [] q e = tt
  find-Misses ((k, v) ∷ xs) q e = elim (Bool-cases (bytes_eq q k)) [
    | inl same ↦ absurd (cc (rw same at e))
    | inr other ↦ ((λ f. cc (f, other, bytes_eq_refl q)), find-Misses xs q (rw other at e))
  ]

  pub get-Misses : (t : NodeRef V) (q : Bytes) → IsSorted (entries t) → get t q ≡ none → Misses q t
  get-Misses t q s e = find-Misses (entries t) q (sym (get-eq-find t q s) ∙ e)

  pub HasKey-AllKeys :
      (P : Bytes → Type 0) (j : Bytes) (t : NodeRef V) → HasKey j t → AllKeys P (entries t) → P j
  HasKey-AllKeys P j nil m a = elim m [ ]
  HasKey-AllKeys P j (node k v l r c h) m a =
      let (low, high) = AllKeys-append P (entries l) ((k, v) ∷ entries r) a in
      elim m [
        | inl e ↦ subst P (sym e) high.0
        | inr (inl x) ↦ HasKey-AllKeys P j l x low
        | inr (inr x) ↦ HasKey-AllKeys P j r x high.1
      ]

  -- A key smaller than the root's stands to its left, a greater one to its right.
  pub HasKey-left :
      (j k : Bytes) (l r : NodeRef V)
      → IsSplit (entries l) k (entries r)
      → j ≺ k
      → (j ≡ k) ⊎ HasKey j l ⊎ HasKey j r
      → HasKey j l
  HasKey-left j k l r s less (inl e) = absurd (not_below_self k j less e)
  HasKey-left j k l r s less (inr (inl x)) = x
  HasKey-left j k l r s less (inr (inr x)) =
      absurd
        (not_below_self j j (lt_trans j k j less (HasKey-AllKeys (λ z. k ≺ z) j r x s.high)) refl)

  pub HasKey-right :
      (j k : Bytes) (l r : NodeRef V)
      → IsSplit (entries l) k (entries r)
      → k ≺ j
      → (j ≡ k) ⊎ HasKey j l ⊎ HasKey j r
      → HasKey j r
  HasKey-right j k l r s more (inl e) = absurd (not_above_self k j more e)
  HasKey-right j k l r s more (inr (inl x)) =
      absurd
        (not_below_self j j (lt_trans j k j (HasKey-AllKeys (λ z. z ≺ k) j l x s.low) more) refl)
  HasKey-right j k l r s more (inr (inr x)) = x

  abbrev pub IsLower : NodeRef V → Bytes → KeyBound → Type 0
  IsLower t q b = HasKey (key_of b) t × (key_of b ≺ q)

  abbrev pub IsUpper : NodeRef V → Bytes → KeyBound → Type 0
  IsUpper t q b = HasKey (key_of b) t × (q ≺ key_of b)

  pub lower_bound-IsLower :
      (t : NodeRef V) (q : Bytes) → Misses q t → IfSome (IsLower t q) (lower_bound t q)
  unfolding lower_bound
  lower_bound-IsLower nil q m = tt
  lower_bound-IsLower (node k v l r c h) q m =
      let (low, high) = AllKeys-append (λ j. j ≡ q → ⊥) (entries l) ((k, v) ∷ entries r) m in
      elim (Ordering-cases (compare_bytes k q)) [
        | inl o ↦
            rw (o, lower_bound)
              (or_else-IfSome (lower_bound r q) (neighbor k) (lower_bound-IsLower r q high.1)
                (λ a x. (inr (inr x.0), x.1)) (inl refl, o))
        | inr (inl o) ↦ absurd (high.0 (eq_of_compare_bytes k q o))
        | inr (inr o) ↦
            rw (o, lower_bound)
              (weaken-IfSome (lower_bound l q) (lower_bound-IsLower l q low)
                (λ a x. (inr (inl x.0), x.1)))
      ]

  pub upper_bound-IsUpper :
      (t : NodeRef V) (q : Bytes) → Misses q t → IfSome (IsUpper t q) (upper_bound t q)
  unfolding upper_bound
  upper_bound-IsUpper nil q m = tt
  upper_bound-IsUpper (node k v l r c h) q m =
      let (low, high) = AllKeys-append (λ j. j ≡ q → ⊥) (entries l) ((k, v) ∷ entries r) m in
      elim (Ordering-cases (compare_bytes k q)) [
        | inl o ↦
            rw (o, upper_bound)
              (weaken-IfSome (upper_bound r q) (upper_bound-IsUpper r q high.1)
                (λ a x. (inr (inr x.0), x.1)))
        | inr (inl o) ↦ absurd (high.0 (eq_of_compare_bytes k q o))
        | inr (inr o) ↦
            rw (o, upper_bound)
              (or_else-IfSome (upper_bound l q) (neighbor k) (upper_bound-IsUpper l q low)
                (λ a x. (inr (inl x.0), x.1)) (inl refl, lt_of_gt k q o))
      ]
