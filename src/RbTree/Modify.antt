-- ===== src/RbTree/Modify.antt =====
-- `modify` keeps the order of the keys and the balance.
use response_verification.Common.{
  ℕ, ◌≡◌, refl, sym, List, [], ◌∷◌, map, inl, inr, Ordering-cases, subst,
}
use mathlib.Core.List.{map-append}
use response_verification.Common.Bytes.{Bytes, ◌≺◌, compare_bytes}
use response_verification.Common.Sha.{Sha256}
use response_verification.RbTree.{Color, AsHashTree, NodeRef, nil, node, modify, with_hash}
use response_verification.RbTree.Entries.{entries, AllKeys, IsSorted}
use response_verification.RbTree.Shape.{
  Shape, leaf_shape, red_shape, two_shape, three_shape, IsBalanced,
}

module _ {ℓ} {V : Type ℓ} where
  abbrev keys_of : List (Bytes × V) → List Bytes
  keys_of = map (λ z. z.0)

  AllKeys-keys :
      (P : Bytes → Type 0) (xs ys : List (Bytes × V))
      → keys_of xs ≡ keys_of ys
      → AllKeys P xs
      → AllKeys P ys
  AllKeys-keys P [] [] e h = tt
  AllKeys-keys P [] ((k, v) ∷ ys) e h = cc
  AllKeys-keys P (x ∷ xs) [] e h = cc
  AllKeys-keys P ((j, u) ∷ xs) ((k, v) ∷ ys) e h =
      (subst P (head_eq e) h.0, AllKeys-keys P xs ys (tail_eq e) h.1)
    where
      head_eq : keys_of ((j, u) ∷ xs) ≡ keys_of ((k, v) ∷ ys) → j ≡ k
      head_eq e = cc

      tail_eq : keys_of ((j, u) ∷ xs) ≡ keys_of ((k, v) ∷ ys) → keys_of xs ≡ keys_of ys
      tail_eq e = cc

  IsSorted-keys : (xs ys : List (Bytes × V)) → keys_of xs ≡ keys_of ys → IsSorted xs → IsSorted ys
  IsSorted-keys [] [] e h = tt
  IsSorted-keys [] ((k, v) ∷ ys) e h = cc
  IsSorted-keys (x ∷ xs) [] e h = cc
  IsSorted-keys ((j, u) ∷ xs) ((k, v) ∷ ys) e h = (
    subst (λ z. AllKeys (λ i. z ≺ i) ys) (head_eq e)
        (AllKeys-keys (λ i. j ≺ i) xs ys (tail_eq e) h.0),
    IsSorted-keys xs ys (tail_eq e) h.1,
  )
    where
      head_eq : keys_of ((j, u) ∷ xs) ≡ keys_of ((k, v) ∷ ys) → j ≡ k
      head_eq e = cc

      tail_eq : keys_of ((j, u) ∷ xs) ≡ keys_of ((k, v) ∷ ys) → keys_of xs ≡ keys_of ys
      tail_eq e = cc

module _ {ℓ} {V : Type ℓ} ⦃sha : Sha256⦄ ⦃tr : AsHashTree V⦄ (k : Bytes) (f : V → V) where
  modify_keys : (t : NodeRef V) → keys_of (entries (modify t k f)) ≡ keys_of (entries t)
  unfolding modify with_hash
  modify_keys nil = refl
  modify_keys (node j v l r c h) = elim (Ordering-cases (compare_bytes k j)) [
    | inl e ↦ rw (e, modify) (simp (map-append, modify_keys l))
    | inr (inl e) ↦ rw (e, modify) (simp map-append)
    | inr (inr e) ↦ rw (e, modify) (simp (map-append, modify_keys r))
  ]

  pub modify-IsSorted : (t : NodeRef V) → IsSorted (entries t) → IsSorted (entries (modify t k f))
  modify-IsSorted t s = IsSorted-keys _ _ (sym (modify_keys t)) s

  modify-Shape : {c : Color} {n : ℕ} {t : NodeRef V} → Shape c n t → Shape c n (modify t k f)
  unfolding modify with_hash
  modify-Shape leaf_shape = leaf_shape
  modify-Shape (red_shape {k = j} a b) = elim (Ordering-cases (compare_bytes k j)) [
    | inl e ↦ rw (e, modify) (red_shape (modify-Shape a) b)
    | inr (inl e) ↦ rw (e, modify) (red_shape a b)
    | inr (inr e) ↦ rw (e, modify) (red_shape a (modify-Shape b))
  ]
  modify-Shape (two_shape {k = j} a b) = elim (Ordering-cases (compare_bytes k j)) [
    | inl e ↦ rw (e, modify) (two_shape (modify-Shape a) b)
    | inr (inl e) ↦ rw (e, modify) (two_shape a b)
    | inr (inr e) ↦ rw (e, modify) (two_shape a (modify-Shape b))
  ]
  modify-Shape (three_shape {k = j} a b) = elim (Ordering-cases (compare_bytes k j)) [
    | inl e ↦ rw (e, modify) (three_shape (modify-Shape a) b)
    | inr (inl e) ↦ rw (e, modify) (three_shape a b)
    | inr (inr e) ↦ rw (e, modify) (three_shape a (modify-Shape b))
  ]

  pub modify-IsBalanced : (t : NodeRef V) → IsBalanced t → IsBalanced (modify t k f)
  modify-IsBalanced t (n, shape) = (n, modify-Shape shape)
