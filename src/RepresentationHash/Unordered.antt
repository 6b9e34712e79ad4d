-- ===== src/RepresentationHash/Unordered.antt =====
-- The hash does not depend on the order of the entries.
use mathlib.Core.List.Permᴰ
use mathlib.Core.List.{Permᴰ}
use response_verification.Common.{
  ◌≡◌, ◌∙◌, refl, ap, List, [], ◌∷◌, map, inl, inr, Ordering-cases, In, here, there,
}
use response_verification.Common.Bytes.{Bytes}
use response_verification.Common.Sha.{Sha256}
use response_verification.RepresentationHash.{
  Leb128, Value, compare_pair, insert_pair, sort_unstable, concat_pairs, hash_entry,
  representation_independent_hash,
}
use response_verification.RepresentationHash.Order.{sort_unstable-Perm}

insert_pair-Perm :
    (x : Bytes × Bytes) (ys : List (Bytes × Bytes)) → Permᴰ (insert_pair x ys) (x ∷ ys)
unfolding insert_pair
insert_pair-Perm x [] = Permᴰ.refl _
insert_pair-Perm x (y ∷ ys) = elim (Ordering-cases (compare_pair x y)) [
  | inl e ↦ rw (e, insert_pair) (Permᴰ.refl _)
  | inr (inl e) ↦ rw (e, insert_pair) (Permᴰ.refl _)
  | inr (inr e) ↦
      rw (e, insert_pair)
        (Permᴰ.trans (Permᴰ.cons refl (insert_pair-Perm x ys)) (Permᴰ.swap refl refl))
]

pub sort_unstable-Perm_self : (xs : List (Bytes × Bytes)) → Permᴰ (sort_unstable xs) xs
unfolding sort_unstable
sort_unstable-Perm_self [] = Permᴰ.nil
sort_unstable-Perm_self (x ∷ xs) =
    Permᴰ.trans (insert_pair-Perm x (sort_unstable xs))
      (Permᴰ.cons refl (sort_unstable-Perm_self xs))

module _ {ℓ κ} {A : Type ℓ} {B : Type κ} where
  map-Perm : (f : A → B) {xs ys : List A} → Permᴰ xs ys → Permᴰ (map f xs) (map f ys)
  map-Perm f Permᴰ.nil = Permᴰ.nil
  map-Perm f (Permᴰ.cons e p) = Permᴰ.cons (ap f e) (map-Perm f p)
  map-Perm f (Permᴰ.swap d e) = Permᴰ.swap (ap f d) (ap f e)
  map-Perm f (Permᴰ.trans p q) = Permᴰ.trans (map-Perm f p) (map-Perm f q)

-- Two lists with the same entries in another order have the same hash.
pub representation_independent_hash-Perm :
    ⦃sha : Sha256⦄ (leb : Leb128) (m n : List (Bytes × Value))
    → Permᴰ m n
    → representation_independent_hash leb m ≡ representation_independent_hash leb n
unfolding representation_independent_hash
representation_independent_hash-Perm ⦃sha⦄ leb m n p =
    ap (λ z. sha.hash (concat_pairs z)) (sort_unstable-Perm (map-Perm (hash_entry leb) p))

-- Membership in a list and its image.
module _ {ℓ} {A : Type ℓ} where
  pub In-Perm : (a : A) {xs ys : List A} → Permᴰ xs ys → In a xs → In a ys
  In-Perm a Permᴰ.nil h = h
  In-Perm a (Permᴰ.cons e p) (here d) = here (d ∙ e)
  In-Perm a (Permᴰ.cons e p) (there h) = there (In-Perm a p h)
  In-Perm a (Permᴰ.swap d e) (here c) = there (here (c ∙ d))
  In-Perm a (Permᴰ.swap d e) (there (here c)) = here (c ∙ e)
  In-Perm a (Permᴰ.swap d e) (there (there h)) = there (there h)
  In-Perm a (Permᴰ.trans p q) h = In-Perm a q (In-Perm a p h)

module _ {ℓ κ} {A : Type ℓ} {B : Type κ} where
  pub In-map : (f : A → B) (a : A) (xs : List A) → In a xs → In (f a) (map f xs)
  In-map f a [] h = elim h [ ]
  In-map f a (x ∷ xs) (here e) = here (ap f e)
  In-map f a (x ∷ xs) (there h) = there (In-map f a xs h)

  pub In-map_inv :
      (f : A → B) (b : B) (xs : List A) → In b (map f xs) → (a : A) × In a xs × (b ≡ f a)
  In-map_inv f b [] h = elim h [ ]
  In-map_inv f b (x ∷ xs) (here e) = (x, here refl, e)
  In-map_inv f b (x ∷ xs) (there h) = let (a, m, e) = In-map_inv f b xs h in (a, there m, e)
