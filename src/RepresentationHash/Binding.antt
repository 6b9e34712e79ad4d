-- ===== src/RepresentationHash/Binding.antt =====
-- The hash binds the entries: equal hashes are those of the same hashed entries, or show a collision.
use mathlib.Core.List.Permᴰ
use mathlib.Core.List.{Permᴰ}
use response_verification.Common.{
  ◌≡◌, refl, ap, sym, List, [], ◌∷◌, ◌++◌, map, arith, ◌⊎◌, inl, inr, Ordering-cases, length, In,
  length-append, subst,
}
use response_verification.Common.Bytes.{Bytes, append-inj}
use response_verification.Common.Sha.{Sha256, Collision, hash-inj}
use response_verification.RepresentationHash.{
  Leb128, Value, string, number, bytes, array, compare_pair, insert_pair, sort_unstable,
  concat_pairs, hash_value, hash_entry, representation_independent_hash,
}
use response_verification.RepresentationHash.Unordered.{
  sort_unstable-Perm_self, In-Perm, In-map, In-map_inv,
}

-- Both parts of every pair have 32 bytes.
abbrev AllSized : List (Bytes × Bytes) → Type 0
AllSized [] = Unit
AllSized ((a, b) ∷ xs) = (length a ≡ 32) × (length b ≡ 32) × AllSized xs

insert_pair-AllSized :
    (x : Bytes × Bytes) (ys : List (Bytes × Bytes))
    → length x.0 ≡ 32
    → length x.1 ≡ 32
    → AllSized ys
    → AllSized (insert_pair x ys)
unfolding insert_pair
insert_pair-AllSized (a, b) [] l m s = (l, m, tt)
insert_pair-AllSized (a, b) ((c, d) ∷ ys) l m s =
    elim (Ordering-cases (compare_pair (a, b) (c, d))) [
      | inl e ↦ rw (e, AllSized, insert_pair) (l, m, s)
      | inr (inl e) ↦ rw (e, AllSized, insert_pair) (l, m, s)
      | inr (inr e) ↦
          rw (e, AllSized, insert_pair) (s.0, s.1, insert_pair-AllSized (a, b) ys l m s.2)
    ]

concat_pairs-inj :
    (xs ys : List (Bytes × Bytes))
    → AllSized xs
    → AllSized ys
    → concat_pairs xs ≡ concat_pairs ys
    → xs ≡ ys
unfolding concat_pairs
concat_pairs-inj [] [] s t e = refl
concat_pairs-inj [] ((c, d) ∷ ys) s t e =
    absurd (omega (arith, length-append c (d ++ concat_pairs ys), ap (λ z. length z) e))
concat_pairs-inj ((a, b) ∷ xs) [] s t e =
    absurd (omega (arith, length-append a (b ++ concat_pairs xs), ap (λ z. length z) e))
concat_pairs-inj ((a, b) ∷ xs) ((c, d) ∷ ys) s t e =
    let (p, rest) = append-inj a _ c _ (omega arith) e in
    let (q, more) = append-inj b (concat_pairs xs) d (concat_pairs ys) (omega arith) rest in
    rw (p, q, concat_pairs-inj xs ys s.2 t.2 more) refl

module _ ⦃sha : Sha256⦄ (leb : Leb128) where
  length-hash_value : (v : Value) → length (hash_value leb v) ≡ 32
  unfolding hash_value
  length-hash_value (string s) = sha.length-hash s
  length-hash_value (number n) = sha.length-hash _
  length-hash_value (bytes b) = sha.length-hash b
  length-hash_value (array xs) = sha.length-hash _

  sort_unstable-AllSized :
      (m : List (Bytes × Value)) → AllSized (sort_unstable (map (hash_entry leb) m))
  unfolding sort_unstable hash_entry
  sort_unstable-AllSized [] = tt
  sort_unstable-AllSized ((k, v) ∷ m) =
      insert_pair-AllSized _ _ (sha.length-hash k) (length-hash_value v) (sort_unstable-AllSized m)

  -- Equal hashes come from entries that hash alike, up to their order, or show a collision.
  pub representation_independent_hash-inj :
      (m n : List (Bytes × Value))
      → representation_independent_hash leb m ≡ representation_independent_hash leb n
      → Permᴰ (map (hash_entry leb) m) (map (hash_entry leb) n) ⊎ Collision sha
  unfolding representation_independent_hash
  representation_independent_hash-inj m n e = elim (hash-inj _ _ e) [
    | inr c ↦ inr c
    | inl p ↦
        let same = concat_pairs-inj _ _ (sort_unstable-AllSized m) (sort_unstable-AllSized n) p in
        inl (
          Permᴰ.trans (Permᴰ.symm (sort_unstable-Perm_self (map (hash_entry leb) m))) (
            subst (λ z. Permᴰ z (map (hash_entry leb) n)) (sym same)
              (sort_unstable-Perm_self (map (hash_entry leb) n))))
  ]

  -- An entry of the one list is, with a value that hashes alike, an entry of the other.
  pub entry_hashed :
      (m n : List (Bytes × Value)) (k : Bytes) (v : Value)
      → Permᴰ (map (hash_entry leb) m) (map (hash_entry leb) n)
      → In (k, v) m
      → ((w : Value) × In (k, w) n × (hash_value leb v ≡ hash_value leb w)) ⊎ Collision sha
  unfolding hash_entry
  entry_hashed m n k v p h =
      let ((j, w), there_is, e) =
        In-map_inv (hash_entry leb) _ n (In-Perm _ p (In-map (hash_entry leb) (k, v) m h)) in
      elim (hash-inj k j (ap (λ z. z.0) e)) [
        | inr c ↦ inr c
        | inl d ↦ inl (w, subst (λ z. In (z, w) n) (sym d) there_is, ap (λ z. z.1) e)
      ]
