-- ===== src/Wildcard/Complete.antt =====
-- wildcard_paths.rs: the list of `more_specific_wildcards_for` leaves out no more specific wildcard.
use response_verification.Common.{
  ℕ, zero, suc, ◌+◌, ◌*◌, ◌<◌, ◌≡◌, ◌≢◌, refl, sym, subst, ◌∙◌, ap, true, some, List, [], ◌∷◌, ◌++◌,
  length, arith, length-append, Bool-cases, Option-cases, inl, inr, In, here, there,
}
use response_verification.Common.Bytes.{Bytes, bytes_eq, eq_of_bytes_eq}
use response_verification.Wildcard.{
  Segments, path_dir_separator, wildcard_path_terminator, push, strip_path_affixes, continues,
  next_path, wildcards, responding_for, more_specific_wildcards_for,
}
use response_verification.Wildcard.Ends.{append_nil, next_path-append, next_path-push}

continues_of_longer : (p r : Segments) → length r < length p → continues p r ≡ true
unfolding continues
continues_of_longer p r h = ground arith

-- One round of the loop lists its path, and goes on.
round :
    (n : ℕ) (p r : Segments) (ws : List Segments)
    → wildcards n p r ≡ some ws
    → length r < length p
    → (m : ℕ) × (vs : List Segments) × (wildcards m (next_path p) r ≡ some vs)
      × (ws ≡ push p wildcard_path_terminator ∷ vs)
      × (n ≡ suc m)
unfolding wildcards
round zero p r ws e h = absurd (ground arith)
round (suc n) p r ws e h = elim (Option-cases (wildcards n (next_path p) r)) [
  | inl f ↦ absurd (let c = continues_of_longer p r h in ground arith)
  | inr (vs, f) ↦ (n, vs, f, let c = continues_of_longer p r h in ground arith, refl)
]

-- Whatever was added to a path longer than the responding one, the loop comes back to that path.
lists :
    (n : ℕ) (q s r : Segments) (ws : List Segments)
    → wildcards n (q ++ s) r ≡ some ws
    → length r < length q
    → In (push q wildcard_path_terminator) ws
lists n q [] r ws e h =
    let (m, vs, f, g, k) =
      round n q r ws (subst (λ z. wildcards n z r ≡ some ws) (append_nil q) e) h in
    rw (g) (here refl)
lists zero q (x ∷ s) r ws e h =
    let (m, vs, f, g, k) =
      round zero (q ++ (x ∷ s)) r ws e (omega (arith, length-append q (x ∷ s))) in
    absurd (omega (arith, k))
lists (suc n) q (x ∷ s) r ws e h =
    let (m, vs, f, g, k) =
      round (suc n) (q ++ (x ∷ s)) r ws e (omega (arith, length-append q (x ∷ s))) in
    let same : n ≡ m = omega (arith, k) in
    let f' =
      subst (λ z. wildcards n z r ≡ some vs) (next_path-append q x s)
        (subst (λ i. wildcards i (next_path (q ++ (x ∷ s))) r ≡ some vs) (sym same) f) in
    rw (g) (there (lists n q (next_path (x ∷ s)) r vs f' h))

next_path-long :
    (x y : Bytes) (s : Segments) → (z : Bytes) × (t : Segments) × (next_path (x ∷ y ∷ s) ≡ z ∷ t)
next_path-long x y s = (x, next_path (y ∷ s), next_path-append (x ∷ []) y s)

-- It comes to that path with a separator, too, if anything was added.
lists_separator :
    (n : ℕ) (q : Segments) (x : Bytes) (s r : Segments) (ws : List Segments)
    → wildcards n (q ++ (x ∷ s)) r ≡ some ws
    → length r < suc (length q)
    → In (push (push q path_dir_separator) wildcard_path_terminator) ws
lists_separator zero q x s r ws e h =
    let (m, vs, f, g, k) =
      round zero (q ++ (x ∷ s)) r ws e (omega (arith, length-append q (x ∷ s))) in
    absurd (omega (arith, k))
lists_separator (suc n) q x [] r ws e h = elim (Bool-cases (bytes_eq x path_dir_separator)) [
  | inl i ↦
      lists (suc n) (push q path_dir_separator) [] r ws
        (rw (append_nil (push q path_dir_separator)) (rw (← eq_of_bytes_eq x [] i) e))
        (omega (arith, length-append q ([] ∷ [])))
  | inr i ↦
      let (m, vs, f, g, k) =
        round (suc n) (push q x) r ws e (omega (arith, length-append q (x ∷ []))) in
      let f' =
        subst (λ z. wildcards m z r ≡ some vs) (next_path-push q x i ∙ sym (append_nil _)) f in
      rw (g) (
        there (
          lists m (push q path_dir_separator) [] r vs f'
            (omega (arith, length-append q ([] ∷ [])))))
]
lists_separator (suc n) q x (y ∷ s) r ws e h =
    let (m, vs, f, g, k) =
      round (suc n) (q ++ (x ∷ y ∷ s)) r ws e (omega (arith, length-append q (x ∷ y ∷ s))) in
    let same : n ≡ m = omega (arith, k) in
    let (z, t, i) = next_path-long x y s in
    let f' =
      subst (λ p. wildcards n p r ≡ some vs) (next_path-append q x (y ∷ s) ∙ ap (λ p. q ++ p) i)
        (subst (λ i. wildcards i (next_path (q ++ (x ∷ y ∷ s))) r ≡ some vs) (sym same) f) in
    rw (g) (there (lists_separator n q z t r vs f' h))

-- The list of more specific wildcards has every beginning `q` of the request, longer than the
-- responding path, with the wildcard; and every proper beginning with a separator and the wildcard
-- where that is longer than the responding path: all wildcard paths that answer the request and are
-- more specific than the responding one.
pub more_specific_wildcards_for_complete :
    (requested responding q s : Segments) (ws : List Segments)
    → more_specific_wildcards_for requested responding ≡ some ws
    → strip_path_affixes requested ≡ q ++ s
    → (length (responding_for (q ++ s) (strip_path_affixes responding)) < length q
        → In (push q wildcard_path_terminator) ws)
      × (s ≢ []
          → length (responding_for (q ++ s) (strip_path_affixes responding)) < suc (length q)
          → In (push (push q path_dir_separator) wildcard_path_terminator) ws)
more_specific_wildcards_for_complete requested responding q s ws e p =
    let e' =
      subst
        (λ z.
          wildcards (3 + 2 * length z) z (responding_for z (strip_path_affixes responding))
          ≡ some ws)
        p (unfold more_specific_wildcards_for in e) in
    (lists (3 + 2 * length (q ++ s)) q s _ ws e', added s e')
  where
    added :
        (s : Segments)
        → wildcards
            (3 + 2 * length (q ++ s))
            (q ++ s)
            (responding_for (q ++ s) (strip_path_affixes responding))
          ≡ some ws
        → s ≢ []
        → length (responding_for (q ++ s) (strip_path_affixes responding)) < suc (length q)
        → In (push (push q path_dir_separator) wildcard_path_terminator) ws
    added [] e' n h = absurd (n refl)
    added (x ∷ s) e' n h = lists_separator (3 + 2 * length (q ++ (x ∷ s))) q x s _ ws e' h
