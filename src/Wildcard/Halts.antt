-- ===== src/Wildcard/Halts.antt =====
-- wildcard_paths.rs: the `while` loop of `more_specific_wildcards_for` ends.
use response_verification.Common.{
  ℕ, zero, suc, ◌+◌, ◌*◌, ◌≤◌, ◌<◌, ◌≡◌, refl, sym, subst, ap, Bool, true, false, ◌||◌, some, List,
  [], ◌∷◌, ◌++◌, length, arith, length-append, Bool-cases, inl, inr, and_left, and_right,
}
use response_verification.Common.Bytes.{Bytes, compare_bytes, bytes_eq, eq_of_bytes_eq}
use response_verification.Wildcard.{
  Segments, path_dir_separator, wildcard_path_terminator, last, pop, push, starts_with, ends_with,
  is_wildcard_path_valid_for_request_path, strip_path_affixes, continues, next_path, wildcards,
  responding_for, more_specific_wildcards_for,
}
use response_verification.Wildcard.Ends.{
  last-push, push-append, pushed, push-pop, starts_with-append, option_eq_refl, next_path-separator,
  next_path-push, append_nil,
}

-- The loop ends after at most so many rounds.
pub data Halts (responding : Segments) : ℕ → Segments → Type 0 where
  stop : {n : ℕ} {p : Segments} → continues p responding ≡ false → Halts responding n p
  step : {n : ℕ} {p : Segments} → Halts responding n (next_path p) → Halts responding (suc n) p

module _ (r : Segments) where
  weaken : {n : ℕ} {p : Segments} (m : ℕ) → Halts r n p → n ≤ m → Halts r m p
  weaken m (stop e) l = stop e
  weaken zero (step h) l = absurd (omega arith)
  weaken (suc m) (step h) l = step (weaken m h (omega arith))

  Halts-push : (n : ℕ) (q : Segments) (x : Bytes) → Halts r n q → Halts r (suc (suc n)) (push q x)
  Halts-push n q x h = elim (Bool-cases (bytes_eq x path_dir_separator)) [
    | inl e ↦
        rw (eq_of_bytes_eq x [] e)
          (step (rw (next_path-separator q) (weaken (suc n) h (omega arith))))
    | inr e ↦ step (rw (next_path-push q x e) (step (rw (next_path-separator q) h)))
  ]

  Halts-append : (n : ℕ) (q s : Segments) → Halts r n q → Halts r (n + 2 * length s) (q ++ s)
  Halts-append n q [] h = rw (append_nil q) (subst (λ m. Halts r m q) (omega arith) h)
  Halts-append n q (x ∷ s) h =
      let more = Halts-append (suc (suc n)) (push q x) s (Halts-push n q x h) in
      rw (← push-append q x s) (subst (λ m. Halts r m (push q x ++ s)) (omega arith) more)

  stops_at_self : continues r r ≡ false
  unfolding continues
  stops_at_self = rw (option_eq_refl (last r)) (ground arith)

  enough_fuel :
      (n m : ℕ) (p : Segments)
      → Halts r n p
      → n < m
      → (ws : List Segments) × (wildcards m p r ≡ some ws)
  unfolding wildcards
  enough_fuel n zero p h l = absurd (omega arith)
  enough_fuel n (suc m) p (stop e) l = ([], rw (e) refl)
  enough_fuel (suc n) (suc m) p (step h) l = elim (Bool-cases (continues p r)) [
    | inr e ↦ ([], rw (e) refl)
    | inl e ↦
        let (ws, f) = enough_fuel n m (next_path p) h (omega arith) in
        (push p wildcard_path_terminator ∷ ws, rw (e, f) refl)
  ]

stops_before :
    (s q : Segments)
    → length s ≤ length q
    → continues (push s path_dir_separator) (push q path_dir_separator) ≡ false
unfolding continues compare_bytes
stops_before s q h =
    rw (last-push s [], last-push q [])
      (rw (length-append s ([] ∷ []), length-append q ([] ∷ [])) (ground arith))

Halts-pushed : (s : Segments) (y : Bytes) → Halts (push (push s y) path_dir_separator) 1 (push s y)
Halts-pushed s y = elim (Bool-cases (bytes_eq y path_dir_separator)) [
  | inl h ↦
      rw (eq_of_bytes_eq y [] h)
        (stop (stops_before s (push s []) (omega (arith, length-append s ([] ∷ [])))))
  | inr h ↦ step (
      rw (next_path-push s y h)
        (stop (stops_before s (push s y) (omega (arith, length-append s (y ∷ []))))))
]

-- A responding path that ends in a separator stops the loop where the request has the segments
-- before the separator alone.
Halts-separator : (q : Segments) → Halts (push q path_dir_separator) 1 q
Halts-separator [] = step (rw (next_path_nil) (stop (stops_at_self (path_dir_separator ∷ []))))
  where
    next_path_nil : next_path [] ≡ path_dir_separator ∷ []
    next_path_nil = unfold next_path in unfold last in unfold pop in refl
Halts-separator (x ∷ q) =
    let (s, y, e) = pushed x q in
    subst (λ z. Halts (push z path_dir_separator) 1 z) (sym e) (Halts-pushed s y)

or_right : (a b : Bool) → (a || b) ≡ true → a ≡ false → b ≡ true
or_right a b e f = ground arith

-- The loop ends, whatever the two paths, within the fuel that `more_specific_wildcards_for` gives.
-- The responding path begins the request, or does so but for the separator that it ends in.
Halts-responding :
    (p r : Segments)
    → is_wildcard_path_valid_for_request_path r p ≡ true
    → Halts r (1 + 2 * length p) p
unfolding is_wildcard_path_valid_for_request_path
Halts-responding p r e = elim (Bool-cases (starts_with p r)) [
  | inl h ↦
      let (s, f) = starts_with-append p r h in
      subst (λ z. Halts r (1 + 2 * length p) z) (sym f)
        (weaken r (1 + 2 * length p) (Halts-append r 0 r s (stop (stops_at_self r)))
          (omega (arith, length-append r s, ap (λ z. length z) f)))
  | inr h ↦
      let both = or_right (starts_with p r) _ e h in
      let (s, f) =
        starts_with-append p (pop r) (and_right (ends_with r path_dir_separator) _ both) in
      let base =
        subst (λ z. Halts z 1 (pop r)) (sym (push-pop r path_dir_separator (and_left _ _ both)))
          (Halts-separator (pop r)) in
      subst (λ z. Halts r (1 + 2 * length p) z) (sym f)
        (weaken r (1 + 2 * length p) (Halts-append r 1 (pop r) s base)
          (omega (arith, length-append (pop r) s, ap (λ z. length z) f)))
]

-- For any two paths the loop of `more_specific_wildcards_for` ends, so it returns a list.
pub more_specific_wildcards_for-returns :
    (requested responding : Segments)
    → (ws : List Segments) × (more_specific_wildcards_for requested responding ≡ some ws)
unfolding more_specific_wildcards_for responding_for
more_specific_wildcards_for-returns requested responding =
    let p = strip_path_affixes requested in
    let r = strip_path_affixes responding in
    elim (Bool-cases (is_wildcard_path_valid_for_request_path r p)) [
      | inl e ↦ rw (e) (
          enough_fuel r (1 + 2 * length p) (3 + 2 * length p) p (Halts-responding p r e)
            (omega arith))
      | inr e ↦ rw (e) (
          enough_fuel [] (0 + 2 * length p) (3 + 2 * length p) p
            (Halts-append [] 0 [] p (stop (stops_at_self []))) (omega arith))
    ]
