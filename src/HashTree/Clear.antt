-- ===== src/HashTree/Clear.antt =====
-- When a witness leaves no place for a label: each of its pruned parts lies before a smaller label
-- that is shown, or behind a greater one.
use response_verification.Common.{◌≡◌, ◌⊎◌, inl, inr, List, ◌∷◌}
use response_verification.Common.Bytes.{Bytes, ◌≺◌, lt_trans, compare_bytes_refl}
use response_verification.Common.Sha.{Sha256}
use response_verification.HashTree.{HashTree, empty, fork, labeled, leaf, pruned}
use response_verification.HashTree.Order.{AllLabels, AllLabels-imp, IsWellFormed}
use response_verification.HashTree.Prunes.{Prunes, label, forks, cut, empties, leaves}
use response_verification.HashTree.Carries.{Carries, below_label, in_left, in_right}

-- A label with the property is shown.
abbrev pub Contains : (Bytes → Type 0) → HashTree → Type 0
Contains P (labeled l n) = P l
Contains P (fork a b) = Contains P a ⊎ Contains P b
Contains P empty = ⊥
Contains P (leaf v) = ⊥
Contains P (pruned h) = ⊥

-- A smaller, or a greater label is shown.
abbrev pub ShowsBelow : Bytes → HashTree → Type 0
ShowsBelow q w = Contains (λ l. l ≺ q) w

abbrev pub ShowsAbove : Bytes → HashTree → Type 0
ShowsAbove q w = Contains (λ l. q ≺ l) w

abbrev pub IsClear : Bytes → HashTree → Type 0
IsClear q (labeled l n) = l ≡ q → ⊥
IsClear q (fork a b) = (IsClear q a ⊎ ShowsBelow q b) × (IsClear q b ⊎ ShowsAbove q a)
IsClear q empty = Unit
IsClear q (leaf v) = Unit
IsClear q (pruned h) = ⊥

pub not_below_self : (q x : Bytes) → x ≺ q → x ≡ q → ⊥
not_below_self q x h e = cc (h, e, compare_bytes_refl q)

pub not_above_self : (q x : Bytes) → q ≺ x → x ≡ q → ⊥
not_above_self q x h e = cc (h, e, compare_bytes_refl q)

module _ ⦃sha : Sha256⦄ where
  Contains-Prunes :
      (P Q : Bytes → Type 0) {w t : HashTree}
      → Prunes w t
      → Contains P w
      → AllLabels Q t
      → (l : Bytes) × P l × Q l
  Contains-Prunes P Q (cut e) c h = elim c [ ]
  Contains-Prunes P Q empties c h = elim c [ ]
  Contains-Prunes P Q leaves c h = elim c [ ]
  Contains-Prunes P Q (label {l} p) c h = (l, c, h)
  Contains-Prunes P Q (forks p r) (inl c) h = Contains-Prunes P Q p c h.0
  Contains-Prunes P Q (forks p r) (inr c) h = Contains-Prunes P Q r c h.1

  -- A well-formed tree does not have the label if a witness of it leaves no place for it.
  pub IsClear-AllLabels :
      (q : Bytes) {w t : HashTree}
      → Prunes w t
      → IsWellFormed t
      → IsClear q w
      → AllLabels (λ x. x ≡ q → ⊥) t
  IsClear-AllLabels q (cut e) f c = absurd c
  IsClear-AllLabels q empties f c = tt
  IsClear-AllLabels q leaves f c = tt
  IsClear-AllLabels q (label p) f c = c
  IsClear-AllLabels q (forks {c = x} {d = y} p r) f (a, b) = (
    elim a [
      | inl clear ↦ IsClear-AllLabels q p f.3 clear
      | inr below ↦
          AllLabels-imp
            (λ z before.
              let (l, less, more) = Contains-Prunes (λ l. l ≺ q) (λ l. z ≺ l) r below before in
              not_below_self q z (lt_trans z l q more less))
            x f.2
    ],
    elim b [
      | inl clear ↦ IsClear-AllLabels q r f.4 clear
      | inr above ↦
          let (l, less, more) =
            Contains-Prunes (λ l. q ≺ l) (λ l. AllLabels (λ z. l ≺ z) y) p above f.2 in
          AllLabels-imp (λ z before. not_above_self q z (lt_trans q l z less before)) y more
    ],
  )

  -- What a tree carries begins with one of its labels.
  pub Carries-AllLabels :
      (P : Bytes → Type 0) {k : Bytes} {p : List Bytes} {s t : HashTree}
      → Carries (k ∷ p) s t
      → AllLabels P t
      → P k
  Carries-AllLabels P (below_label c) h = h
  Carries-AllLabels P (in_left c) h = Carries-AllLabels P c h.0
  Carries-AllLabels P (in_right c) h = Carries-AllLabels P c h.1

  -- A label of the left part comes before one of the right part.
  Carries-before :
      {k j : Bytes} {p q : List Bytes} {s r a b : HashTree}
      → AllLabels (λ x. AllLabels (λ y. x ≺ y) b) a
      → Carries (k ∷ p) s a
      → Carries (j ∷ q) r b
      → k ≺ j
  Carries-before {k} {j} {b = b} before c d =
      Carries-AllLabels (λ y. k ≺ y) d (Carries-AllLabels (λ x. AllLabels (λ y. x ≺ y) b) c before)

  -- In a well-formed tree there is one part below a label.
  pub Carries-both :
      {k j : Bytes} {p q : List Bytes} {s r t : HashTree}
      → IsWellFormed t
      → k ≡ j
      → Carries (k ∷ p) s t
      → Carries (j ∷ q) r t
      → (m : HashTree) × IsWellFormed m × Carries p s m × Carries q r m
  Carries-both f e (below_label {t = m} c) (below_label d) = (m, f, c, d)
  Carries-both f e (in_left c) (in_left d) = Carries-both f.3 e c d
  Carries-both f e (in_right c) (in_right d) = Carries-both f.4 e c d
  Carries-both {k} {j} f e (in_left c) (in_right d) =
      absurd (not_below_self j k (Carries-before f.2 c d) e)
  Carries-both {k} {j} f e (in_right c) (in_left d) =
      absurd (not_above_self j k (Carries-before f.2 d c) e)

  -- No well-formed tree that `w` is a witness of has anything at the path.
  abbrev pub Excludes : List Bytes → HashTree → Type 0
  Excludes p w = (t : HashTree) → IsWellFormed t → Prunes w t → (s : HashTree) → Carries p s t → ⊥
