-- ===== src/HashTree/Carries.antt =====
-- What a witness shows of a path: the labels along it, and the tree below.
use response_verification.Common.{List, [], ◌∷◌}
use response_verification.Common.Bytes.{Bytes}
use response_verification.Common.Sha.{Sha256}
use response_verification.HashTree.{HashTree, fork, labeled}
use response_verification.HashTree.Prunes.{Prunes, label, forks, Prunes-trans}

-- Below the labels of the path the tree has at least what `s` shows.
pub data Carries ⦃sha : Sha256⦄ : List Bytes → HashTree → HashTree → Type 0 where
  carried : {s t : HashTree} → Prunes s t → Carries [] s t
  below_label :
      {k : Bytes} {p : List Bytes} {s t : HashTree}
      → Carries p s t
      → Carries (k ∷ p) s (labeled k t)
  in_left :
      {k : Bytes} {p : List Bytes} {s a b : HashTree}
      → Carries (k ∷ p) s a
      → Carries (k ∷ p) s (fork a b)
  in_right :
      {k : Bytes} {p : List Bytes} {s a b : HashTree}
      → Carries (k ∷ p) s b
      → Carries (k ∷ p) s (fork a b)

module _ ⦃sha : Sha256⦄ where
  -- A tree that shows more than a witness carries what the witness does.
  pub Carries-Prunes :
      {p : List Bytes} {s w t : HashTree} → Carries p s w → Prunes w t → Carries p s t
  Carries-Prunes (carried a) q = carried (Prunes-trans a q)
  Carries-Prunes (below_label c) (label q) = below_label (Carries-Prunes c q)
  Carries-Prunes (in_left c) (forks q r) = in_left (Carries-Prunes c q)
  Carries-Prunes (in_right c) (forks q r) = in_right (Carries-Prunes c r)
