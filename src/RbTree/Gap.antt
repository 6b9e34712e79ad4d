-- ===== src/RbTree/Gap.antt =====
-- `three_way_fork`: which labels a fork of witnesses shows, and which it leaves no place for.
use response_verification.Common.{◌⊎◌, inl, inr}
use response_verification.Common.Bytes.{Bytes}
use response_verification.Common.Sha.{Sha256}
use response_verification.HashTree.{HashTree, empty, fork, labeled, leaf, pruned}
use response_verification.HashTree.Clear.{Contains, ShowsBelow, ShowsAbove, IsClear}
use response_verification.RbTree.Witness.{three_way_fork}

only_first : {A : Type 0} → A ⊎ ⊥ ⊎ ⊥ → A
only_first (inl a) = a
only_first (inr (inl e)) = absurd e
only_first (inr (inr e)) = absurd e

not_third : {A B : Type 0} → A ⊎ B ⊎ ⊥ → A ⊎ B
not_third (inl a) = inl a
not_third (inr (inl b)) = inr b
not_third (inr (inr e)) = absurd e

not_second : {A C : Type 0} → A ⊎ ⊥ ⊎ C → A ⊎ C
not_second (inl a) = inl a
not_second (inr (inl e)) = absurd e
not_second (inr (inr c)) = inr c

both_or : {A B C D E : Type 0} → A ⊎ B ⊎ C → D ⊎ B ⊎ E → ((A ⊎ C) × (D ⊎ E)) ⊎ B
both_or (inr (inl b)) z = inr b
both_or (inl a) (inr (inl b)) = inr b
both_or (inr (inr c)) (inr (inl b)) = inr b
both_or (inl a) (inl d) = inl (inl a, inl d)
both_or (inl a) (inr (inr e)) = inl (inl a, inr e)
both_or (inr (inr c)) (inl d) = inl (inr c, inl d)
both_or (inr (inr c)) (inr (inr e)) = inl (inr c, inr e)

module _ ⦃sha : Sha256⦄ where
  pub fork-Contains_left :
      (P : Bytes → Type 0) (a m b : HashTree) → Contains P a → Contains P (three_way_fork a m b)
  unfolding three_way_fork
  fork-Contains_left P (labeled l t) m empty c = inl c
  fork-Contains_left P (fork x y) m empty c = inl c
  fork-Contains_left P (labeled l t) (pruned h) (pruned g) c = inl c
  fork-Contains_left P (fork x y) (pruned h) (pruned g) c = inl c
  fork-Contains_left P (labeled l t) m b c = inl c
  fork-Contains_left P (fork x y) m b c = inl c
  fork-Contains_left P empty m b c = elim c [ ]
  fork-Contains_left P (leaf v) m b c = elim c [ ]
  fork-Contains_left P (pruned h) m b c = elim c [ ]

  pub fork-Contains_right :
      (P : Bytes → Type 0) (a m b : HashTree) → Contains P b → Contains P (three_way_fork a m b)
  unfolding three_way_fork
  fork-Contains_right P empty m (labeled l t) c = inr c
  fork-Contains_right P empty m (fork x y) c = inr c
  fork-Contains_right P a m (labeled l t) c = inr (inr c)
  fork-Contains_right P a m (fork x y) c = inr (inr c)
  fork-Contains_right P a m empty c = elim c [ ]
  fork-Contains_right P a m (leaf v) c = elim c [ ]
  fork-Contains_right P a m (pruned h) c = elim c [ ]

  pub fork-Contains_middle :
      (P : Bytes → Type 0) (a : HashTree) (k : Bytes) (n b : HashTree)
      → P k
      → Contains P (three_way_fork a (labeled k n) b)
  unfolding three_way_fork
  fork-Contains_middle P empty k n empty c = c
  fork-Contains_middle P a k n empty c = inr c
  fork-Contains_middle P empty k n b c = inl c
  fork-Contains_middle P a k n b c = inr (inl c)

  -- Each of the three parts is clear, or is cut off by what another one shows.
  pub fork-IsClear :
      (q : Bytes) (a m b : HashTree)
      → IsClear q a ⊎ ShowsBelow q m ⊎ ShowsBelow q b
      → IsClear q m ⊎ ShowsAbove q a ⊎ ShowsBelow q b
      → IsClear q b ⊎ ShowsAbove q a ⊎ ShowsAbove q m
      → IsClear q (three_way_fork a m b)
  unfolding three_way_fork
  fork-IsClear q empty m empty x y z = only_first y
  fork-IsClear q a m empty x y z = (not_third x, not_third y)
  fork-IsClear q empty m b x y z = (not_second y, not_second z)
  fork-IsClear q (pruned f) (pruned g) (pruned h) x y z = only_first y
  fork-IsClear q a (pruned g) (pruned h) x y z = (inl (only_first x), not_third y)
  fork-IsClear q a m b x y z = (x, both_or y z)
