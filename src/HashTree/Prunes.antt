-- ===== src/HashTree/Prunes.antt =====
-- A witness: a tree got from another by replacing subtrees by their digests.
use response_verification.Common.{◌≡◌, refl, ◌∙◌}
use response_verification.Common.Bytes.{Bytes}
use response_verification.Common.Sha.{Sha256}
use response_verification.HashTree.{HashTree, empty, fork, labeled, leaf, pruned, digest}

pub data Prunes ⦃sha : Sha256⦄ : HashTree → HashTree → Type 0 where
  cut : {h : Bytes} {t : HashTree} → h ≡ digest t → Prunes (pruned h) t
  empties : Prunes empty empty
  leaves : {v : Bytes} → Prunes (leaf v) (leaf v)
  label : {l : Bytes} {s t : HashTree} → Prunes s t → Prunes (labeled l s) (labeled l t)
  forks : {a b c d : HashTree} → Prunes a c → Prunes b d → Prunes (fork a b) (fork c d)

module _ ⦃sha : Sha256⦄ where
  pub Prunes-refl : (t : HashTree) → Prunes t t
  unfolding digest
  Prunes-refl empty = empties
  Prunes-refl (leaf v) = leaves
  Prunes-refl (pruned h) = cut refl
  Prunes-refl (labeled l t) = label (Prunes-refl t)
  Prunes-refl (fork a b) = forks (Prunes-refl a) (Prunes-refl b)

  -- Pruning keeps the digest.
  pub digest-Prunes : {s t : HashTree} → Prunes s t → digest s ≡ digest t
  unfolding digest
  digest-Prunes (cut e) = e
  digest-Prunes empties = refl
  digest-Prunes leaves = refl
  digest-Prunes (label p) = cc (digest-Prunes p)
  digest-Prunes (forks p q) = cc (digest-Prunes p, digest-Prunes q)

  pub Prunes-trans : {r s t : HashTree} → Prunes r s → Prunes s t → Prunes r t
  Prunes-trans (cut e) q = cut (e ∙ digest-Prunes q)
  Prunes-trans empties q = q
  Prunes-trans leaves q = q
  Prunes-trans (label p) (label q) = label (Prunes-trans p q)
  Prunes-trans (forks p p') (forks q q') = forks (Prunes-trans p q) (Prunes-trans p' q')
