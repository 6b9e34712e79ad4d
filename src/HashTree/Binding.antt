-- ===== src/HashTree/Binding.antt =====
-- The digest binds a tree: two trees of one digest, the second with nothing pruned, are a witness
-- and its full tree, or they give away a collision of the hash.
use response_verification.Common.{
  ℕ, zero, suc, ◌+◌, ◌*◌, ◌≡◌, ◌≢◌, refl, ap, sym, ◌∙◌, ◌⊎◌, inl, inr, [], ◌∷◌, ◌++◌, arith, length,
  length-append,
}
use response_verification.Common.Bytes.{Bytes, append-inj}
use response_verification.Common.Sha.{Sha256, Collision, hash-inj}
use response_verification.HashTree.{
  HashTree, empty, fork, labeled, leaf, pruned, domain_sep, digest,
}
use response_verification.HashTree.Order.{IsWellFormed}
use response_verification.HashTree.Prunes.{Prunes, cut, empties, leaves, label, forks}

-- Every pruned node carries 32 bytes, as the type `Hash` of the code has it.
abbrev pub IsSized : HashTree → Type 0
IsSized (pruned h) = length h ≡ 32
IsSized (fork a b) = IsSized a × IsSized b
IsSized (labeled l t) = IsSized t
IsSized empty = Unit
IsSized (leaf b) = Unit

abbrev pub IsFull : HashTree → Type 0
IsFull (pruned h) = ⊥
IsFull (fork a b) = IsFull a × IsFull b
IsFull (labeled l t) = IsFull t
IsFull empty = Unit
IsFull (leaf b) = Unit

pub IsWellFormed-IsFull : (t : HashTree) → IsWellFormed t → IsFull t
IsWellFormed-IsFull empty w = tt
IsWellFormed-IsFull (leaf b) w = tt
IsWellFormed-IsFull (pruned h) w = w
IsWellFormed-IsFull (labeled l t) w = IsWellFormed-IsFull t w
IsWellFormed-IsFull (fork a b) w = (IsWellFormed-IsFull a w.3, IsWellFormed-IsFull b w.4)

pub IsFull-IsSized : (t : HashTree) → IsFull t → IsSized t
IsFull-IsSized empty w = tt
IsFull-IsSized (leaf b) w = tt
IsFull-IsSized (pruned h) w = absurd w
IsFull-IsSized (labeled l t) w = IsFull-IsSized t w
IsFull-IsSized (fork a b) w = (IsFull-IsSized a w.0, IsFull-IsSized b w.1)

append-inj_left : (a b d : Bytes) → a ++ b ≡ a ++ d → b ≡ d
append-inj_left a b d e = (append-inj a b a d refl e).1

pub append-inj_right : (a b c d : Bytes) → length b ≡ length d → a ++ b ≡ c ++ d → (a ≡ c) × (b ≡ d)
append-inj_right a b c d l e =
    append-inj a b c d (omega (arith, length-append a b, length-append c d, ap (λ x. length x) e)) e

-- Two bytes of a node's hashed text that tell its kind: the separator's length and its initial.
abbrev byte_at : Bytes → ℕ → ℕ
byte_at [] i = 0
byte_at (x ∷ xs) zero = x
byte_at (x ∷ xs) (suc i) = byte_at xs i

abbrev kind : Bytes → ℕ
kind b = byte_at b 0 * 256 + byte_at b 13

module _ ⦃sha : Sha256⦄ where
  length-digest : (t : HashTree) → IsSized t → length (digest t) ≡ 32
  unfolding digest
  length-digest empty s = sha.length-hash _
  length-digest (leaf b) s = sha.length-hash _
  length-digest (labeled l t) s = sha.length-hash _
  length-digest (fork a b) s = sha.length-hash _
  length-digest (pruned h) s = s

  -- The text whose hash is the digest of a node that is not pruned.
  abbrev preimage : HashTree → Bytes
  preimage empty = domain_sep "ic-hashtree-empty"
  preimage (fork l r) = domain_sep "ic-hashtree-fork" ++ (digest l ++ digest r)
  preimage (labeled l t) = domain_sep "ic-hashtree-labeled" ++ (l ++ digest t)
  preimage (leaf b) = domain_sep "ic-hashtree-leaf" ++ b
  preimage (pruned h) = []

  distinct :
      {A : Type 0} (x y : Bytes) → kind x ≢ kind y → sha.hash x ≡ sha.hash y → A ⊎ Collision sha
  distinct x y n e = elim (hash-inj x y e) [ inl p ↦ absurd (n (ap kind p)) | inr c ↦ inr c ]

  leaves_binding :
      (a b : Bytes) → digest (leaf a) ≡ digest (leaf b) → Prunes (leaf a) (leaf b) ⊎ Collision sha
  unfolding digest
  leaves_binding a b e = elim (hash-inj _ _ e) [
    | inl p ↦ inl (rw (append-inj_left (domain_sep "ic-hashtree-leaf") a b p) leaves)
    | inr c ↦ inr c
  ]

  labels_of :
      {l m : Bytes} {s t : HashTree}
      → l ≡ m
      → Prunes s t ⊎ Collision sha
      → Prunes (labeled l s) (labeled m t) ⊎ Collision sha
  labels_of {s} {t} e (inl p) = inl (rw e (label p))
  labels_of e (inr c) = inr c

  forks_of :
      {a b c d : HashTree}
      → Prunes a c ⊎ Collision sha
      → Prunes b d ⊎ Collision sha
      → Prunes (fork a b) (fork c d) ⊎ Collision sha
  forks_of (inl p) (inl q) = inl (forks p q)
  forks_of (inl p) (inr c) = inr c
  forks_of (inr c) q = inr c

  labels_binding :
      (l m : Bytes) (s t : HashTree)
      → IsSized s
      → IsFull t
      → (digest s ≡ digest t → Prunes s t ⊎ Collision sha)
      → digest (labeled l s) ≡ digest (labeled m t)
      → Prunes (labeled l s) (labeled m t) ⊎ Collision sha
  unfolding digest
  labels_binding l m s t ss ft below e = elim (hash-inj _ _ e) [
    | inl p ↦
        let parts =
          append-inj_right l (digest s) m (digest t)
            (length-digest s ss ∙ sym (length-digest t (IsFull-IsSized t ft)))
            (append-inj_left (domain_sep "ic-hashtree-labeled") (l ++ digest s) (m ++ digest t)
              p) in
        labels_of parts.0 (below parts.1)
    | inr c ↦ inr c
  ]

  forks_binding :
      (a b c d : HashTree)
      → IsSized a
      → IsFull c
      → (digest a ≡ digest c → Prunes a c ⊎ Collision sha)
      → (digest b ≡ digest d → Prunes b d ⊎ Collision sha)
      → digest (fork a b) ≡ digest (fork c d)
      → Prunes (fork a b) (fork c d) ⊎ Collision sha
  unfolding digest
  forks_binding a b c d sa fc left right e = elim (hash-inj _ _ e) [
    | inl p ↦
        let parts =
          append-inj (digest a) (digest b) (digest c) (digest d)
            (length-digest a sa ∙ sym (length-digest c (IsFull-IsSized c fc)))
            (append-inj_left (domain_sep "ic-hashtree-fork") (digest a ++ digest b)
              (digest c ++ digest d) p) in
        forks_of (left parts.0) (right parts.1)
    | inr c ↦ inr c
  ]

  -- A tree with the digest of a full tree is a witness of it, or shows a collision.
  pub digest_binding :
      (s t : HashTree) → IsSized s → IsFull t → digest s ≡ digest t → Prunes s t ⊎ Collision sha
  unfolding digest domain_sep
  digest_binding (pruned h) t ss ft e = inl (cut e)
  digest_binding empty empty ss ft e = inl empties
  digest_binding empty (leaf b) ss ft e = distinct _ _ (λ p. omega arith) e
  digest_binding empty (labeled m t) ss ft e = distinct _ _ (λ p. omega arith) e
  digest_binding empty (fork c d) ss ft e = distinct _ _ (λ p. omega arith) e
  digest_binding (leaf a) empty ss ft e = distinct _ _ (λ p. omega arith) e
  digest_binding (leaf a) (leaf b) ss ft e = leaves_binding a b e
  digest_binding (leaf a) (labeled m t) ss ft e = distinct _ _ (λ p. omega arith) e
  digest_binding (leaf a) (fork c d) ss ft e = distinct _ _ (λ p. omega arith) e
  digest_binding (labeled l s) empty ss ft e = distinct _ _ (λ p. omega arith) e
  digest_binding (labeled l s) (leaf b) ss ft e = distinct _ _ (λ p. omega arith) e
  digest_binding (labeled l s) (labeled m t) ss ft e =
      labels_binding l m s t ss ft (digest_binding s t ss ft) e
  digest_binding (labeled l s) (fork c d) ss ft e = distinct _ _ (λ p. omega arith) e
  digest_binding (fork a b) empty ss ft e = distinct _ _ (λ p. omega arith) e
  digest_binding (fork a b) (leaf v) ss ft e = distinct _ _ (λ p. omega arith) e
  digest_binding (fork a b) (labeled m t) ss ft e = distinct _ _ (λ p. omega arith) e
  digest_binding (fork a b) (fork c d) ss ft e =
      forks_binding a b c d ss.0 ft.0 (digest_binding a c ss.0 ft.0) (digest_binding b d ss.1 ft.1)
        e
  digest_binding s (pruned h) ss ft e = absurd ft
