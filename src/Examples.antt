-- ===== src/Examples.antt =====
-- Concrete parameters and data for the examples of the theorems.
mod Trees
mod Nodes
mod Deletes
mod Certificates
mod Responses
mod Pairs
mod Hashes
mod Requests
mod Nested
mod Entries
mod Expressions
use response_verification.Common.{ℕ, zero, suc, ◌≡◌, refl, ap, [], ◌∷◌, length}
use response_verification.Common.Bytes.{Bytes}
use response_verification.Common.Sha.{Sha256}

abbrev pub pad : ℕ → Bytes → Bytes
pad zero b = []
pad (suc n) [] = 0 ∷ pad n []
pad (suc n) (x ∷ b) = x ∷ pad n b

pub length-pad : (n : ℕ) (b : Bytes) → length (pad n b) ≡ n
length-pad zero b = refl
length-pad (suc n) [] = ap suc (length-pad n [])
length-pad (suc n) (x ∷ b) = ap suc (length-pad n b)

abbrev pub repeat : ℕ → ℕ → Bytes
repeat zero x = []
repeat (suc n) x = x ∷ repeat n x

-- A hash that keeps the last bytes of its input, which tells the trees of the examples apart.
abbrev pub reverse_onto : Bytes → Bytes → Bytes
reverse_onto acc [] = acc
reverse_onto acc (x ∷ xs) = reverse_onto (x ∷ acc) xs

instance abbrev pub toy_sha : Sha256
toy_sha = record {
  hash = λ b. pad 32 (reverse_onto [] b);
  length-hash = λ b. length-pad 32 (reverse_onto [] b);
}
