-- ===== src/RepresentationHash.antt =====
-- packages/ic-representation-independent-hash/src/representation_independent_hash.rs: the hash of a map
-- that does not depend on the order of its entries. `leb128` is a parameter.
pub mod Order
pub mod Unordered
pub mod Binding
use Prim.Native.Nat.Ordering.{lt, eq, gt}
use response_verification.Common.{ℕ, ◌≡◌, List, [], ◌∷◌, ◌++◌, Ordering, map}
use response_verification.Common.Bytes.{Bytes, compare_bytes}
use response_verification.Common.Sha.{Sha256}

-- The crate `leb128`: what `write::unsigned` writes of a number, from which it can be read back.
pub record Leb128 : Type 0 where
  pub write_unsigned : ℕ → Bytes
  pub write_unsigned-inj : (m n : ℕ) → write_unsigned m ≡ write_unsigned n → m ≡ n

mutual
  pub data Value : Type 0 where
    string : Bytes → Value
    number : ℕ → Value
    bytes : Bytes → Value
    array : Values → Value

  -- `Vec<Value>`.
  pub data Values : Type 0 where
    nil : Values
    cons : Value → Values → Values

-- The order of pairs of hashes that `sort_unstable` uses.
unfoldable pub compare_pair : Bytes × Bytes → Bytes × Bytes → Ordering
compare_pair (a, b) (c, d) = elim (compare_bytes a c) [ lt ↦ lt | eq ↦ compare_bytes b d | gt ↦ gt ]

-- `sort_unstable`. Equal elements are not told apart, so any sort gives this list.
unfoldable pub insert_pair : Bytes × Bytes → List (Bytes × Bytes) → List (Bytes × Bytes)
insert_pair x [] = x ∷ []
insert_pair x (y ∷ ys) = elim (compare_pair x y) [
  | lt ↦ x ∷ (y ∷ ys)
  | eq ↦ x ∷ (y ∷ ys)
  | gt ↦ y ∷ insert_pair x ys
]

unfoldable pub sort_unstable : List (Bytes × Bytes) → List (Bytes × Bytes)
sort_unstable [] = []
sort_unstable (x ∷ xs) = insert_pair x (sort_unstable xs)

-- What the hasher is updated with.
unfoldable pub concat_pairs : List (Bytes × Bytes) → Bytes
concat_pairs [] = []
concat_pairs ((a, b) ∷ xs) = a ++ (b ++ concat_pairs xs)

module _ ⦃sha : Sha256⦄ (leb : Leb128) where
  unfoldable mutual
    pub hash_value : Value → Bytes
    hash_value (string s) = sha.hash s
    hash_value (bytes b) = sha.hash b
    hash_value (number n) = sha.hash (leb.write_unsigned n)
    hash_value (array xs) = sha.hash (hash_array xs)

    -- The concatenation that `hash_array` hashes.
    pub hash_array : Values → Bytes
    hash_array nil = []
    hash_array (cons x xs) = hash_value x ++ hash_array xs

  unfoldable pub hash_entry : Bytes × Value → Bytes × Bytes
  hash_entry (key, value) = (sha.hash key, hash_value value)

  unfoldable pub representation_independent_hash : List (Bytes × Value) → Bytes
  representation_independent_hash entries =
      sha.hash (concat_pairs (sort_unstable (map hash_entry entries)))
