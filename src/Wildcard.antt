-- ===== src/Wildcard.antt =====
-- packages/ic-http-certification/src/utils/wildcard_paths.rs: which wildcard paths of a certification
-- tree answer a request, and which are more specific than the one that answered. A path is a list of
-- byte strings. The proofs are in the modules below.
pub mod Ends
pub mod Halts
pub mod Complete
use response_verification.Common.{
  ℕ, zero, suc, ◌+◌, ◌*◌, Bool, true, false, not, ◌&&◌, ◌||◌, ltb, if◌then◌else◌, Option, none,
  some, List, [], ◌∷◌, ◌++◌, length,
}
use response_verification.Common.Bytes.{Bytes, codes, bytes_eq}

abbrev pub Segments : Type 0
Segments = List Bytes

abbrev pub path_prefix : Bytes
path_prefix = codes "http_expr"

abbrev pub path_dir_separator : Bytes
path_dir_separator = []

abbrev pub exact_path_terminator : Bytes
exact_path_terminator = codes "<$>"

abbrev pub wildcard_path_terminator : Bytes
wildcard_path_terminator = codes "<*>"

-- `Vec::first`, `Vec::last`, `Vec::pop` and `starts_with` and `==` of slices.
abbrev pub first : Segments → Option Bytes
first [] = none
first (x ∷ xs) = some x

unfoldable pub last : Segments → Option Bytes
last [] = none
last (x ∷ []) = some x
last (x ∷ y ∷ xs) = last (y ∷ xs)

unfoldable pub pop : Segments → Segments
pop [] = []
pop (x ∷ []) = []
pop (x ∷ y ∷ xs) = x ∷ pop (y ∷ xs)

abbrev pub push : Segments → Bytes → Segments
push p x = p ++ x ∷ []

unfoldable pub starts_with : Segments → Segments → Bool
starts_with p [] = true
starts_with [] (y ∷ ys) = false
starts_with (x ∷ xs) (y ∷ ys) = bytes_eq x y && starts_with xs ys

abbrev pub is_some_eq : Option Bytes → Bytes → Bool
is_some_eq none b = false
is_some_eq (some a) b = bytes_eq a b

-- `path.ends_with(&[b])`.
abbrev pub ends_with : Segments → Bytes → Bool
ends_with p b = is_some_eq (last p) b

abbrev pub option_eq : Option Bytes → Option Bytes → Bool
option_eq none none = true
option_eq (some a) (some b) = bytes_eq a b
option_eq none (some b) = false
option_eq (some a) none = false

-- `path.remove(0)`, which the code calls on a path that has a first segment.
abbrev pub remove_first : Segments → Segments
remove_first [] = []
remove_first (x ∷ xs) = xs

unfoldable pub is_wildcard_path_valid_for_request_path : Segments → Segments → Bool
is_wildcard_path_valid_for_request_path wildcard_path request_path =
    starts_with request_path wildcard_path
    || ends_with wildcard_path path_dir_separator && starts_with request_path (pop wildcard_path)

-- The three `if`s of `strip_path_affixes`.
abbrev pub strip_prefix : Segments → Segments
strip_prefix p = if is_some_eq (first p) path_prefix then remove_first p else p

abbrev pub strip_terminator : Segments → Segments
strip_terminator p =
    if ends_with p exact_path_terminator || ends_with p wildcard_path_terminator then pop p else p

abbrev pub strip_separator : Segments → Segments
strip_separator p =
    if ltb 1 (length p) && is_some_eq (first p) path_dir_separator then remove_first p else p

unfoldable pub strip_path_affixes : Segments → Segments
strip_path_affixes p = strip_separator (strip_terminator (strip_prefix p))

-- The condition of the `while` loop, and what its body does to the path.
unfoldable pub continues : Segments → Segments → Bool
continues p responding =
    ltb (length responding) (length p) || not (option_eq (last p) (last responding))

unfoldable pub next_path : Segments → Segments
next_path p = if ends_with p path_dir_separator then pop p else push (pop p) path_dir_separator

-- The loop, on fuel: `none` when the fuel is used up.
unfoldable pub wildcards : ℕ → Segments → Segments → Option (List Segments)
wildcards zero p responding = none
wildcards (suc fuel) p responding =
    let rest = wildcards fuel (next_path p) responding in
    if continues p responding
    then elim rest [ none ↦ none | some ps ↦ some (push p wildcard_path_terminator ∷ ps) ]
    else some []

-- The responding path that the loop compares with.
unfoldable pub responding_for : Segments → Segments → Segments
responding_for potential responding =
    if is_wildcard_path_valid_for_request_path responding potential then responding else []

unfoldable pub more_specific_wildcards_for : Segments → Segments → Option (List Segments)
more_specific_wildcards_for requested_path responding_wildcard_path =
    let potential = strip_path_affixes requested_path in
    wildcards (3 + 2 * length potential) potential
      (responding_for potential (strip_path_affixes responding_wildcard_path))
