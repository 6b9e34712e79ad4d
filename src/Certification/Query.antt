-- ===== src/Certification/Query.antt =====
-- hash/request_hash.rs: the filter of the query, against a description of the certified fragments.
use response_verification.Common.{
  ℕ, ◌≡◌, refl, ap, sym, ◌∙◌, Option, none, some, List, [], ◌∷◌, ◌++◌, arith, ◌⊎◌, inl, inr, true,
  false, Bool-cases, ◌==◌, subst,
}
use response_verification.Common.Bytes.{Bytes}
use response_verification.Response.Headers.Named.{IsNamed, any-IsNamed, IsNamed-any, false_of}
use response_verification.Certification.{RequestCertification}
use response_verification.Certification.RequestHash.{
  cons_first, split, join, is_certified, name_is_certified, filter_fragments, join_some,
  get_filtered_query,
}

-- No fragment has the separator.
abbrev IsFree : ℕ → Bytes → Type 0
IsFree c [] = Unit
IsFree c (x ∷ xs) = ((x == c) ≡ false) × IsFree c xs

abbrev AllFree : ℕ → List Bytes → Type 0
AllFree c [] = Unit
AllFree c (p ∷ ps) = IsFree c p × AllFree c ps

cons_first-AllFree :
    (c x : ℕ) (ps : List Bytes) → (x == c) ≡ false → AllFree c ps → AllFree c (cons_first x ps)
cons_first-AllFree c x [] e h = ((e, tt), tt)
cons_first-AllFree c x (p ∷ ps) e h = ((e, h.0), h.1)

split-AllFree : (c : ℕ) (text : Bytes) → AllFree c (split c text)
unfolding split
split-AllFree c [] = (tt, tt)
split-AllFree c (x ∷ xs) = elim (Bool-cases (x == c)) [
  | inl e ↦ rw e (tt, split-AllFree c xs)
  | inr e ↦ rw e (cons_first-AllFree c x (split c xs) e (split-AllFree c xs))
]

split-free : (c : ℕ) (p : Bytes) → IsFree c p → split c p ≡ p ∷ []
unfolding split
split-free c [] h = refl
split-free c (x ∷ p) h = rw (h.0) (rw (split-free c p h.1) refl)

split-append :
    (c : ℕ) (p rest : Bytes)
    → (c == c) ≡ true
    → IsFree c p
    → split c (p ++ (c ∷ rest)) ≡ p ∷ split c rest
unfolding split
split-append c [] rest s h = rw s refl
split-append c (x ∷ p) rest s h = rw (h.0) (rw (split-append c p rest s h.1) refl)

same_number : (c : ℕ) → (c == c) ≡ true
same_number c = ground arith

-- Fragments that are joined can be split again.
split-join :
    (c : ℕ) (p : Bytes) (ps : List Bytes) → AllFree c (p ∷ ps) → split c (join c (p ∷ ps)) ≡ p ∷ ps
unfolding join
split-join c p [] h = split-free c p h.0
split-join c p (q ∷ ps) h =
    split-append c p (join c (q ∷ ps)) (same_number c) h.0 ∙ ap (λ z. p ∷ z) (split-join c q ps h.1)

filter_fragments-AllFree :
    (c : RequestCertification) (b : ℕ) (fs : List Bytes)
    → AllFree b fs
    → AllFree b (filter_fragments c fs)
unfolding filter_fragments
filter_fragments-AllFree c b [] h = tt
filter_fragments-AllFree c b (f ∷ fs) h = elim (Bool-cases (is_certified c f)) [
  | inl e ↦ rw (e, filter_fragments) (h.0, filter_fragments-AllFree c b fs h.1)
  | inr e ↦ rw (e, filter_fragments) (filter_fragments-AllFree c b fs h.1)
]

filter_fragments_idem :
    (c : RequestCertification) (fs : List Bytes)
    → filter_fragments c (filter_fragments c fs) ≡ filter_fragments c fs
unfolding filter_fragments
filter_fragments_idem c [] = refl
filter_fragments_idem c (f ∷ fs) = ground (arith, filter_fragments_idem c fs)

-- The part of a text before the first separator, or the whole text if there is none.
abbrev pub IsHead : ℕ → Bytes → Bytes → Type 0
IsHead c name text =
    IsFree c name × ((text ≡ name) ⊎ ((rest : Bytes) × (text ≡ name ++ (c ∷ rest))))

split-IsHead :
    (c : ℕ) (name text : Bytes)
    → IsHead c name text
    → (parts : List Bytes) × (split c text ≡ name ∷ parts)
split-IsHead c name text (free, inl e) = ([], ap (split c) e ∙ split-free c name free)
split-IsHead c name text (free, inr (rest, e)) =
    (split c rest, ap (split c) e ∙ split-append c name rest (same_number c) free)

eq_of_test : (x c : ℕ) → (x == c) ≡ true → x ≡ c
eq_of_test x c e = ground arith

IsHead-cons :
    (c x : ℕ) (name text : Bytes)
    → (x == c) ≡ false
    → IsHead c name text
    → IsHead c (x ∷ name) (x ∷ text)
IsHead-cons c x name text e (free, inl f) = ((e, free), inl (ap (λ z. x ∷ z) f))
IsHead-cons c x name text e (free, inr (rest, f)) = ((e, free), inr (rest, ap (λ z. x ∷ z) f))

-- Each text has such a part.
some-IsHead : (c : ℕ) (text : Bytes) → (name : Bytes) × IsHead c name text
some-IsHead c [] = ([], (tt, inl refl))
some-IsHead c (x ∷ xs) = elim (Bool-cases (x == c)) [
  | inl e ↦ ([], (tt, inr (xs, ap (λ z. z ∷ xs) (eq_of_test x c e))))
  | inr e ↦ let (name, h) = some-IsHead c xs in (x ∷ name, IsHead-cons c x name xs e h)
]

-- The fragment's name, the part before the first `=`, is one of the certified parameters.
abbrev pub IsCertifiedFragment : RequestCertification → Bytes → Type 0
IsCertifiedFragment c fragment =
    (name : Bytes) × IsHead b'=' name fragment × IsNamed c.query_parameters name

is_certified-IsCertifiedFragment :
    (c : RequestCertification) (fragment : Bytes)
    → is_certified c fragment ≡ true
    → IsCertifiedFragment c fragment
unfolding is_certified
is_certified-IsCertifiedFragment c fragment e =
    let (name, head) = some-IsHead b'=' fragment in
    let (parts, s) = split-IsHead b'=' name fragment head in
    (name, head, any-IsNamed c.query_parameters name (sym (ap (λ z. name_is_certified z c) s) ∙ e))

IsCertifiedFragment-is_certified :
    (c : RequestCertification) (fragment : Bytes)
    → IsCertifiedFragment c fragment
    → is_certified c fragment ≡ true
unfolding is_certified
IsCertifiedFragment-is_certified c fragment (name, head, named) =
    let (parts, s) = split-IsHead b'=' name fragment head in
    ap (λ z. name_is_certified z c) s ∙ IsNamed-any c.query_parameters name named

-- The second list has, in order, exactly the elements of the first that have the property.
pub data Selects (P : Bytes → Type 0) : List Bytes → List Bytes → Type 0 where
  selected_all : Selects P [] []
  selected : {x : Bytes} {xs ys : List Bytes} → P x → Selects P xs ys → Selects P (x ∷ xs) (x ∷ ys)
  left_out : {x : Bytes} {xs ys : List Bytes} → (P x → ⊥) → Selects P xs ys → Selects P (x ∷ xs) ys

pub filter_fragments-Selects :
    (c : RequestCertification) (fs : List Bytes)
    → Selects (IsCertifiedFragment c) fs (filter_fragments c fs)
unfolding filter_fragments
filter_fragments-Selects c [] = selected_all
filter_fragments-Selects c (f ∷ fs) = elim (Bool-cases (is_certified c f)) [
  | inl e ↦
      rw (e, filter_fragments)
        (selected (is_certified-IsCertifiedFragment c f e) (filter_fragments-Selects c fs))
  | inr e ↦
      rw (e, filter_fragments)
        (left_out (false_of _ (IsCertifiedFragment-is_certified c f) e)
          (filter_fragments-Selects c fs))
]

-- The fragments of a filtered query: none, or those that it splits into.
abbrev pub fragments_of : Option Bytes → List Bytes
fragments_of none = []
fragments_of (some filtered) = split b'&' filtered

-- The filtered query splits into exactly the fragments of the query, in their order, whose name, the
-- part before the first `=`, is one of the certified parameters without the case of its letters; where
-- there is no filtered query, the query has no such fragment.
pub get_filtered_query-Selects :
    (query : Bytes) (c : RequestCertification)
    → Selects (IsCertifiedFragment c) (split b'&' query) (fragments_of (get_filtered_query query c))
unfolding get_filtered_query
get_filtered_query-Selects query c =
    let fs = filter_fragments c (split b'&' query) in
    subst (λ z. Selects (IsCertifiedFragment c) (split b'&' query) z)
      (sym (joined fs (filter_fragments-AllFree c b'&' _ (split-AllFree b'&' query))))
      (filter_fragments-Selects c (split b'&' query))
  where
    joined : (fs : List Bytes) → AllFree b'&' fs → fragments_of (join_some fs) ≡ fs
    joined [] h = refl
    joined (f ∷ fs) h = split-join b'&' f fs h
