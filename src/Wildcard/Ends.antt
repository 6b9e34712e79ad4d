-- ===== src/Wildcard/Ends.antt =====
-- wildcard_paths.rs: the operations on the end of a path, on a path that is a shorter one with
-- segments added.
use response_verification.Common.{
  ◌≡◌, refl, sym, ◌∙◌, ap, ap₂, true, false, Option, none, some, [], ◌∷◌, ◌++◌, arith, Bool-cases,
  inl, inr, and_left, and_right,
}
use response_verification.Common.Bytes.{
  Bytes, compare_bytes, bytes_eq, eq_of_bytes_eq, bytes_eq_refl,
}
use response_verification.Wildcard.{
  Segments, path_dir_separator, last, pop, push, starts_with, ends_with, option_eq, next_path,
}

pub last-push : (p : Segments) (x : Bytes) → last (push p x) ≡ some x
unfolding last
last-push [] x = refl
last-push (y ∷ []) x = refl
last-push (y ∷ z ∷ p) x = last-push (z ∷ p) x

pub pop-push : (p : Segments) (x : Bytes) → pop (push p x) ≡ p
unfolding pop
pop-push [] x = refl
pop-push (y ∷ []) x = refl
pop-push (y ∷ z ∷ p) x = ap (λ s. y ∷ s) (pop-push (z ∷ p) x)

pub push-append : (p : Segments) (x : Bytes) (s : Segments) → push p x ++ s ≡ p ++ (x ∷ s)
push-append [] x s = refl
push-append (y ∷ p) x s = ap (λ z. y ∷ z) (push-append p x s)

pub append-push : (p s : Segments) (x : Bytes) → p ++ push s x ≡ push (p ++ s) x
append-push [] s x = refl
append-push (y ∷ p) s x = ap (λ z. y ∷ z) (append-push p s x)

pub append_nil : (p : Segments) → p ++ [] ≡ p
append_nil [] = refl
append_nil (x ∷ p) = ap (λ s. x ∷ s) (append_nil p)

-- A path is empty or ends in a segment.
pub pushed : (x : Bytes) (p : Segments) → (q : Segments) × (y : Bytes) × (x ∷ p ≡ push q y)
pushed x [] = ([], x, refl)
pushed x (z ∷ p) = let (q, y, e) = pushed z p in (x ∷ q, y, ap (λ s. x ∷ s) e)

-- A path that ends with a segment is one with that segment pushed.
pub push-pop : (p : Segments) (x : Bytes) → ends_with p x ≡ true → p ≡ push (pop p) x
unfolding last pop
push-pop [] x e = absurd (ground arith)
push-pop (y ∷ []) x e = ap (λ z. z ∷ []) (eq_of_bytes_eq y x e)
push-pop (y ∷ z ∷ p) x e = ap (λ s. y ∷ s) (push-pop (z ∷ p) x e)

pub starts_with-append : (p w : Segments) → starts_with p w ≡ true → (s : Segments) × (p ≡ w ++ s)
unfolding starts_with
starts_with-append p [] e = (p, refl)
starts_with-append [] (y ∷ w) e = absurd (ground arith)
starts_with-append (x ∷ p) (y ∷ w) e =
    let (s, f) = starts_with-append p w (and_right (bytes_eq x y) _ e) in
    (s, ap₂ (λ (a : Bytes) (b : Segments). a ∷ b) (eq_of_bytes_eq x y (and_left _ _ e)) f)

pub option_eq_refl : (o : Option Bytes) → option_eq o o ≡ true
option_eq_refl none = refl
option_eq_refl (some a) = bytes_eq_refl a

-- A path that ends in the separator loses it; another one has its last segment made the separator.
pub next_path-separator : (q : Segments) → next_path (push q path_dir_separator) ≡ q
unfolding next_path compare_bytes
next_path-separator q = rw (last-push q []) (pop-push q [])

pub next_path-push :
    (q : Segments) (x : Bytes)
    → bytes_eq x path_dir_separator ≡ false
    → next_path (push q x) ≡ push q path_dir_separator
unfolding next_path
next_path-push q x e = rw (last-push q x) (rw (e) (ap (λ s. push s []) (pop-push q x)))

pub next_path-append :
    (q : Segments) (x : Bytes) (s : Segments) → next_path (q ++ (x ∷ s)) ≡ q ++ next_path (x ∷ s)
next_path-append q x s =
    let (r, y, e) = pushed x s in
    rw (e) (
      rw (append-push q r y) (elim (Bool-cases (bytes_eq y path_dir_separator)) [
        | inl h ↦
            rw (eq_of_bytes_eq y [] h)
              (next_path-separator (q ++ r) ∙ sym (ap (λ z. q ++ z) (next_path-separator r)))
        | inr h ↦
            next_path-push (q ++ r) y h
            ∙ sym (append-push q r [])
            ∙ sym (ap (λ z. q ++ z) (next_path-push r y h))
      ]))
