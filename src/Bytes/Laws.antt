-- ===== src/Bytes/Laws.antt =====
-- Laws of indexing, slicing and comparison of byte lists.
use rust.Prelude.{
  ℕ, zero, suc, ◌+◌, ◌-◌, ◌/◌, ◌%◌, ◌≡◌, ◌↔◌, refl, true, some, none, false, List, [], ◌∷◌, ◌++◌,
  arith, length, length-append, drop-append, take-append, map,
}
use rust.Error.{ok}
use rust.Bytes.{
  IsByte, IsU16, AreBytes, be16, to_be16, index, slice, slice_from, bytes_eq, from_utf8, valid_utf8,
  eq_ignore_ascii_case, to_ascii_lowercase,
}

pub be16-to_be16 : (n : ℕ) → be16 (n / 256) (n % 256) ≡ n
be16-to_be16 n = omega arith

pub to_be16-be16 : (hi lo : ℕ) → IsByte lo → to_be16 (be16 hi lo) ≡ hi ∷ lo ∷ []
to_be16-be16 hi lo h = ground arith

pub AreBytes-to_be16 : (n : ℕ) → IsU16 n → AreBytes (to_be16 n)
AreBytes-to_be16 n h = omega arith

-- The first index behind a prefix.
pub index-append :
    (xs : List ℕ) (y : ℕ) (ys : List ℕ) (i : ℕ) → length xs ≡ i → index (xs ++ y ∷ ys) i ≡ ok y
unfolding index
index-append [] y ys zero e = refl
index-append [] y ys (suc i) e = absurd (omega arith)
index-append (x ∷ xs) y ys zero e = absurd (omega arith)
index-append (x ∷ xs) y ys (suc i) e = index-append xs y ys i (omega arith)

pub slice_from-append : (xs ys : List ℕ) (n : ℕ) → length xs ≡ n → slice_from (xs ++ ys) n ≡ ok ys
unfolding slice_from
slice_from-append xs ys n e = rw (drop-append xs ys n e) (ground (arith, length-append xs ys))

pub slice-append :
    (xs ys zs : List ℕ) (m n : ℕ)
    → length xs ≡ m
    → m + length ys ≡ n
    → slice (xs ++ (ys ++ zs)) m n ≡ ok ys
unfolding slice
slice-append xs ys zs m n e f =
    rw (drop-append xs (ys ++ zs) m e, take-append ys zs (n - m) (omega arith))
      (ground (arith, length-append xs (ys ++ zs), length-append ys zs))

pub bytes_eq_iff : (a b : List ℕ) → (bytes_eq a b ≡ true) ↔ (a ≡ b)
unfolding bytes_eq
bytes_eq_iff [] [] = ground arith
bytes_eq_iff [] (b ∷ bs) = ground arith
bytes_eq_iff (a ∷ l) [] = ground arith
bytes_eq_iff (a ∷ l) (b ∷ bs) = ground (arith, bytes_eq_iff l bs)

pub bytes_eq_refl : (a : List ℕ) → bytes_eq a a ≡ true
bytes_eq_refl a = (bytes_eq_iff a a).1 refl

pub from_utf8-some : (l : List ℕ) → valid_utf8 l ≡ true → from_utf8 l ≡ some l
unfolding from_utf8
from_utf8-some l h = rw h

pub from_utf8-none : (l : List ℕ) → valid_utf8 l ≡ false → from_utf8 l ≡ none
unfolding from_utf8
from_utf8-none l h = rw h

-- Comparing without case is equality of the lower-case bytes.
pub eq_ignore_ascii_case_iff :
    (a b : List ℕ)
    → (eq_ignore_ascii_case a b ≡ true) ↔ (map to_ascii_lowercase a ≡ map to_ascii_lowercase b)
unfolding eq_ignore_ascii_case
eq_ignore_ascii_case_iff [] [] = ground arith
eq_ignore_ascii_case_iff [] (b ∷ bs) = ground arith
eq_ignore_ascii_case_iff (a ∷ l) [] = ground arith
eq_ignore_ascii_case_iff (a ∷ l) (b ∷ bs) = ground (arith, eq_ignore_ascii_case_iff l bs)

pub eq_ignore_ascii_case_refl : (a : List ℕ) → eq_ignore_ascii_case a a ≡ true
eq_ignore_ascii_case_refl a = (eq_ignore_ascii_case_iff a a).1 refl
