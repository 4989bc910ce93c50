-- ===== src/Io/Memory/Laws.antt =====
-- The reads of a byte slice: what they take, and what a successful one says of the slice.
use rust.Prelude.{
  ℕ, ◌≤◌, ◌<◌, ◌≡◌, refl, sym, ap, ◌∙◌, List, [], ◌∷◌, ◌++◌, arith, length, take, drop, le→ltb,
  lt→ltb, ltb, ltb→le, ltb→lt, length-append, take-append, drop-append, take-append-drop,
  length-take_le, Bool-cases, inl, inr,
}
use rust.Error.{unexpected_eof}
use rust.Exec.{done, failed}
use rust.Bytes.{be16}
use rust.Io.Memory.{read_exact, read_u8, read_u16}

-- Reading exactly a part that stands in front.
pub read_exact-append :
    (xs ys : List ℕ) (n : ℕ) → length xs ≡ n → read_exact n (xs ++ ys) ≡ (done xs, ys)
unfolding read_exact
read_exact-append xs ys n e = rw (
  le→ltb (length (xs ++ ys)) n (omega (arith, length-append xs ys)),
  take-append xs ys n e,
  drop-append xs ys n e,
)

pub read_exact_long :
    (n : ℕ) (l : List ℕ) → n ≤ length l → read_exact n l ≡ (done (take n l), drop n l)
unfolding read_exact
read_exact_long n l h = rw (le→ltb _ _ h)

pub read_exact_short :
    (n : ℕ) (l : List ℕ) → length l < n → read_exact n l ≡ (failed unexpected_eof, [])
unfolding read_exact
read_exact_short n l h = rw (lt→ltb _ _ h)

pub read_u16_short : (l : List ℕ) → length l < 2 → read_u16 l ≡ (failed unexpected_eof, [])
unfolding read_u16
read_u16_short (a ∷ b ∷ l) h = absurd (omega arith)
read_u16_short _ h = refl

pub read_exact-eq-done :
    (n : ℕ) (l : List ℕ) {x rest : List ℕ}
    → read_exact n l ≡ (done x, rest)
    → (l ≡ x ++ rest) × (length x ≡ n)
read_exact-eq-done n l {x} {rest} e = elim (Bool-cases (ltb (length l) n)) [
  | inl less ↦ cc (ap (λ p. p.0) (sym (read_exact_short n l (ltb→lt _ _ less)) ∙ e))
  | inr more ↦
      let enough = ltb→le _ _ more in
      let both = sym (read_exact_long n l enough) ∙ e in
      let got : take n l ≡ x = cc (ap (λ p. p.0) both) in
      let left : drop n l ≡ rest = ap (λ p. p.1) both in
      (rw (← got, ← left) (sym (take-append-drop n l)), rw (← got) (length-take_le n l enough))
]

pub read_u8-eq-done :
    (l : List ℕ) {b : ℕ} {rest : List ℕ} → read_u8 l ≡ (done b, rest) → l ≡ b ∷ rest
unfolding read_u8
read_u8-eq-done [] e = cc (ap (λ p. p.0) e)
read_u8-eq-done (c ∷ l) {b} {rest} e =
    let got : c ≡ b = cc (ap (λ p. p.0) e) in
    let left : l ≡ rest = ap (λ p. p.1) e in rw (got, left)

pub read_u16-eq-done :
    (l : List ℕ) {n : ℕ} {rest : List ℕ}
    → read_u16 l ≡ (done n, rest)
    → (hi lo : ℕ) × (n ≡ be16 hi lo) × (l ≡ hi ∷ lo ∷ rest)
unfolding read_u16
read_u16-eq-done (hi ∷ lo ∷ l) {n} {rest} e =
    let got : be16 hi lo ≡ n = cc (ap (λ p. p.0) e) in
    let left : l ≡ rest = ap (λ p. p.1) e in (hi, lo, sym got, rw left)
read_u16-eq-done _ e = cc (ap (λ p. p.0) e)
