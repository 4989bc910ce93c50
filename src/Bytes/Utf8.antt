-- ===== src/Bytes/Utf8.antt =====
-- UTF-8 texts are made of bytes.
use rust.Prelude.{
  ℕ, zero, suc, ◌≤◌, ◌≡◌, refl, true, some, List, [], ◌∷◌, all, arith, Option-cases, inl, inr,
}
use rust.Bytes.{IsByte, AreBytes, is_ascii_hexdigit, valid_utf8, utf8_run, utf8_step, utf8_lead}

utf8_step-IsByte :
    (need lo hi b n l h : ℕ)
    → hi ≤ 255
    → utf8_step need lo hi b ≡ some (n, l, h)
    → IsByte b × (h ≤ 255)
unfolding utf8_step
utf8_step-IsByte zero lo hi b n l h hh e = ground arith
utf8_step-IsByte (suc k) lo hi b n l h hh e = ground arith

utf8_run-AreBytes :
    (bs : List ℕ) (need lo hi : ℕ) → hi ≤ 255 → utf8_run need lo hi bs ≡ true → AreBytes bs
unfolding utf8_run
utf8_run-AreBytes [] need lo hi hh e = tt
utf8_run-AreBytes (b ∷ bs) need lo hi hh e = elim (Option-cases (utf8_step need lo hi b)) [
  | inl q ↦ cc (rw (q, utf8_run) at e)
  | inr ((n, l, h), q) ↦
      let (byte, top) = utf8_step-IsByte need lo hi b n l h hh q in
      (byte, utf8_run-AreBytes bs n l h top (rw (q, utf8_run) at e))
]

pub valid_utf8-AreBytes : (l : List ℕ) → valid_utf8 l ≡ true → AreBytes l
unfolding valid_utf8
valid_utf8-AreBytes l h = utf8_run-AreBytes l 0 0 0 (omega arith) h

hexdigit-utf8_step : (c : ℕ) → is_ascii_hexdigit c ≡ true → utf8_step 0 0 0 c ≡ some (0, 0, 0)
unfolding utf8_step utf8_lead is_ascii_hexdigit
hexdigit-utf8_step c h = ground arith

hex-utf8_run : (l : List ℕ) → all is_ascii_hexdigit l ≡ true → utf8_run 0 0 0 l ≡ true
unfolding utf8_run
hex-utf8_run [] h = refl
hex-utf8_run (c ∷ l) h =
    let (digit, rest) : (is_ascii_hexdigit c ≡ true) × (all is_ascii_hexdigit l ≡ true) =
      ground arith in
    rw (hexdigit-utf8_step c digit, utf8_run) (hex-utf8_run l rest)

-- Hexadecimal digits are a text.
pub hex-valid_utf8 : (l : List ℕ) → all is_ascii_hexdigit l ≡ true → valid_utf8 l ≡ true
unfolding valid_utf8
hex-valid_utf8 l h = hex-utf8_run l h
