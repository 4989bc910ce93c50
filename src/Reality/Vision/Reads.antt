-- ===== src/Reality/Vision/Reads.antt =====
-- What a fresh timestamp is, and what the reads of a request say of the bytes they took.
use rust.Prelude.{
  ℕ, ◌+◌, ◌^◌, ◌≤◌, ◌<◌, ◌≡◌, ◌⊎◌, sym, ap, ◌∙◌, subst, false, List, [], ◌∷◌, ◌++◌, arith, length,
  All-append_left, le→ltb,
}
use rust.Error.{ok}
use rust.Bytes.{IsByte, AreBytes, from_be}
use rust.Exec.{done}
use rust.Exec.Inversion.{done-injective}
use rust.Io.Memory.{memory, read_u64}
use rust.Protocol.Address.{Address}
use rust.Protocol.Address.Wire as AddressWire
use rust.Protocol.Address.Read as AddressRead
use rust.Protocol.Address.Read.Laws.{read_from_sound, read_from-wire}
use rust.Reality.Vision.{to_be64, is_expired}

-- Within 300 seconds of the clock, or exactly 2^63 seconds ahead of it; a timestamp just below 2^64
-- counts as one before the epoch.
abbrev pub IsFresh : ℕ → ℕ → Type 0
IsFresh now t = ((now ≤ t + 300) × (t ≤ now + 300)) ⊎ (t ≡ now + 2 ^ 63) ⊎ (now + 2 ^ 64 ≤ t + 300)

pub unexpired-IsFresh :
    (now t : ℕ) → now < 2 ^ 63 → t < 2 ^ 64 → is_expired now t ≡ false → IsFresh now t
unfolding is_expired
unexpired-IsFresh now t hn ht e = ground arith

to_be64-from_be :
    (b0 b1 b2 b3 b4 b5 b6 b7 : ℕ)
    → AreBytes (b0 ∷ b1 ∷ b2 ∷ b3 ∷ b4 ∷ b5 ∷ b6 ∷ b7 ∷ [])
    → (to_be64 (from_be 0 (b0 ∷ b1 ∷ b2 ∷ b3 ∷ b4 ∷ b5 ∷ b6 ∷ b7 ∷ []))
        ≡ b0 ∷ b1 ∷ b2 ∷ b3 ∷ b4 ∷ b5 ∷ b6 ∷ b7 ∷ [])
      × (from_be 0 (b0 ∷ b1 ∷ b2 ∷ b3 ∷ b4 ∷ b5 ∷ b6 ∷ b7 ∷ []) < 2 ^ 64)
unfolding to_be64 from_be
to_be64-from_be b0 b1 b2 b3 b4 b5 b6 b7 h = ground arith

pub read_u64-eq-done :
    (l : List ℕ) {t : ℕ} {rest : List ℕ}
    → AreBytes l
    → read_u64 l ≡ (done t, rest)
    → (l ≡ to_be64 t ++ rest) × (t < 2 ^ 64)
unfolding read_u64
read_u64-eq-done (b0 ∷ b1 ∷ b2 ∷ b3 ∷ b4 ∷ b5 ∷ b6 ∷ b7 ∷ l) {t} {rest} h e =
    let (back, small) =
      to_be64-from_be b0 b1 b2 b3 b4 b5 b6 b7
        (All-append_left IsByte (b0 ∷ b1 ∷ b2 ∷ b3 ∷ b4 ∷ b5 ∷ b6 ∷ b7 ∷ []) l h) in
    let e' =
      rw (le→ltb (length (b0 ∷ b1 ∷ b2 ∷ b3 ∷ b4 ∷ b5 ∷ b6 ∷ b7 ∷ l)) 8 (omega arith)) at e in
    let got : from_be 0 (b0 ∷ b1 ∷ b2 ∷ b3 ∷ b4 ∷ b5 ∷ b6 ∷ b7 ∷ []) ≡ t =
      done-injective (ap (λ p. p.0) e') in
    let left : l ≡ rest = ap (λ p. p.1) e' in
    (
      sym (ap (λ p. p ++ l) back) ∙ (λ i. to_be64 (got i) ++ left i),
      subst (λ n. n < 2 ^ 64) got small,
    )
read_u64-eq-done _ b e = cc (ap (λ p. p.0) e)

-- The address that is read, and what is left.
pub read_from-eq-ok :
    (buf : List ℕ) {a : Address} {rest : List ℕ}
    → AreBytes buf
    → AddressRead.read_from memory buf ≡ (ok a, rest)
    → AddressWire.IsWire a × (buf ≡ AddressWire.wire a ++ rest)
read_from-eq-ok buf {a} {rest} b e =
    let (rest', w, split) = read_from_sound a buf b (ap (λ p. p.0) e) in
    let left : rest' ≡ rest = cc (e, split, read_from-wire a rest' w) in
    (w, split ∙ ap (λ l. AddressWire.wire a ++ l) left)
