-- ===== src/Io/Finite.antt =====
-- What the documentation of `AsyncReadExt` promises of a stream that holds some bytes and then
-- ends: the exact reads are those of a byte slice, and one `read` gives a part of what is left.
use rust.Prelude.{
  ℕ, zero, suc, ◌≤◌, ◌<◌, ◌≡◌, refl, sym, List, [], ◌∷◌, ◌++◌, arith, length, length-take, take,
  drop, take-append-drop,
}
use rust.Exec.{done}
use rust.Exec.Simulates.{SimulatesIo}
use rust.Io.{AsyncRead}
use rust.Io.Memory
use rust.Io.Memory.{memory}

-- What one `read` into a buffer of `n` bytes may give: a part of what is left, and nothing only
-- where nothing is left or wanted.
pub record IsChunk (n : ℕ) (before chunk after : List ℕ) : Type 0 where
  pub split : before ≡ chunk ++ after
  pub fits : length chunk ≤ n
  pub progress : 0 < n → chunk ≡ [] → before ≡ []

pub record IsFinite (r : AsyncRead) : Type 0 where
  pub pending : r.Stream → List ℕ
  pub read_chunk :
      (n : ℕ) (s : r.Stream)
      → (b : List ℕ) × ((r.read n s).0 ≡ done b) × IsChunk n (pending s) b (pending (r.read n s).1)
  pub exact_lem : (n : ℕ) → SimulatesIo pending (r.read_exact n) (Memory.read_exact n)
  pub u8_lem : SimulatesIo pending r.read_u8 Memory.read_u8
  pub u16_lem : SimulatesIo pending r.read_u16 Memory.read_u16
  pub u64_lem : SimulatesIo pending r.read_u64 Memory.read_u64

pub take-IsChunk : (n : ℕ) (l : List ℕ) → IsChunk n l (take n l) (drop n l)
take-IsChunk n l = record {
  split = sym (take-append-drop n l);
  fits = omega (arith, length-take n l);
  progress = λ h e. empty_take n l h e;
}
  where
    empty_take : (n : ℕ) (l : List ℕ) → 0 < n → take n l ≡ [] → l ≡ []
    empty_take zero l h e = absurd (omega arith)
    empty_take (suc n) [] h e = refl
    empty_take (suc n) (x ∷ l) h e = cc

-- The byte slice is such a stream.
unfoldable pub memory_finite : IsFinite memory
unfolding Memory.read
memory_finite = record {
  pending = λ l. l;
  read_chunk = λ n l. (take n l, refl, take-IsChunk n l);
  exact_lem = λ n. record { result = λ s. refl; state = λ s. refl };
  u8_lem = record { result = λ s. refl; state = λ s. refl };
  u16_lem = record { result = λ s. refl; state = λ s. refl };
  u64_lem = record { result = λ s. refl; state = λ s. refl };
}
