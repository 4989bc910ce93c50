-- ===== src/Io/Extension.antt =====
-- tokio's blanket `impl AsyncReadExt for R: AsyncRead`: the exact reads of every stream that has a
-- plain read, and what they promise where the plain read gives parts of a finite stream.
use rust.Prelude.{ℕ, List, ◌≡◌}
use rust.Exec.{Io, done}
use rust.Io.{AsyncRead}
use rust.Io.Finite.{IsChunk, IsFinite}

pub record AsyncReadExt : Type 1 where
  pub read_exact : {S : Type 0} → (ℕ → Io S (List ℕ)) → ℕ → Io S (List ℕ)
  pub read_u8 : {S : Type 0} → (ℕ → Io S (List ℕ)) → Io S ℕ
  pub read_u16 : {S : Type 0} → (ℕ → Io S (List ℕ)) → Io S ℕ
  pub read_u64 : {S : Type 0} → (ℕ → Io S (List ℕ)) → Io S ℕ

-- The reader that a plain read makes.
abbrev pub reader : AsyncReadExt → (S : Type 0) → (ℕ → Io S (List ℕ)) → AsyncRead
reader ext S read = record {
  Stream = S;
  read = read;
  read_exact = ext.read_exact read;
  read_u8 = ext.read_u8 read;
  read_u16 = ext.read_u16 read;
  read_u64 = ext.read_u64 read;
}

-- Each plain read takes a part of what is left.
pub record IsChunked {S : Type 0} (pending : S → List ℕ) (read : ℕ → Io S (List ℕ)) : Type 0 where
  pub chunk :
      (n : ℕ) (s : S)
      → (b : List ℕ) × ((read n s).0 ≡ done b) × IsChunk n (pending s) b (pending (read n s).1)

pub record IsExact (ext : AsyncReadExt) : Type 1 where
  pub finite :
      (S : Type 0) (read : ℕ → Io S (List ℕ)) (pending : S → List ℕ)
      → IsChunked pending read
      → (fin : IsFinite (reader ext S read)) × ((s : S) → fin.pending s ≡ pending s)
