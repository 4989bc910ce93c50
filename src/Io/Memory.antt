-- ===== src/Io/Memory.antt =====
-- The reader over a byte slice, `impl AsyncRead for &[u8]`: reads take from the front.
pub mod Laws
use rust.Prelude.{ℕ, List, [], ◌∷◌, ltb, if◌then◌else◌, length, take, drop}
use rust.Error.{unexpected_eof}
use rust.Exec.{Io, done, failed}
use rust.Bytes.{be16, from_be}
use rust.Io.{AsyncRead}

unfoldable pub read : ℕ → Io (List ℕ) (List ℕ)
read n l = (done (take n l), drop n l)

-- The bytes before an early end are taken too.
unfoldable pub read_exact : ℕ → Io (List ℕ) (List ℕ)
read_exact n l =
    if ltb (length l) n then (failed unexpected_eof, []) else (done (take n l), drop n l)

unfoldable pub read_u8 : Io (List ℕ) ℕ
read_u8 [] = (failed unexpected_eof, [])
read_u8 (b ∷ l) = (done b, l)

unfoldable pub read_u16 : Io (List ℕ) ℕ
read_u16 (hi ∷ lo ∷ l) = (done (be16 hi lo), l)
read_u16 _ = (failed unexpected_eof, [])

unfoldable pub read_u64 : Io (List ℕ) ℕ
read_u64 l =
    if ltb (length l) 8
    then (failed unexpected_eof, [])
    else (done (from_be 0 (take 8 l)), drop 8 l)

abbrev pub memory : AsyncRead
memory = record {
  Stream = List ℕ;
  read = read;
  read_exact = read_exact;
  read_u8 = read_u8;
  read_u16 = read_u16;
  read_u64 = read_u64;
}
