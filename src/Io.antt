-- ===== src/Io.antt =====
-- tokio's `AsyncReadExt`, which the program calls and does not implement: an interface, and what
-- its documentation says of a stream whose bytes end without another error.
pub mod Memory
pub mod Finite
pub mod Extension
use rust.Prelude.{ℕ, List}
use rust.Exec.{Io}

-- `read n` is one `read` into a buffer of `n` bytes: the bytes that it put there.
pub record AsyncRead : Type 1 where
  pub Stream : Type 0
  pub read : ℕ → Io Stream (List ℕ)
  pub read_exact : ℕ → Io Stream (List ℕ)
  pub read_u8 : Io Stream ℕ
  pub read_u16 : Io Stream ℕ
  pub read_u64 : Io Stream ℕ
