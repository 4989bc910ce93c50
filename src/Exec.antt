-- ===== src/Exec.antt =====
-- Async functions that change a stream or the world and may fail: what was read or written before
-- an error stays so, and the state comes back beside the error.
pub mod Simulates
pub mod Inversion
pub mod Panics
use rust.Prelude.{◌≡◌, refl}
use rust.Error.{IoError, TrojanError, io, Result, ok, err, panic}

-- What an operation of the operating system or of tokio returns, `std::io::Result<A>`.
pub data IoResult {ℓ} (A : Type ℓ) : Type ℓ where
  done : A → IoResult A
  failed : IoError → IoResult A

abbrev pub Io : Type 0 → Type 0 → Type 0
Io S A = S → IoResult A × S

abbrev pub Exec : Type 0 → Type 0 → Type 0
Exec S A = S → Result A × S

-- `result?` on an `io::Result`: the error becomes `TrojanError::Io`.
abbrev pub from_io {ℓ} : {A : Type ℓ} → IoResult A → Result A
from_io (done a) = ok a
from_io (failed e) = err (io e)

-- `result.map_err(f)?`
abbrev pub map_err {ℓ} : {A : Type ℓ} → (IoError → TrojanError) → IoResult A → Result A
map_err f (done a) = ok a
map_err f (failed e) = err (f e)

module _ {S A : Type 0} where
  pub pure : A → Exec S A
  pure a s = (ok a, s)

  pub raise : TrojanError → Exec S A
  raise e s = (err e, s)

  pub lift : Result A → Exec S A
  lift r s = (r, s)

  -- `operation.await?`
  pub await_io : Io S A → Exec S A
  await_io m s = let (r, s') = m s in (from_io r, s')

  -- `operation.await.map_err(f)?`
  pub await_or : (IoError → TrojanError) → Io S A → Exec S A
  await_or f m s = let (r, s') = m s in (map_err f r, s')

module _ {S A : Type 0} (a : A) (s : S) where
  pub pure_ok : (pure a s).0 ≡ ok a
  unfolding pure
  pure_ok = refl

  pub pure_state : (pure a s).1 ≡ s
  unfolding pure
  pure_state = refl

-- An operation that cannot fail.
pub perform : {S A : Type 0} → (S → A × S) → Exec S A
perform m s = let (a, s') = m s in (ok a, s')

-- The outcome of an action as a value.
pub attempt : {S A : Type 0} → Exec S A → Exec S (Result A)
attempt m s = let (r, s') = m s in (ok r, s')

-- `match operation.await { Ok(..) => .., Err(..) => .. }`: the code looks at the outcome itself.
pub await_result : {S A : Type 0} → Io S A → Exec S (IoResult A)
await_result m s = let (r, s') = m s in (ok r, s')

module _ {S A B : Type 0} where
  abbrev pub continue : Result A → (A → Exec S B) → Exec S B
  continue (ok a) f s = f a s
  continue (err e) f s = (err e, s)
  continue panic f s = (panic, s)

  infixl 5 ◌>>=◌ ◌>>◌
  -- Opening this opens the actions above too.
  unfoldable pub ◌>>=◌ : Exec S A → (A → Exec S B) → Exec S B
  unfolding pure raise lift await_io await_or perform attempt await_result
  ◌>>=◌ m f s = let (r, s') = m s in continue r f s'

  abbrev pub ◌>>◌ : Exec S A → Exec S B → Exec S B
  m >> n = m >>= λ _. n
