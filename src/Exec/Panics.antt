-- ===== src/Exec/Panics.antt =====
-- When results and actions do not panic.
use rust.Prelude.{◌≡◌, refl, Option, some, none}
use rust.Error
use rust.Error.{TrojanError, IoError, Result, ok, err, panic, ok_or}
use rust.Exec.{
  Io, Exec, IoResult, done, failed, from_io, map_err, pure, raise, lift, await_io, continue, ◌>>=◌,
}

module _ {A : Type 0} where
  pub map_err-ne-panic : (f : IoError → TrojanError) (r : IoResult A) → map_err f r ≡ panic → ⊥
  map_err-ne-panic f (done a) e = cc
  map_err-ne-panic f (failed x) e = cc

  pub ok_or-ne-panic : (o : Option A) (x : TrojanError) → ok_or o x ≡ panic → ⊥
  ok_or-ne-panic (some a) x e = cc
  ok_or-ne-panic none x e = cc

  pub bind-ne-panic :
      {B : Type 0} (m : Result A) (f : A → Result B)
      → (m ≡ panic → ⊥)
      → ((a : A) → f a ≡ panic → ⊥)
      → Error.◌>>=◌ m f ≡ panic
      → ⊥
  bind-ne-panic (ok a) f hm hf e = hf a e
  bind-ne-panic (err x) f hm hf e = cc
  bind-ne-panic panic f hm hf e = hm refl

from_io-ne-panic : {A : Type 0} (r : IoResult A) → from_io r ≡ panic → ⊥
from_io-ne-panic (done a) e = cc
from_io-ne-panic (failed x) e = cc

module _ {S A : Type 0} (s : S) where
  pub raise-ne-panic : (e : TrojanError) → (raise {A = A} e s).0 ≡ panic → ⊥
  unfolding raise
  raise-ne-panic e q = cc

  pub pure-ne-panic : (a : A) → (pure a s).0 ≡ panic → ⊥
  unfolding pure
  pure-ne-panic a q = cc

module _ {S A B : Type 0} where
  continue-ne-panic :
      (r : Result A) (f : A → Exec S B) (s : S)
      → (r ≡ panic → ⊥)
      → ((a : A) → r ≡ ok a → (f a s).0 ≡ panic → ⊥)
      → (continue r f s).0 ≡ panic
      → ⊥
  continue-ne-panic (ok a) f s hm hf e = hf a refl e
  continue-ne-panic (err x) f s hm hf e = cc
  continue-ne-panic panic f s hm hf e = hm refl

  -- A read, and what follows a finished one.
  pub await-ne-panic :
      (m : Io S A) (f : A → Exec S B) (s : S)
      → ((a : A) (u : S) → m s ≡ (done a, u) → (f a u).0 ≡ panic → ⊥)
      → ((await_io m >>= f) s).0 ≡ panic
      → ⊥
  unfolding ◌>>=◌
  await-ne-panic m f s hf =
      continue-ne-panic (from_io (m s).0) f (m s).1 (from_io-ne-panic (m s).0)
        λ a e. hf a (m s).1 (λ i. (from_io-eq-ok (m s).0 e i, (m s).1))
    where
      from_io-eq-ok : (r : IoResult A) {a : A} → from_io r ≡ ok a → r ≡ done a
      from_io-eq-ok (done a) e = cc
      from_io-eq-ok (failed x) e = cc

  -- A check, and what follows it.
  pub lift-ne-panic :
      (r : Result A) (f : A → Exec S B) (s : S)
      → (r ≡ panic → ⊥)
      → ((a : A) → r ≡ ok a → (f a s).0 ≡ panic → ⊥)
      → ((lift r >>= f) s).0 ≡ panic
      → ⊥
  unfolding ◌>>=◌
  lift-ne-panic r f s hm hf = continue-ne-panic r f s hm hf

  pub >>=-ne-panic :
      (m : Exec S A) (f : A → Exec S B) (s : S)
      → ((m s).0 ≡ panic → ⊥)
      → ((a : A) (u : S) → (f a u).0 ≡ panic → ⊥)
      → ((m >>= f) s).0 ≡ panic
      → ⊥
  unfolding ◌>>=◌
  >>=-ne-panic m f s hm hf = continue-ne-panic (m s).0 f (m s).1 hm λ a e. hf a (m s).1
