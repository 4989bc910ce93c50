-- ===== src/Exec/Inversion.antt =====
-- What a successful run says of its parts.
use rust.Prelude.{◌≡◌, refl, ap}
use rust.Error.{TrojanError, Result, ok, err, panic}
use rust.Exec.{
  Io, Exec, IoResult, done, failed, pure, raise, lift, await_io, perform, from_io, continue, ◌>>=◌,
}

from_io-eq-ok : {A : Type 0} (r : IoResult A) {a : A} → from_io r ≡ ok a → r ≡ done a
from_io-eq-ok (done a) e = cc
from_io-eq-ok (failed x) e = cc

pub done-injective : {A : Type 0} {a b : A} → done a ≡ done b → a ≡ b
done-injective e = cc

pub ok-injective : {A : Type 0} {a b : A} → ok a ≡ ok b → a ≡ b
ok-injective e = cc

module _ {S A : Type 0} where
  pub lift-eq-ok : (r : Result A) {a : A} {s t : S} → lift r s ≡ (ok a, t) → (r ≡ ok a) × (s ≡ t)
  unfolding lift
  lift-eq-ok r e = (ap (λ p. p.0) e, ap (λ p. p.1) e)

  pub pure-eq-ok : (a : A) {b : A} {s t : S} → pure a s ≡ (ok b, t) → (a ≡ b) × (s ≡ t)
  unfolding pure
  pure-eq-ok a e = (ok-injective (ap (λ p. p.0) e), ap (λ p. p.1) e)

  pub raise-ne-ok : (e : TrojanError) (s : S) {a : A} {t : S} → raise e s ≡ (ok a, t) → ⊥
  unfolding raise
  raise-ne-ok e s p = cc (ap (λ q. q.0) p)

  pub await_io-eq-ok : (m : Io S A) {a : A} {s t : S} → await_io m s ≡ (ok a, t) → m s ≡ (done a, t)
  unfolding await_io
  await_io-eq-ok m e = λ i. (from_io-eq-ok _ (ap (λ p. p.0) e) i, (ap (λ p. p.1) e) i)

  pub perform-eq-ok : (m : S → A × S) {a : A} {s t : S} → perform m s ≡ (ok a, t) → m s ≡ (a, t)
  unfolding perform
  perform-eq-ok m e = λ i. (ok-injective (ap (λ p. p.0) e) i, (ap (λ p. p.1) e) i)

module _ {S A B : Type 0} where
  continue-eq-ok :
      (r : Result A) (f : A → Exec S B) (s : S) {b : B} {t : S}
      → continue r f s ≡ (ok b, t)
      → (a : A) × (r ≡ ok a) × (f a s ≡ (ok b, t))
  continue-eq-ok (ok a) f s e = (a, refl, e)
  continue-eq-ok (err x) f s e = cc (ap (λ q. q.0) e)
  continue-eq-ok panic f s e = cc (ap (λ q. q.0) e)

  -- A successful bind: its first action returned something, and the rest ran from what that left.
  pub >>=-cases {ℓ} :
      {G : Type ℓ} (m : Exec S A) (f : A → Exec S B) (s : S) {b : B} {t : S}
      → (m >>= f) s ≡ (ok b, t)
      → ((a : A) (u : S) → m s ≡ (ok a, u) → f a u ≡ (ok b, t) → G)
      → G
  unfolding ◌>>=◌
  >>=-cases m f s e k =
      let (a, p, q) = continue-eq-ok (m s).0 f (m s).1 e in k a (m s).1 (λ i. (p i, (m s).1)) q
