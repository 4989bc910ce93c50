-- ===== src/Protocol/Header/Users.antt =====
-- The configured hashes as what they are for: their order, their repetitions, the case of their
-- letters and those of a wrong length are forgotten.
use mathlib.Core.Quot
use mathlib.Core.Quot.{Quot}
use mathlib.Core.Bool.{Bool-set}
use rust.Prelude.{
  ℕ, ◌≡◌, ◌↔◌, ◌⊎◌, inl, inr, refl, subst, sym, ap, ◌∙◌, Bool, true, false, List, [], ◌∷◌, arith,
  length, map,
}
use rust.Bytes.{Str, to_ascii_lowercase}
use rust.Protocol.Command.{connect}
use rust.Protocol.Address.{domain}
use rust.Protocol.Header.{Header, verify_password, password_hex_len}
use rust.Protocol.Header.Password.{IsUser, verify_password_iff}

-- One of the hashes has the right length, and this is its lower case.
abbrev pub Knows : Str → List Str → Type 0
Knows lower [] = ⊥
Knows lower (expected ∷ rest) =
    ((length expected ≡ password_hex_len) × (map to_ascii_lowercase expected ≡ lower))
    ⊎ Knows lower rest

-- The same hashes, but for all that.
abbrev pub AreSame : List Str → List Str → Type 0
AreSame l l' = (lower : Str) → Knows lower l ↔ Knows lower l'

abbrev pub Users : Type 0
Users = Quot AreSame

IsUser-Knows :
    (h : Header) (l : List Str) → IsUser h l ↔ Knows (map to_ascii_lowercase h.password_hash) l
IsUser-Knows h [] = (λ e. e, λ e. e)
IsUser-Knows h (expected ∷ rest) = (
  λ u. elim u [ inl fits ↦ inl fits | inr later ↦ inr ((IsUser-Knows h rest).0 later) ],
  λ k. elim k [ inl fits ↦ inl fits | inr later ↦ inr ((IsUser-Knows h rest).1 later) ],
)

verify_password-Knows :
    (h : Header) (l : List Str)
    → (verify_password h l ≡ true) ↔ Knows (map to_ascii_lowercase h.password_hash) l
verify_password-Knows h l = (
  λ e. (IsUser-Knows h l).0 ((verify_password_iff h l).0 e),
  λ k. (verify_password_iff h l).1 ((IsUser-Knows h l).1 k),
)

Bool-ext : (a b : Bool) → (a ≡ true → b ≡ true) → (b ≡ true → a ≡ true) → a ≡ b
Bool-ext true b f g = sym (f refl)
Bool-ext false true f g = g refl
Bool-ext false false f g = refl

verify_password-AreSame :
    (h : Header) (l l' : List Str) → AreSame l l' → verify_password h l ≡ verify_password h l'
verify_password-AreSame h l l' same =
    Bool-ext (verify_password h l) (verify_password h l')
      (λ e. (verify_password-Knows h l').1 ((same _).0 ((verify_password-Knows h l).0 e)))
      (λ e. (verify_password-Knows h l).1 ((same _).1 ((verify_password-Knows h l').0 e)))

-- Which headers the users let in.
lets_in : Header → Users → Bool
lets_in h = Quot.lift Bool-set (verify_password h) (verify_password-AreSame h)

lower_again : (c : ℕ) → to_ascii_lowercase (to_ascii_lowercase c) ≡ to_ascii_lowercase c
unfolding to_ascii_lowercase
lower_again c = ground arith

map-lower_again :
    (l : Str) → map to_ascii_lowercase (map to_ascii_lowercase l) ≡ map to_ascii_lowercase l
map-lower_again [] = refl
map-lower_again (c ∷ l) = rw (lower_again c, map-lower_again l) refl

-- What is known is in lower case.
Knows-lower : (lower : Str) (l : List Str) → Knows lower l → map to_ascii_lowercase lower ≡ lower
Knows-lower lower [] k = absurd k
Knows-lower lower (expected ∷ rest) (inl (size, e)) =
    ap (map to_ascii_lowercase) (sym e) ∙ map-lower_again expected ∙ e
Knows-lower lower (expected ∷ rest) (inr later) = Knows-lower lower rest later

-- A header with this hash.
abbrev with_hash : Str → Header
with_hash lower = record { password_hash = lower; command = connect; address = domain [] 0 }

Knows-verify_password :
    (l l' : List Str)
    → ((h : Header) → verify_password h l ≡ verify_password h l')
    → (lower : Str) → Knows lower l
    → Knows lower l'
Knows-verify_password l l' agree lower k =
    let low = Knows-lower lower l k in
    let known =
      (verify_password-Knows (with_hash lower) l).1 (subst (λ p. Knows p l) (sym low) k) in
    subst (λ p. Knows p l') low
      ((verify_password-Knows (with_hash lower) l').0 (sym (agree (with_hash lower)) ∙ known))

-- The set of the hashes of 56 bytes in lower case, a quotient of the lists of hashes, is exactly what
-- `verify_password` sees of a configuration: two lists of hashes let in the same headers just if they
-- are the same in the quotient.
pub Users_iff :
    (l l' : List Str)
    → (◌≡◌ {A = Users} (Quot.mk l) (Quot.mk l'))
      ↔ ((h : Header) → verify_password h l ≡ verify_password h l')
unfolding lets_in
Users_iff l l' = (
  λ e h. ap (lets_in h) e,
  λ agree. Quot.sound λ lower. (
    Knows-verify_password l l' agree lower,
    Knows-verify_password l' l (λ h. sym (agree h)) lower,
  ),
)
