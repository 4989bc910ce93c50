-- ===== src/Protocol/Address/Laws.antt =====
-- What `Address::parse_from_buf` answers on every buffer, by the layout.
use rust.Prelude.{
  ℕ, zero, suc, ◌+◌, ◌/◌, ◌%◌, ◌≤◌, ◌<◌, Option, ◌≡◌, ◌≢◌, inl, inr, refl, ◌∙◌, false, some, List,
  [], ◌∷◌, ◌++◌, arith, length, length-append, append_assoc, Bool-cases, All-append_right,
}
use rust.Error.{Result, ok, err, invalid_utf8, invalid_address_type}
use rust.Bytes.{be16, to_be16, AreBytes, IsByte, valid_utf8}
use rust.Bytes.Laws.{from_utf8-some, from_utf8-none, be16-to_be16}
use rust.Protocol.Address.{
  Address, ipv4, ipv6, domain, v4, v6, parse_from_buf, need_more, type_domain, type_ipv4, type_ipv6,
  parse_domain,
}
use rust.Protocol.Address.Wire.{
  IsWire, wire, V4View, V6View, DomainView, v4_view, v6_view, domain_view,
}
use rust.Protocol.Address.Parse.{
  parse_ipv4-short, parse_ipv4-full, parse_ipv6-short, parse_ipv6-full, parse_domain-short,
  parse_domain-full,
}

-- An address on the wire is read back with its length, whatever follows it.
pub parse_from_buf-wire :
    (a : Address) (rest : List ℕ)
    → IsWire a
    → parse_from_buf (wire a ++ rest) ≡ ok (a, some (length (wire a)))
unfolding parse_from_buf wire
parse_from_buf-wire (ipv4 (v4 ip p)) rest h =
    parse_ipv4-full ip.a ip.b ip.c ip.d _ _ rest ∙ ground (arith, be16-to_be16 p)
parse_from_buf-wire (ipv4 (v6 ip p flow scope)) rest h = elim h [ ]
parse_from_buf-wire (ipv6 (v4 ip p)) rest h = elim h [ ]
parse_from_buf-wire (ipv6 (v6 ip p flow scope)) rest h =
    parse_ipv6-full _ _ _ _ _ _ _ _ _ _ _ _ _ _ _ _ _ _ rest ∙ ground arith
parse_from_buf-wire (domain name p) rest h = rw append_assoc (
    parse_domain-full (length name) name _ _ rest refl
    ∙ rw (from_utf8-some name h.0) (ground (arith, length-append name (to_be16 p))))

-- A buffer that ends before its address does.
pub data Part (buf : List ℕ) : Type 0 where
  nothing : buf ≡ [] → Part buf
  in_ipv4 : (p : List ℕ) → buf ≡ type_ipv4 ∷ p → length p < 6 → Part buf
  no_length : buf ≡ type_domain ∷ [] → Part buf
  in_domain : (n : ℕ) (t : List ℕ) → buf ≡ type_domain ∷ n ∷ t → length t < n + 2 → Part buf
  in_ipv6 : (p : List ℕ) → buf ≡ type_ipv6 ∷ p → length p < 18 → Part buf

-- The four answers, each with what the buffer then holds.
pub data Outcome (buf : List ℕ) : Result (Address × Option ℕ) → Type 0 where
  incomplete : Part buf → Outcome buf need_more
  complete :
      (a : Address) (n : ℕ) (rest : List ℕ)
      → IsWire a
      → n ≡ length (wire a)
      → buf ≡ wire a ++ rest
      → Outcome buf (ok (a, some n))
  bad_type :
      (t : ℕ) (rest : List ℕ)
      → buf ≡ t ∷ rest
      → t ≢ 1
      → t ≢ 3
      → t ≢ 4
      → Outcome buf (err (invalid_address_type t))
  bad_utf8 :
      (name : List ℕ) (rest : List ℕ)
      → buf ≡ type_domain ∷ length name ∷ (name ++ rest)
      → valid_utf8 name ≡ false
      → 2 ≤ length rest
      → Outcome buf (err invalid_utf8)

module _ (hi lo : ℕ) (b : IsByte lo) where
  be16_hi : be16 hi lo / 256 ≡ hi
  be16_hi = omega arith

  be16_lo : be16 hi lo % 256 ≡ lo
  be16_lo = omega arith

ipv4-Outcome : (p : List ℕ) → V4View p → AreBytes p → Outcome (1 ∷ p) (parse_from_buf (1 ∷ p))
unfolding parse_from_buf wire
ipv4-Outcome p (V4View.short h) b = rw (parse_ipv4-short p h) (incomplete (in_ipv4 p refl h))
ipv4-Outcome _ (V4View.full a b c d hi lo rest) h = rw (parse_ipv4-full a b c d hi lo rest) (
    complete _ _ rest (omega arith) refl
      (rw (be16_hi hi lo (omega arith), be16_lo hi lo (omega arith))))

ipv6-Outcome : (p : List ℕ) → V6View p → AreBytes p → Outcome (4 ∷ p) (parse_from_buf (4 ∷ p))
unfolding parse_from_buf wire
ipv6-Outcome p (V6View.short h) b = rw (parse_ipv6-short p h) (incomplete (in_ipv6 p refl h))
ipv6-Outcome _ (V6View.full a0 b0 a1 b1 a2 b2 a3 b3 a4 b4 a5 b5 a6 b6 a7 b7 hi lo rest) h =
    rw (parse_ipv6-full a0 b0 a1 b1 a2 b2 a3 b3 a4 b4 a5 b5 a6 b6 a7 b7 hi lo rest)
      (complete _ _ rest (omega arith) refl (ground arith))

domain-Outcome : (p : List ℕ) → DomainView p → AreBytes p → Outcome (3 ∷ p) (parse_from_buf (3 ∷ p))
unfolding parse_from_buf wire
domain-Outcome _ DomainView.none h = unfold parse_domain in incomplete (no_length refl)
domain-Outcome _ (DomainView.short n t) h =
    rw (parse_domain-short n _ t) (incomplete (in_domain n _ refl t))
domain-Outcome _ (DomainView.full n name hi lo rest e f) h =
    rw (f, parse_domain-full n name hi lo rest e)
      (elim (Bool-cases (valid_utf8 name)) [
        | inl good ↦ rw (from_utf8-some name good) (
            complete (domain name (be16 hi lo)) _ rest (good, omega arith, omega (arith, word))
              (omega (arith, length-append name (to_be16 (be16 hi lo))))
              (rw (be16_hi hi lo word.1.0, be16_lo hi lo word.1.0, append_assoc, e)))
        | inr bad ↦
            rw (from_utf8-none name bad) (bad_utf8 name (hi ∷ lo ∷ rest) (rw e) bad (omega arith))
      ])
  where
    word : AreBytes (hi ∷ lo ∷ rest)
    word = All-append_right IsByte name (hi ∷ lo ∷ rest) (rw f at h.1)

pub parse_from_buf_bad_type :
    (t : ℕ) (p : List ℕ)
    → t ≢ 1
    → t ≢ 3
    → t ≢ 4
    → parse_from_buf (t ∷ p) ≡ err (invalid_address_type t)
unfolding parse_from_buf
parse_from_buf_bad_type t p h3 h4 h5 = ground arith

pub parse_from_buf_bad_utf8 :
    (name rest : List ℕ)
    → valid_utf8 name ≡ false
    → 2 ≤ length rest
    → parse_from_buf (type_domain ∷ length name ∷ (name ++ rest)) ≡ err invalid_utf8
unfolding parse_from_buf
parse_from_buf_bad_utf8 name (hi ∷ lo ∷ rest) bad h =
    parse_domain-full (length name) name hi lo rest refl ∙ rw (from_utf8-none name bad)
parse_from_buf_bad_utf8 name _ bad h = absurd (omega arith)

from_buf-Outcome_at :
    (t : ℕ) (p : List ℕ) → AreBytes (t ∷ p) → Outcome (t ∷ p) (parse_from_buf (t ∷ p))
from_buf-Outcome_at (suc zero) p h = ipv4-Outcome p (v4_view p) h.1
from_buf-Outcome_at (suc (suc (suc zero))) p h = domain-Outcome p (domain_view p) h.1
from_buf-Outcome_at (suc (suc (suc (suc zero)))) p h = ipv6-Outcome p (v6_view p) h.1
from_buf-Outcome_at t p h =
    rw (parse_from_buf_bad_type t p (omega arith) (omega arith) (omega arith))
      (bad_type t p refl (omega arith) (omega arith) (omega arith))

-- On a buffer of bytes the parser gives one of the four answers, and each is the truth about the
-- buffer.
pub parse_from_buf-Outcome : (buf : List ℕ) → AreBytes buf → Outcome buf (parse_from_buf buf)
parse_from_buf-Outcome [] h = unfold parse_from_buf in incomplete (nothing refl)
parse_from_buf-Outcome (t ∷ p) h = from_buf-Outcome_at t p h
