-- ===== src/Protocol/Address/Read/Laws.antt =====
-- `Address::read_from` and `Address::parse_from_buf` accept the same addresses.
use rust.Prelude.{
  ℕ, ◌+◌, ◌<◌, ◌≡◌, ◌≢◌, refl, ◌∙◌, false, some, List, ◌∷◌, ◌++◌, arith, length, append_assoc,
  drop-append, drop, length-drop, ◌↔◌, ap, subst, Option,
}
use rust.Error.{Result, ok}
use rust.Exec.{◌>>=◌}
use rust.Bytes.{to_be16, AreBytes, index, valid_utf8}
use rust.Bytes.Laws.{from_utf8-some, from_utf8-none, be16-to_be16}
use rust.Io.Memory.Laws.{read_exact-append, read_exact_long, read_exact_short, read_u16_short}
use rust.Io.Memory.{memory, read_exact, read_u8, read_u16}
use rust.Protocol.Address.{
  Address, ipv4, ipv6, domain, v4, v6, ipv4_at, ipv6_at, octets4, octets6, parse_from_buf,
  type_domain,
}
use rust.Protocol.Address.Wire.{IsWire, wire}
use rust.Protocol.Address.Laws.{
  Part, nothing, in_ipv4, no_length, in_domain, in_ipv6, Outcome, incomplete, complete, bad_type,
  bad_utf8, parse_from_buf-Outcome, parse_from_buf-wire,
}
use rust.Protocol.Address.Stability.{parse_from_buf_sound}
use rust.Protocol.Address.Read.{read_from, read_ipv4, read_domain, read_ipv6}

-- An address on the wire is read off the front of a slice.
pub read_from-wire :
    (a : Address) (rest : List ℕ) → IsWire a → read_from memory (wire a ++ rest) ≡ (ok a, rest)
unfolding read_from read_ipv4 read_domain read_ipv6 wire ◌>>=◌ read_u8 read_u16 ipv4_at ipv6_at
    index
read_from-wire (ipv4 (v4 ip p)) rest h =
    rw (read_exact-append (octets4 ip) (to_be16 p ++ rest) 4 refl) (ground arith)
read_from-wire (ipv4 (v6 ip p flow scope)) rest h = elim h [ ]
read_from-wire (ipv6 (v4 ip p)) rest h = elim h [ ]
read_from-wire (ipv6 (v6 ip p flow scope)) rest h =
    rw (read_exact-append (octets6 ip) (to_be16 p ++ rest) 16 refl) (ground arith)
read_from-wire (domain name p) rest h = rw (append_assoc) (
    rw (
      read_exact-append name (to_be16 p ++ rest) (length name) refl,
      from_utf8-some name h.0,
      be16-to_be16 p,
    ))

-- Where the buffer parser asks for more, the reader meets the end of the slice.
read_ipv4_short : (p : List ℕ) (a : Address) → length p < 6 → (read_ipv4 memory p).0 ≢ ok a
unfolding read_ipv4 ◌>>=◌ read_exact read_u16 ipv4_at index
read_ipv4_short (b0 ∷ b1 ∷ b2 ∷ b3 ∷ b4 ∷ b5 ∷ rest) a h = absurd (omega arith)
read_ipv4_short _ a h = λ e. cc

read_ipv6_short : (p : List ℕ) (a : Address) → length p < 18 → (read_ipv6 memory p).0 ≢ ok a
unfolding read_ipv6 ◌>>=◌ read_exact read_u16 ipv6_at index
read_ipv6_short
      (b0 ∷ b1 ∷ b2 ∷ b3 ∷ b4 ∷ b5 ∷ b6 ∷ b7 ∷ b8 ∷ b9 ∷ b10 ∷ b11 ∷ b12 ∷ b13 ∷ b14 ∷ b15 ∷ b16
        ∷ b17 ∷ rest)
      a h =
    absurd (omega arith)
read_ipv6_short _ a h = λ e. cc

read_domain_short :
    (n : ℕ) (t : List ℕ) (a : Address) → length t < n + 2 → (read_domain memory (n ∷ t)).0 ≢ ok a
unfolding read_domain ◌>>=◌ read_u8
read_domain_short n t a h e =
    ground
      (arith, read_exact_long n t, read_exact_short n t, read_u16_short (drop n t), length-drop n t)

read_from_bad_type :
    (t : ℕ) (p : List ℕ) (a : Address) → t ≢ 1 → t ≢ 3 → t ≢ 4 → (read_from memory (t ∷ p)).0 ≢ ok a
unfolding read_from ◌>>=◌ read_u8
read_from_bad_type t p a h1 h3 h4 = λ e. ground arith

read_from_bad_utf8 :
    (name rest : List ℕ) (a : Address)
    → valid_utf8 name ≡ false
    → (read_from memory (type_domain ∷ length name ∷ (name ++ rest))).0 ≢ ok a
unfolding read_from read_domain ◌>>=◌ read_u8
read_from_bad_utf8 name rest a h =
    λ e. ground (arith, read_exact-append name rest (length name) refl, from_utf8-none name h)

module _ (a : Address) where
  read_from-Part : (buf : List ℕ) → Part buf → (read_from memory buf).0 ≢ ok a
  unfolding read_from ◌>>=◌ read_u8
  read_from-Part buf (nothing e) = rw e (λ q. cc)
  read_from-Part buf (in_ipv4 p e h) = rw e (read_ipv4_short p a h)
  read_from-Part buf (no_length e) = rw e (unfold read_domain in λ q. cc)
  read_from-Part buf (in_domain n t e h) = rw e (read_domain_short n t a h)
  read_from-Part buf (in_ipv6 p e h) = rw e (read_ipv6_short p a h)

  -- An address that the reader returns stands at the front, in its layout.
  pub read_from_sound :
      (buf : List ℕ)
      → AreBytes buf
      → (read_from memory buf).0 ≡ ok a
      → (rest : List ℕ) × IsWire a × (buf ≡ wire a ++ rest)
  read_from_sound buf b h = go (parse_from_buf-Outcome buf b)
    where
      go :
          {r : Result (Address × Option ℕ)}
          → Outcome buf r
          → (rest : List ℕ) × IsWire a × (buf ≡ wire a ++ rest)
      go (incomplete part) = absurd (read_from-Part buf part h)
      go (complete a' n rest w len split) =
          let found = ap {B = Result Address} (λ t. t.0) (read_from-wire a' rest w) in
          let same : a' ≡ a = cc (found, rw split at h) in
          (rest, subst IsWire same w, rw (← same) split)
      go (bad_type t rest split t1 t3 t4) =
          absurd (read_from_bad_type t rest a t1 t3 t4 (rw split at h))
      go (bad_utf8 name rest split bad long) =
          absurd (read_from_bad_utf8 name rest a bad (rw split at h))

-- On a slice of bytes the reader returns an address exactly where the parser does, and then it
-- leaves what follows the bytes that the parser counted.
pub read_from_iff_parse_from_buf :
    (buf : List ℕ)
    → AreBytes buf
    → (a : Address) (rest : List ℕ)
    → (read_from memory buf ≡ (ok a, rest))
      ↔ ((n : ℕ) × (parse_from_buf buf ≡ ok (a, some n)) × (drop n buf ≡ rest))
read_from_iff_parse_from_buf buf b a rest = (parses, reads)
  where
    parses :
        read_from memory buf ≡ (ok a, rest)
        → (n : ℕ) × (parse_from_buf buf ≡ ok (a, some n)) × (drop n buf ≡ rest)
    parses h =
        let (rest', w, split) = read_from_sound a buf b (ap (λ t. t.0) h) in
        let left : rest' ≡ rest = cc (h, split, read_from-wire a rest' w) in
        (
          length (wire a),
          rw split (parse_from_buf-wire a rest' w),
          rw split (drop-append (wire a) rest' _ refl ∙ left),
        )

    reads :
        (n : ℕ) × (parse_from_buf buf ≡ ok (a, some n)) × (drop n buf ≡ rest)
        → read_from memory buf ≡ (ok a, rest)
    reads (n, h, e) =
        let (w, len, split) = parse_from_buf_sound buf b a n h in
        rw (split, e) (read_from-wire a rest w)
