-- ===== src/Protocol/Address/Wire.antt =====
-- The SOCKS5-style layout of an address on the wire, independent of the parsers: type, address
-- (a domain behind its length) and port. And the ways in which a buffer can begin.
use rust.Prelude.{
  two_of, ℕ, ◌+◌, ◌≤◌, ◌<◌, ◌≡◌, sym, true, List, [], ◌∷◌, ◌++◌, arith, length, length-append,
  All-append, take, drop, length-drop, length-take_le, take-append-drop, inl, inr, Bool-cases, ltb,
  ltb→lt, ltb→le,
}
use rust.Bytes.{IsByte, IsU16, AreBytes, valid_utf8, to_be16}
use rust.Bytes.Laws.{AreBytes-to_be16}
use rust.Bytes.Utf8.{valid_utf8-AreBytes}
use rust.Protocol.Address.{
  Address, ipv4, ipv6, domain, v4, v6, Ipv4Addr, Ipv6Addr, octets4, octets6, type_ipv4, type_domain,
  type_ipv6,
}

pub record IsIpv4 (ip : Ipv4Addr) : Type 0 where
  pub a : IsByte ip.a
  pub b : IsByte ip.b
  pub c : IsByte ip.c
  pub d : IsByte ip.d

pub record IsIpv6 (ip : Ipv6Addr) : Type 0 where
  pub s0 : IsU16 ip.s0
  pub s1 : IsU16 ip.s1
  pub s2 : IsU16 ip.s2
  pub s3 : IsU16 ip.s3
  pub s4 : IsU16 ip.s4
  pub s5 : IsU16 ip.s5
  pub s6 : IsU16 ip.s6
  pub s7 : IsU16 ip.s7

-- The addresses that have a layout: the socket address fits the variant, the numbers their width,
-- and a domain is UTF-8 of at most 255 bytes.
abbrev pub IsWire : Address → Type 0
IsWire (ipv4 (v4 ip p)) = IsIpv4 ip × IsU16 p
IsWire (ipv4 (v6 ip p flow scope)) = ⊥
IsWire (ipv6 (v6 ip p flow scope)) = IsIpv6 ip × IsU16 p × (flow ≡ 0) × (scope ≡ 0)
IsWire (ipv6 (v4 ip p)) = ⊥
IsWire (domain name p) = (valid_utf8 name ≡ true) × (length name ≤ 255) × IsU16 p

unfoldable pub wire : Address → List ℕ
unfolding octets4 octets6
wire (ipv4 (v4 ip p)) = type_ipv4 ∷ (octets4 ip ++ to_be16 p)
wire (ipv4 (v6 ip p flow scope)) = []
wire (ipv6 (v6 ip p flow scope)) = type_ipv6 ∷ (octets6 ip ++ to_be16 p)
wire (ipv6 (v4 ip p)) = []
wire (domain name p) = type_domain ∷ length name ∷ (name ++ to_be16 p)

octets4-AreBytes : (ip : Ipv4Addr) → IsIpv4 ip → AreBytes (octets4 ip)
unfolding octets4
octets4-AreBytes ip h = omega arith

octets6-AreBytes : (ip : Ipv6Addr) → IsIpv6 ip → AreBytes (octets6 ip)
unfolding octets6
octets6-AreBytes ip h = omega arith

pub wire-AreBytes : (a : Address) → IsWire a → AreBytes (wire a)
unfolding wire
wire-AreBytes (ipv4 (v4 ip p)) (h, hp) = (
  omega arith,
  All-append IsByte (octets4 ip) (to_be16 p) (octets4-AreBytes ip h) (AreBytes-to_be16 p hp),
)
wire-AreBytes (ipv4 (v6 ip p flow scope)) h = elim h [ ]
wire-AreBytes (ipv6 (v4 ip p)) h = elim h [ ]
wire-AreBytes (ipv6 (v6 ip p flow scope)) (h, hp, _, _) = (
  omega arith,
  All-append IsByte (octets6 ip) (to_be16 p) (octets6-AreBytes ip h) (AreBytes-to_be16 p hp),
)
wire-AreBytes (domain name p) (utf8, short, hp) = (
  omega arith,
  (
    omega arith,
    All-append IsByte name (to_be16 p) (valid_utf8-AreBytes name utf8) (AreBytes-to_be16 p hp),
  ),
)

-- A layout has 4 to 259 bytes.
pub length-wire : (a : Address) → IsWire a → (4 ≤ length (wire a)) × (length (wire a) ≤ 259)
unfolding wire
length-wire (ipv4 (v4 ip p)) h = omega arith
length-wire (ipv4 (v6 ip p flow scope)) h = elim h [ ]
length-wire (ipv6 (v4 ip p)) h = elim h [ ]
length-wire (ipv6 (v6 ip p flow scope)) h = omega arith
length-wire (domain name p) h = omega (arith, length-append name (to_be16 p))

-- How the part behind the type byte can begin, for each of the types.
pub data V4View : List ℕ → Type 0 where
  full : (a b c d hi lo : ℕ) (rest : List ℕ) → V4View (a ∷ b ∷ c ∷ d ∷ hi ∷ lo ∷ rest)
  short : {p : List ℕ} → length p < 6 → V4View p

pub v4_view : (p : List ℕ) → V4View p
v4_view (a ∷ b ∷ c ∷ d ∷ hi ∷ lo ∷ rest) = V4View.full a b c d hi lo rest
v4_view _ = V4View.short (omega arith)

pub data V6View : List ℕ → Type 0 where
  full :
      (a0 b0 a1 b1 a2 b2 a3 b3 a4 b4 a5 b5 a6 b6 a7 b7 hi lo : ℕ) (rest : List ℕ)
      → V6View (
          a0 ∷ b0 ∷ a1 ∷ b1 ∷ a2 ∷ b2 ∷ a3 ∷ b3 ∷ a4 ∷ b4 ∷ a5 ∷ b5 ∷ a6 ∷ b6 ∷ a7 ∷ b7 ∷ hi ∷ lo
          ∷ rest)
  short : {p : List ℕ} → length p < 18 → V6View p

pub v6_view : (p : List ℕ) → V6View p
v6_view
      (a0 ∷ b0 ∷ a1 ∷ b1 ∷ a2 ∷ b2 ∷ a3 ∷ b3 ∷ a4 ∷ b4 ∷ a5 ∷ b5 ∷ a6 ∷ b6 ∷ a7 ∷ b7 ∷ hi ∷ lo
        ∷ rest) =
    V6View.full a0 b0 a1 b1 a2 b2 a3 b3 a4 b4 a5 b5 a6 b6 a7 b7 hi lo rest
v6_view _ = V6View.short (omega arith)

pub data DomainView : List ℕ → Type 0 where
  none : DomainView []
  full :
      {t : List ℕ} (n : ℕ) (name : List ℕ) (hi lo : ℕ) (rest : List ℕ)
      → length name ≡ n
      → t ≡ name ++ hi ∷ lo ∷ rest
      → DomainView (n ∷ t)
  short : {t : List ℕ} (n : ℕ) → length t < n + 2 → DomainView (n ∷ t)

pub domain_view : (p : List ℕ) → DomainView p
domain_view [] = DomainView.none
domain_view (n ∷ t) = elim (Bool-cases (ltb (length t) (n + 2))) [
  | inl less ↦ DomainView.short n (ltb→lt _ _ less)
  | inr more ↦ long (ltb→le _ _ more)
]
  where
    long : n + 2 ≤ length t → DomainView (n ∷ t)
    long h =
        let (hi, lo, rest, e) = two_of (drop n t) (omega (arith, length-drop n t)) in
        DomainView.full n (take n t) hi lo rest (length-take_le n t (omega arith))
          (rw (← e) (sym (take-append-drop n t)))
