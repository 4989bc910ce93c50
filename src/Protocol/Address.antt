-- ===== src/Protocol/Address.antt =====
-- src/protocol/address.rs: target addresses, their parser over a buffer, their reader over a
-- stream, and their encoder. Rust's socket addresses are records and a sum.
pub mod Wire
pub mod Parse
pub mod Laws
pub mod Stability
pub mod Read
pub mod Encode
pub mod Text
use rust.Prelude.{
  ℕ, ◌+◌, ◌==◌, Option, none, some, List, [], ◌∷◌, ◌++◌, ◌||◌, ltb, if◌then◌else◌, length, ◌%◌,
}
use rust.Error.{
  Result, ok, err, protocol, invalid_address_type, invalid_utf8, ipv4_not_v4, ipv6_not_v6,
  domain_length, ok_or, ◌>>=◌,
}
use rust.Bytes.{Str, be16, to_be16, index, slice, from_utf8}

pub record Ipv4Addr : Type 0 where
  pub a : ℕ
  pub b : ℕ
  pub c : ℕ
  pub d : ℕ

-- The eight segments.
pub record Ipv6Addr : Type 0 where
  pub s0 : ℕ
  pub s1 : ℕ
  pub s2 : ℕ
  pub s3 : ℕ
  pub s4 : ℕ
  pub s5 : ℕ
  pub s6 : ℕ
  pub s7 : ℕ

-- `v6` has a port, a flow label and a scope.
pub data SocketAddr : Type 0 where
  v4 : Ipv4Addr → ℕ → SocketAddr
  v6 : Ipv6Addr → ℕ → ℕ → ℕ → SocketAddr

pub data Address : Type 0 where
  ipv4 ipv6 : SocketAddr → Address
  domain : Str → ℕ → Address

abbrev pub type_ipv4 : ℕ
type_ipv4 = 0x01

abbrev pub type_domain : ℕ
type_domain = 0x03

abbrev pub type_ipv6 : ℕ
type_ipv6 = 0x04

-- `Ipv4Addr::octets`, `Ipv6Addr::octets`
unfoldable pub octets4 : Ipv4Addr → List ℕ
octets4 ip = ip.a ∷ ip.b ∷ ip.c ∷ ip.d ∷ []

unfoldable pub octets6 : Ipv6Addr → List ℕ
octets6 ip =
    to_be16 ip.s0
    ++ (to_be16 ip.s1
        ++ (to_be16 ip.s2
            ++ (to_be16 ip.s3
                ++ (to_be16 ip.s4 ++ (to_be16 ip.s5 ++ (to_be16 ip.s6 ++ to_be16 ip.s7))))))

-- `Ok((Address::Domain(String::new(), 0), None))`: more bytes are needed.
abbrev pub need_more : Result (Address × Option ℕ)
need_more = ok (domain [] 0, none)

-- `u16::from_be_bytes([l[i], l[i + 1]])`
unfoldable pub be16_at : List ℕ → ℕ → Result ℕ
be16_at l i = do hi ← index l i; lo ← index l (i + 1); ok (be16 hi lo)

-- `Ipv4Addr::new(l[0], l[1], l[2], l[3])`
unfoldable pub ipv4_at : List ℕ → Result Ipv4Addr
ipv4_at l = do
  a ← index l 0
  b ← index l 1
  c ← index l 2
  d ← index l 3
  ok (record { a = a; b = b; c = c; d = d })

-- `Ipv6Addr::new(u16::from_be_bytes([l[0], l[1]]), …)`
unfoldable pub ipv6_at : List ℕ → Result Ipv6Addr
unfolding be16_at
ipv6_at l = do
  s0 ← be16_at l 0
  s1 ← be16_at l 2
  s2 ← be16_at l 4
  s3 ← be16_at l 6
  s4 ← be16_at l 8
  s5 ← be16_at l 10
  s6 ← be16_at l 12
  s7 ← be16_at l 14
  ok (record { s0 = s0; s1 = s1; s2 = s2; s3 = s3; s4 = s4; s5 = s5; s6 = s6; s7 = s7 })

unfoldable pub parse_ipv4 : List ℕ → Result (Address × Option ℕ)
unfolding be16_at ipv4_at
parse_ipv4 payload =
    if ltb (length payload) 6
    then need_more
    else do ip ← ipv4_at payload; port ← be16_at payload 4; ok (ipv4 (v4 ip port), some (1 + 6))

unfoldable pub parse_domain : List ℕ → Result (Address × Option ℕ)
unfolding be16_at
parse_domain [] = need_more
parse_domain payload = do
  domain_len ← index payload 0
  if ltb (length payload) (1 + domain_len + 2) then need_more else do
    domain_bytes ← slice payload 1 (1 + domain_len)
    name ← ok_or (from_utf8 domain_bytes) invalid_utf8
    port ← be16_at payload (1 + domain_len)
    ok (domain name port, some (1 + 1 + domain_len + 2))

unfoldable pub parse_ipv6 : List ℕ → Result (Address × Option ℕ)
unfolding ipv6_at be16_at
parse_ipv6 payload = if ltb (length payload) 18 then need_more else do
  ip ← ipv6_at payload
  port ← be16_at payload 16
  ok (ipv6 (v6 ip port 0 0), some (1 + 18))

unfoldable pub parse_from_buf : List ℕ → Result (Address × Option ℕ)
parse_from_buf [] = need_more
parse_from_buf (addr_type ∷ payload) =
    if addr_type == type_ipv4
    then parse_ipv4 payload
    else if addr_type == type_domain
    then parse_domain payload
    else if addr_type == type_ipv6
    then parse_ipv6 payload
    else err (invalid_address_type addr_type)

unfoldable pub port : Address → ℕ
port (ipv4 (v4 ip p)) = p
port (ipv4 (v6 ip p flow scope)) = p
port (ipv6 (v4 ip p)) = p
port (ipv6 (v6 ip p flow scope)) = p
port (domain name p) = p

unfoldable pub encode : Address → Result (List ℕ)
encode (ipv4 (v4 ip p)) = ok (type_ipv4 ∷ (octets4 ip ++ to_be16 p))
encode (ipv4 (v6 ip p flow scope)) = err (protocol ipv4_not_v4)
encode (domain name p) =
    if length name == 0 || ltb 255 (length name)
    then err (protocol domain_length)
    else ok (type_domain ∷ (length name % 256) ∷ (name ++ to_be16 p))
encode (ipv6 (v6 ip p flow scope)) = ok (type_ipv6 ∷ (octets6 ip ++ to_be16 p))
encode (ipv6 (v4 ip p)) = err (protocol ipv6_not_v6)
