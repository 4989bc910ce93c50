-- ===== src/Protocol/Address/Encode.antt =====
-- `Address::encode` writes the layout, and refuses what has none.
use rust.Prelude.{ℕ, ◌<◌, ◌≡◌, refl, arith, length, some, List, ◌++◌}
use rust.Error.{ok}
use rust.Protocol.Address.{Address, ipv4, ipv6, domain, v4, v6, encode, parse_from_buf}
use rust.Protocol.Address.Wire.{IsWire, wire}
use rust.Protocol.Address.Laws.{parse_from_buf-wire}

-- `encode` refuses the empty domain, which the parsers accept.
abbrev pub HasHost : Address → Type 0
HasHost (domain name p) = 0 < length name
HasHost (ipv4 addr) = Unit
HasHost (ipv6 addr) = Unit

-- An address that has a layout and no empty domain is encoded as its layout.
pub encode-wire : (a : Address) → IsWire a → HasHost a → encode a ≡ ok (wire a)
unfolding encode wire
encode-wire (ipv4 (v4 ip p)) w h = refl
encode-wire (ipv4 (v6 ip p flow scope)) w h = elim w [ ]
encode-wire (ipv6 (v4 ip p)) w h = elim w [ ]
encode-wire (ipv6 (v6 ip p flow scope)) w h = refl
encode-wire (domain name p) w h = ground arith

-- What `encode` writes is the layout.
pub encode_sound : (a : Address) (bytes : List ℕ) → encode a ≡ ok bytes → bytes ≡ wire a
unfolding encode wire
encode_sound (ipv4 (v4 ip p)) bytes h = cc
encode_sound (ipv4 (v6 ip p flow scope)) bytes h = cc
encode_sound (ipv6 (v4 ip p)) bytes h = cc
encode_sound (ipv6 (v6 ip p flow scope)) bytes h = cc
encode_sound (domain name p) bytes h = ground arith

-- The parser reads back what `encode` wrote for an address with a layout, with its length, whatever
-- follows it.
pub parse_from_buf-encode :
    (a : Address) (bytes rest : List ℕ)
    → IsWire a
    → encode a ≡ ok bytes
    → parse_from_buf (bytes ++ rest) ≡ ok (a, some (length bytes))
parse_from_buf-encode a bytes rest w h = rw (encode_sound a bytes h) (parse_from_buf-wire a rest w)

-- What `encode` writes has a host.
pub encode-HasHost : (a : Address) (bytes : List ℕ) → encode a ≡ ok bytes → HasHost a
unfolding encode
encode-HasHost (ipv4 addr) bytes h = tt
encode-HasHost (ipv6 addr) bytes h = tt
encode-HasHost (domain name p) bytes h = ground arith
