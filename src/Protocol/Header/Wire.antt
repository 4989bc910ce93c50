-- ===== src/Protocol/Header/Wire.antt =====
-- The layout of a header, independent of the parsers: the hash, CRLF, the command, the address,
-- CRLF.
use rust.Prelude.{
  ℕ, ◌+◌, ◌≤◌, ◌≡◌, true, List, [], ◌∷◌, ◌++◌, arith, length, length-append, All-append, all,
}
use rust.Bytes.{IsByte, AreBytes, is_ascii_hexdigit}
use rust.Protocol.Command.{Command, connect, udp_associate, as_u8}
use rust.Protocol.Address.Wire
use rust.Protocol.Address.Wire.{IsWire}
use rust.Protocol.Header.{Header, password_hex_len}

pub record IsHeader (h : Header) : Type 0 where
  pub size : length h.password_hash ≡ password_hex_len
  pub hex : all is_ascii_hexdigit h.password_hash ≡ true
  pub target : IsWire h.address

unfoldable pub wire : Header → List ℕ
wire h =
    h.password_hash ++ (0x0d ∷ 0x0a ∷ as_u8 h.command ∷ (Wire.wire h.address ++ (0x0d ∷ 0x0a ∷ [])))

-- The length of a header: 61 bytes and its address.
pub length-wire : (h : Header) → IsHeader h → length (wire h) ≡ 61 + length (Wire.wire h.address)
unfolding wire
length-wire h w = omega (
  arith,
  w.size,
  length-append (Wire.wire h.address) (0x0d ∷ 0x0a ∷ []),
  length-append h.password_hash
      (0x0d ∷ 0x0a ∷ as_u8 h.command ∷ (Wire.wire h.address ++ (0x0d ∷ 0x0a ∷ []))),
)

-- No header with a layout is longer than 320 bytes, so the peek window of 512 bytes holds any.
pub length-wire_le : (h : Header) → IsHeader h → length (wire h) ≤ 320
length-wire_le h w = omega (arith, length-wire h w, Wire.length-wire h.address w.target)

hexdigit-IsByte : (c : ℕ) → is_ascii_hexdigit c ≡ true → IsByte c
unfolding is_ascii_hexdigit
hexdigit-IsByte c h = ground arith

pub hex-AreBytes : (l : List ℕ) → all is_ascii_hexdigit l ≡ true → AreBytes l
hex-AreBytes [] h = tt
hex-AreBytes (c ∷ l) h = ground (arith, hexdigit-IsByte c, hex-AreBytes l)

pub wire-AreBytes : (h : Header) → IsHeader h → AreBytes (wire h)
unfolding wire
wire-AreBytes h w = All-append IsByte h.password_hash _ (hex-AreBytes h.password_hash w.hex) (
  omega arith,
  (
    omega arith,
    (
      as_u8-IsByte h.command,
      All-append IsByte (Wire.wire h.address) (0x0d ∷ 0x0a ∷ [])
          (Wire.wire-AreBytes h.address w.target) (omega arith),
    ),
  ),
)
  where
    as_u8-IsByte : (c : Command) → IsByte (as_u8 c)
    as_u8-IsByte connect = unfold as_u8 in omega arith
    as_u8-IsByte udp_associate = unfold as_u8 in omega arith
