-- ===== src/Tests/Protocol.antt =====
-- The theorems on the Trojan header and its address, at one header.
use rust.Prelude.{
  ℕ, ◌≡◌, ◌↔◌, refl, true, some, none, List, [], ◌∷◌, ◌++◌, arith, length, take, drop,
}
use rust.Error.{ok}
use rust.Bytes.{AreBytes}
use rust.Io.Memory.{memory}
use rust.Protocol.Command.{as_u8}
use rust.Protocol.Address.{parse_from_buf, encode}
use rust.Protocol.Address.Wire as AddressWire
use rust.Protocol.Address.Laws as AddressLaws
use rust.Protocol.Address.Encode.{parse_from_buf-encode}
use rust.Protocol.Address.Read as AddressRead
use rust.Protocol.Address.Read.Laws.{read_from_iff_parse_from_buf}
use rust.Protocol.Header.{try_parse_from_buf, verify_password}
use rust.Protocol.Header.Wire.{wire, wire-AreBytes}
use rust.Protocol.Header.Laws as HeaderLaws
use rust.Protocol.Header.Stability.{try_parse_from_buf_truncated}
use rust.Protocol.Header.Password.{IsUser, verify_password_iff}
use rust.Protocol.Header.Read as HeaderRead
use rust.Protocol.Header.Read.Laws.{read_from_iff_try_parse_from_buf}
use rust.Tests.Data.{
  server, example_com, repeat, user_header, request, example_com-IsWire, user_header-IsHeader,
  request-AreBytes,
}

try_parse_from_buf-Outcome_example :
    HeaderLaws.Outcome (wire user_header) (try_parse_from_buf (wire user_header))
try_parse_from_buf-Outcome_example =
    HeaderLaws.try_parse_from_buf-Outcome (wire user_header)
      (wire-AreBytes user_header user_header-IsHeader)

try_parse_from_buf_truncated_example : try_parse_from_buf (take 60 (wire user_header)) ≡ ok none
unfolding wire AddressWire.wire as_u8
try_parse_from_buf_truncated_example =
    try_parse_from_buf_truncated user_header (take 60 (wire user_header)) 3
      (b'a' ∷ b'.' ∷ b'b' ∷ 1 ∷ 187 ∷ 13 ∷ 10 ∷ []) user_header-IsHeader refl

-- A line break in the place of a digit.
abbrev broken_hash : List ℕ
broken_hash = 0x0d ∷ repeat 57 b'a'

broken_hash-AreBytes : AreBytes broken_hash
broken_hash-AreBytes = omega arith

read_from_iff_try_parse_from_buf_example :
    (HeaderRead.read_from memory (wire user_header) ≡ (ok user_header, [])) ↔ (
      (try_parse_from_buf (wire user_header) ≡ ok (some user_header))
      × (drop (length (wire user_header)) (wire user_header) ≡ []))
read_from_iff_try_parse_from_buf_example =
    read_from_iff_try_parse_from_buf (wire user_header)
      (wire-AreBytes user_header user_header-IsHeader) user_header []

verify_password_iff_example :
    (verify_password user_header server.passwords ≡ true) ↔ IsUser user_header server.passwords
verify_password_iff_example = verify_password_iff user_header server.passwords

parse_from_buf-Outcome_example : AddressLaws.Outcome request (parse_from_buf request)
parse_from_buf-Outcome_example = AddressLaws.parse_from_buf-Outcome request request-AreBytes

parse_from_buf-encode_example :
    parse_from_buf ((3 ∷ 3 ∷ b'a' ∷ b'.' ∷ b'b' ∷ 1 ∷ 187 ∷ []) ++ request)
    ≡ ok (example_com, some 7)
unfolding encode
parse_from_buf-encode_example =
    parse_from_buf-encode example_com (3 ∷ 3 ∷ b'a' ∷ b'.' ∷ b'b' ∷ 1 ∷ 187 ∷ []) request
      example_com-IsWire refl

read_from_iff_parse_from_buf_example :
    (AddressRead.read_from memory (AddressWire.wire example_com) ≡ (ok example_com, [])) ↔ (
      (n : ℕ) × (parse_from_buf (AddressWire.wire example_com) ≡ ok (example_com, some n))
      × (drop n (AddressWire.wire example_com) ≡ []))
read_from_iff_parse_from_buf_example =
    read_from_iff_parse_from_buf (AddressWire.wire example_com)
      (AddressWire.wire-AreBytes example_com example_com-IsWire) example_com []
