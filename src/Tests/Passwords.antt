-- ===== src/Tests/Passwords.antt =====
-- The theorems on passwords, with toys in the place of SHA-224 and the hexadecimal encoding.
use mathlib.Core.Quot
use rust.Prelude.{◌↔◌, ℕ, ◌%◌, ◌*◌, ◌≡◌, refl, true, List, [], ◌∷◌, ◌++◌, arith, length, all}
use rust.Error.{ok}
use rust.Bytes.{Str, AreBytes, is_ascii_hexdigit}
use rust.Config.{validate}
use rust.Config.Laws.{validate_iff}
use rust.Config.Passwords.{IsHashing, with_password, header_for, hash_password-verify_password}
use rust.Protocol.Command.{connect}
use rust.Protocol.Header.Users.{Users, Users_iff}
use rust.Protocol.Header.{Header, try_parse_from_buf, verify_password}
use rust.Protocol.Header.Wire.{wire}
use rust.Prelude.{some, if◌then◌else◌}
use rust.Error.{err, authentication_failed}
use rust.Bytes.{from_utf8}
use rust.Reality.Vision.{admit}
use rust.Config.Passwords.{admit-verify_password}
use rust.Tests.Reality.{vision_request, vision_request-IsRequest}
use rust.Tests.Data.{user_header}
use rust.Tests.Data.{hash, client_hash, repeat, request, example_com, example_com-IsWire}
use rust.Tests.Config.{is_socket_addr, exists, accepted, accepted-IsValid}

-- 28 copies of the length.
abbrev digest : List ℕ → List ℕ
digest l = repeat 28 (length l % 256)

-- Two digits for a byte.
abbrev encode : List ℕ → Str
encode [] = []
encode (b ∷ l) = b'0' ∷ b'a' ∷ encode l

length-encode : (l : List ℕ) → length (encode l) ≡ 2 * length l
length-encode [] = refl
length-encode (b ∷ l) = omega (arith, length-encode l)

encode_digits : (l : List ℕ) → all is_ascii_hexdigit (encode l) ≡ true
unfolding is_ascii_hexdigit
encode_digits [] = refl
encode_digits (b ∷ l) = encode_digits l

digest-AreBytes : (l : List ℕ) → AreBytes (digest l)
digest-AreBytes l = omega arith

hashing : IsHashing digest encode
hashing = record {
  digest_size = λ l. refl;
  digest_bytes = digest-AreBytes;
  hex_size = length-encode;
  hex_digits = λ l h. encode_digits l;
}

abbrev password : Str
password = b's' ∷ b'e' ∷ b'c' ∷ []

hash_password-verify_password_example :
    (validate is_socket_addr exists (with_password digest encode password accepted) ≡ ok tt)
    × (try_parse_from_buf (wire (header_for digest encode password connect example_com) ++ request)
        ≡ ok (some (header_for digest encode password connect example_com)))
    × (verify_password
          (header_for digest encode password connect example_com)
          (with_password digest encode password accepted).passwords
        ≡ true)
hash_password-verify_password_example =
    hash_password-verify_password digest encode password hashing is_socket_addr exists accepted
      connect example_com request ((validate_iff is_socket_addr exists accepted).1 accepted-IsValid)
      example_com-IsWire

-- One hash in two spellings, and a second time, is the same user.
Users_iff_example :
    (◌≡◌ {A = Users} (Quot.mk (hash ∷ [])) (Quot.mk (client_hash ∷ hash ∷ [])))
    ↔ ((h : Header) → verify_password h (hash ∷ []) ≡ verify_password h (client_hash ∷ hash ∷ []))
Users_iff_example = Users_iff (hash ∷ []) (client_hash ∷ hash ∷ [])

admit-verify_password_example :
    admit accepted.passwords vision_request (from_utf8 vision_request.password_hash) ≡ (
      if verify_password user_header accepted.passwords
      then ok (vision_request.command, vision_request.address)
      else err authentication_failed)
admit-verify_password_example =
    admit-verify_password is_socket_addr exists accepted user_header vision_request
      ((validate_iff is_socket_addr exists accepted).1 accepted-IsValid) vision_request-IsRequest
      refl
