-- ===== src/Config/Passwords.antt =====
-- From a password to its user: `hash_password` makes what the configuration asks for, and what a
-- client's header has to have; and both protocols let the same passwords in.
use rust.Bytes.Utf8.{hex-valid_utf8}
use rust.Bytes.Laws.{from_utf8-some}
use rust.Bytes.{from_utf8, eq_ignore_ascii_case}
use rust.Error.{err, authentication_failed}
use rust.Reality.Vision.{VisionAuthRequest, admit}
use rust.Reality.Vision.Laws.{IsRequest}
use rust.Prelude.{
  [], any, All, if◌then◌else◌, ℕ, ◌*◌, ◌≡◌, refl, true, some, List, ◌∷◌, ◌++◌, arith, length, all,
  Bool, inl,
}
use rust.Error.{ok}
use rust.Bytes.{Str, AreBytes, is_ascii_hexdigit}
use rust.Config.{Config, validate}
use rust.Config.Laws.{IsValid, IsPasswordHash, validate_iff}
use rust.Protocol.Command.{Command}
use rust.Protocol.Address.{Address}
use rust.Protocol.Address.Wire.{IsWire}
use rust.Protocol.Header.{Header, hash_password, try_parse_from_buf, verify_password}
use rust.Protocol.Header.Wire.{wire}
use rust.Protocol.Header.Laws.{try_parse_from_buf-wire}
use rust.Protocol.Header.Password.{verify_password_iff}

-- What the documentation of the crates sha2 and hex promises: a digest has 28 bytes, and each byte is
-- encoded as two hexadecimal digits.
pub record IsHashing (sha224 : List ℕ → List ℕ) (hex_encode : List ℕ → Str) : Type 0 where
  pub digest_size : (l : List ℕ) → length (sha224 l) ≡ 28
  pub digest_bytes : (l : List ℕ) → AreBytes (sha224 l)
  pub hex_size : (l : List ℕ) → length (hex_encode l) ≡ 2 * length l
  pub hex_digits : (l : List ℕ) → AreBytes l → all is_ascii_hexdigit (hex_encode l) ≡ true

module _ (sha224 : List ℕ → List ℕ) (hex_encode : List ℕ → Str) (password : Str) where
  abbrev pub Hash : Str
  Hash = hash_password sha224 hex_encode password

  -- The configuration with the password's hash.
  abbrev pub with_password : Config → Config
  with_password c = record c { passwords = Hash ∷ c.passwords }

  -- The header of a client that knows the password.
  abbrev pub header_for : Command → Address → Header
  header_for command address = record { password_hash = Hash; command = command; address = address }

  hash_password-IsPasswordHash : IsHashing sha224 hex_encode → IsPasswordHash Hash
  unfolding hash_password
  hash_password-IsPasswordHash hashing = (
    omega (arith, hashing.hex_size (sha224 password), hashing.digest_size password),
    hashing.hex_digits (sha224 password) (hashing.digest_bytes password),
  )

  with_password-IsValid :
      (is_socket_addr exists : Str → Bool) (c : Config)
      → IsPasswordHash Hash
      → IsValid is_socket_addr exists c
      → IsValid is_socket_addr exists (with_password c)
  with_password-IsValid is_socket_addr exists c hash v = record {
    some_password = λ e. cc e;
    bind = v.bind;
    cert = v.cert;
    key = v.key;
    hashes = (hash, v.hashes);
    udp = v.udp;
    fallback = v.fallback;
  }

  -- The hash of any password can be added to an accepted configuration, which is accepted again; and
  -- a client that knows the password, and sends its hash with a command and an address that has a
  -- layout, is read as such a header, whatever follows it, and let in. This holds for all digests of
  -- 28 bytes and all encodings of a byte as two hexadecimal digits.
  pub hash_password-verify_password :
      (hashing : IsHashing sha224 hex_encode) (is_socket_addr exists : Str → Bool) (c : Config)
      (command : Command) (address : Address) (rest : List ℕ)
      → validate is_socket_addr exists c ≡ ok tt
      → IsWire address
      → (validate is_socket_addr exists (with_password c) ≡ ok tt)
        × (try_parse_from_buf (wire (header_for command address) ++ rest)
            ≡ ok (some (header_for command address)))
        × (verify_password (header_for command address) (with_password c).passwords ≡ true)
  hash_password-verify_password hashing is_socket_addr exists c command address rest accepted
        target =
      let (size, hex) = hash_password-IsPasswordHash hashing in
      (
        (validate_iff is_socket_addr exists (with_password c)).1 (
            with_password-IsValid is_socket_addr exists c (size, hex)
              ((validate_iff is_socket_addr exists c).0 accepted)),
        try_parse_from_buf-wire (header_for command address) rest
            (record { size = size; hex = hex; target = target }),
        (verify_password_iff (header_for command address) (Hash ∷ c.passwords)).1
            (inl (size, refl)),
      )

-- Under hashes of the right size the test of a header compares them only, but for the case of letters.
sized-any :
    (h : Header) (l : List Str)
    → All IsPasswordHash l
    → any (λ candidate. eq_ignore_ascii_case candidate h.password_hash) l ≡ verify_password h l
unfolding verify_password
sized-any h [] hs = refl
sized-any h (p ∷ l) hs = ground (arith, sized-any h l hs.1)

-- Under an accepted configuration a Vision request with a layout is admitted, for its command and
-- its address, exactly if a header with the same hash is let in; else its authentication fails.
pub admit-verify_password :
    (is_socket_addr exists : Str → Bool) (c : Config) (h : Header) (q : VisionAuthRequest)
    → validate is_socket_addr exists c ≡ ok tt
    → IsRequest q
    → h.password_hash ≡ q.password_hash
    → admit c.passwords q (from_utf8 q.password_hash) ≡ (
        if verify_password h c.passwords
        then ok (q.command, q.address)
        else err authentication_failed)
unfolding admit
admit-verify_password is_socket_addr exists c h q e w same = rw (
  from_utf8-some q.password_hash (hex-valid_utf8 q.password_hash w.hex),
  ← same,
  sized-any h c.passwords ((validate_iff is_socket_addr exists c).0 e).hashes,
)
