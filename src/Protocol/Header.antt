-- ===== src/Protocol/Header.antt =====
-- src/protocol/header.rs: the Trojan request header, its parser over peeked bytes and the check of
-- its password hash.
pub mod Wire
pub mod Eval
pub mod Laws
pub mod Stability
pub mod Password
pub mod Users
pub mod Read
use rust.Prelude.{
  ℕ, ◌+◌, Bool, true, false, not, ◌&&◌, Option, none, some, List, ◌==◌, ltb, if◌then◌else◌, length,
  all, any,
}
use rust.Error.{Result, ok, err, protocol, hash_not_hex, crlf_after_hash, crlf_after_address, ◌>>=◌}
use rust.Bytes.{Str, index, slice, slice_from, is_ascii_hexdigit, eq_ignore_ascii_case}
use rust.Protocol.Command.{Command, from_u8}
use rust.Protocol.Address.{Address, parse_from_buf}

abbrev pub peek_size : ℕ
peek_size = 512

abbrev pub password_hex_len : ℕ
password_hex_len = 56

pub record Header : Type 0 where
  pub password_hash : List ℕ
  pub command : Command
  pub address : Address

-- `!(buf[pos] != 0x0d || buf[pos + 1] != 0x0a)`
unfoldable pub is_crlf_at : List ℕ → ℕ → Result Bool
is_crlf_at buf pos = do
  first ← index buf pos
  if first == 0x0d then (do second ← index buf (pos + 1); ok (second == 0x0a)) else ok false

-- Step 5: the CRLF behind the address.
unfoldable pub parse_end : List ℕ → Command → Address → List ℕ → ℕ → Result (Option Header)
parse_end hash command address buf pos = if ltb (length buf) (pos + 2) then ok none else do
  crlf ← is_crlf_at buf pos
  if crlf
      then ok (some (record { password_hash = hash; command = command; address = address }))
      else err (protocol crlf_after_address)

-- The answer of the address parser: its length, or more bytes wanted.
abbrev pub parse_rest : List ℕ → Command → List ℕ → ℕ → Address × Option ℕ → Result (Option Header)
parse_rest hash command buf pos (address, none) = ok none
parse_rest hash command buf pos (address, some len) = parse_end hash command address buf (pos + len)

-- Step 4: the address.
unfoldable pub parse_address : List ℕ → Command → List ℕ → ℕ → Result (Option Header)
parse_address hash command buf pos = do
  rest ← slice_from buf pos
  parsed ← parse_from_buf rest
  parse_rest hash command buf pos parsed

-- Step 3: the command byte.
unfoldable pub parse_command : List ℕ → List ℕ → ℕ → Result (Option Header)
parse_command hash buf pos =
    if ltb (length buf) (pos + 1)
    then ok none
    else do code ← index buf pos; command ← from_u8 code; parse_address hash command buf (pos + 1)

-- Step 2: the CRLF behind the hash.
unfoldable pub parse_crlf : List ℕ → List ℕ → ℕ → Result (Option Header)
parse_crlf hash buf pos = if ltb (length buf) (pos + 2) then ok none else do
  crlf ← is_crlf_at buf pos
  if crlf then parse_command hash buf (pos + 2) else err (protocol crlf_after_hash)

unfoldable pub try_parse_from_buf : List ℕ → Result (Option Header)
try_parse_from_buf buf = if ltb (length buf) (password_hex_len + 2) then ok none else do
  hash ← slice buf 0 password_hex_len
  if all is_ascii_hexdigit hash
      then parse_crlf hash buf password_hex_len
      else err (protocol hash_not_hex)

unfoldable pub verify_password : Header → List Str → Bool
verify_password h password_hashes =
    any
      (λ expected.
        length expected == password_hex_len && eq_ignore_ascii_case expected h.password_hash)
      password_hashes

-- `sha224` and `hex_encode` are those of the libraries that the code calls.
unfoldable pub hash_password : (List ℕ → List ℕ) → (List ℕ → Str) → Str → Str
hash_password sha224 hex_encode password = hex_encode (sha224 password)
