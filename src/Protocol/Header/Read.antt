-- ===== src/Protocol/Header/Read.antt =====
-- `Header::read_from` and `expect_crlf` of src/protocol/header.rs: the reader of a header from a
-- stream.
pub mod Laws
use rust.Prelude.{if◌then◌else◌, [], ◌∷◌, all, List, ℕ}
use rust.Error.{Message, protocol, hash_format, invalid_crlf_after_hash, invalid_crlf_after_address}
use rust.Bytes.{bytes_eq, is_ascii_hexdigit}
use rust.Exec.{Exec, pure, raise, lift, await_io, ◌>>=◌, ◌>>◌}
use rust.Exec.Simulates.{
  Simulates, Simulates-pure, Simulates-raise, Simulates-if, Simulates-await, Simulates-check,
  Simulates-bind,
}
use rust.Io.{AsyncRead}
use rust.Io.Finite.{IsFinite}
use rust.Io.Memory.{memory}
use rust.Protocol.Command.{from_u8}
use rust.Protocol.Address.Read as AddressRead
use rust.Protocol.Header.{Header, password_hex_len}

abbrev pub crlf_bytes : List ℕ
crlf_bytes = 0x0d ∷ 0x0a ∷ []

module _ (r : AsyncRead) where
  unfoldable pub expect_crlf : Message → Exec r.Stream (Unit {0})
  expect_crlf field = do
    crlf ← await_io (r.read_exact 2)
    if bytes_eq crlf crlf_bytes then pure tt else raise (protocol field)

  -- What follows the hash.
  unfoldable pub read_request : List ℕ → Exec r.Stream Header
  read_request password_hash = do
    expect_crlf invalid_crlf_after_hash
    cmd_byte ← await_io r.read_u8
    command ← lift (from_u8 cmd_byte)
    address ← AddressRead.read_from r
    expect_crlf invalid_crlf_after_address
    pure (record { password_hash = password_hash; command = command; address = address })

  unfoldable pub read_from : Exec r.Stream Header
  read_from = do
    password_hash ← await_io (r.read_exact password_hex_len)
    if all is_ascii_hexdigit password_hash
        then read_request password_hash
        else raise (protocol hash_format)

module _ (r : AsyncRead) (fin : IsFinite r) where
  expect_crlf-Simulates :
      (m : Message) → Simulates fin.pending (expect_crlf r m) (expect_crlf memory m)
  unfolding expect_crlf
  expect_crlf-Simulates m =
      Simulates-await (fin.exact_lem 2)
        λ crlf. Simulates-if _ (Simulates-pure tt) (Simulates-raise _)

  read_request-Simulates :
      (h : List ℕ) → Simulates fin.pending (read_request r h) (read_request memory h)
  unfolding read_request
  read_request-Simulates h = Simulates-bind (expect_crlf-Simulates _) λ _.
      Simulates-await fin.u8_lem λ cmd. Simulates-check _ λ command.
        Simulates-bind (AddressRead.read_from-Simulates r fin)
          λ address. Simulates-bind (expect_crlf-Simulates _) λ _. Simulates-pure _

  -- Over any stream that ends, the reader does what it does over the slice of the pending bytes.
  pub read_from-Simulates : Simulates fin.pending (read_from r) (read_from memory)
  unfolding read_from
  read_from-Simulates =
      Simulates-await (fin.exact_lem password_hex_len)
        λ h. Simulates-if _ (read_request-Simulates h) (Simulates-raise _)
