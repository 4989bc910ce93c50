-- ===== src/Protocol/Address/Read.antt =====
-- `Address::read_from` of src/protocol/address.rs: the reader of an address from a stream.
pub mod Laws
use rust.Prelude.{◌==◌, if◌then◌else◌}
use rust.Error.{invalid_address_type, invalid_utf8, ok_or}
use rust.Bytes.{from_utf8}
use rust.Exec.{Exec, pure, raise, lift, await_io, ◌>>=◌}
use rust.Exec.Simulates.{
  Simulates, Simulates-pure, Simulates-raise, Simulates-if, Simulates-await, Simulates-check,
}
use rust.Io.{AsyncRead}
use rust.Io.Finite.{IsFinite}
use rust.Io.Memory.{memory}
use rust.Protocol.Address.{
  Address, ipv4, ipv6, domain, v4, v6, ipv4_at, ipv6_at, type_ipv4, type_domain, type_ipv6,
}

module _ (r : AsyncRead) where
  unfoldable pub read_ipv4 : Exec r.Stream Address
  read_ipv4 = do
    buf ← await_io (r.read_exact 4)
    ip ← lift (ipv4_at buf)
    port ← await_io r.read_u16
    pure (ipv4 (v4 ip port))

  unfoldable pub read_domain : Exec r.Stream Address
  read_domain = do
    len ← await_io r.read_u8
    buf ← await_io (r.read_exact len)
    name ← lift (ok_or (from_utf8 buf) invalid_utf8)
    port ← await_io r.read_u16
    pure (domain name port)

  unfoldable pub read_ipv6 : Exec r.Stream Address
  read_ipv6 = do
    buf ← await_io (r.read_exact 16)
    ip ← lift (ipv6_at buf)
    port ← await_io r.read_u16
    pure (ipv6 (v6 ip port 0 0))

  unfoldable pub read_from : Exec r.Stream Address
  read_from = do
    addr_type ← await_io r.read_u8
    if addr_type == type_ipv4
        then read_ipv4
        else if addr_type == type_domain
        then read_domain
        else if addr_type == type_ipv6
        then read_ipv6
        else raise (invalid_address_type addr_type)

module _ (r : AsyncRead) (fin : IsFinite r) where
  read_ipv4-Simulates : Simulates fin.pending (read_ipv4 r) (read_ipv4 memory)
  unfolding read_ipv4
  read_ipv4-Simulates =
      Simulates-await (fin.exact_lem 4)
        λ buf. Simulates-check _ λ ip. Simulates-await fin.u16_lem λ port. Simulates-pure _

  read_domain-Simulates : Simulates fin.pending (read_domain r) (read_domain memory)
  unfolding read_domain
  read_domain-Simulates = Simulates-await fin.u8_lem λ len.
      Simulates-await (fin.exact_lem len)
        λ buf. Simulates-check _ λ name. Simulates-await fin.u16_lem λ port. Simulates-pure _

  read_ipv6-Simulates : Simulates fin.pending (read_ipv6 r) (read_ipv6 memory)
  unfolding read_ipv6
  read_ipv6-Simulates =
      Simulates-await (fin.exact_lem 16)
        λ buf. Simulates-check _ λ ip. Simulates-await fin.u16_lem λ port. Simulates-pure _

  -- Over any stream that ends, the reader does what it does over the slice of the pending bytes.
  pub read_from-Simulates : Simulates fin.pending (read_from r) (read_from memory)
  unfolding read_from
  read_from-Simulates = Simulates-await fin.u8_lem λ t. Simulates-if _ read_ipv4-Simulates (
      Simulates-if _ read_domain-Simulates (Simulates-if _ read_ipv6-Simulates (Simulates-raise _)))
