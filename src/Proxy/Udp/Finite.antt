-- ===== src/Proxy/Udp/Finite.antt =====
-- A stream that holds some bytes gives the frames that the slice of these bytes gives.
use rust.Prelude.{ℕ, none, ◌==◌}
use rust.Error.{unexpected_eof, would_block, other}
use rust.Exec.{IoResult, done, failed}
use rust.Exec.Simulates.{
  Simulates, Simulates-pure, Simulates-raise, Simulates-await_result, Simulates-if, Simulates-bind,
  Simulates-await, Simulates-check,
}
use rust.Io.{AsyncRead}
use rust.Io.Finite.{IsFinite}
use rust.Io.Memory.{memory}
use rust.Bytes.{bytes_eq}
use rust.Protocol.Address.{Address, type_ipv4, type_domain, type_ipv6}
use rust.Proxy.Udp.{
  crlf_bytes, read_ipv4, read_domain, read_ipv6, read_target_address, read_payload, read_frame_of,
  read_udp_frame,
}

module _ (r : AsyncRead) (fin : IsFinite r) where
  ipv4-Simulates : Simulates fin.pending (read_ipv4 r) (read_ipv4 memory)
  unfolding read_ipv4
  ipv4-Simulates =
      Simulates-await (fin.exact_lem 4)
        λ octets. Simulates-await fin.u16_lem λ port. Simulates-check _ λ ip. Simulates-pure _

  domain-Simulates : Simulates fin.pending (read_domain r) (read_domain memory)
  unfolding read_domain
  domain-Simulates = Simulates-await fin.u8_lem λ len. Simulates-if (len == 0) (Simulates-raise _) (
      Simulates-await (fin.exact_lem len) λ domain_buf.
        Simulates-check _ λ name. Simulates-await fin.u16_lem λ port. Simulates-pure _)

  ipv6-Simulates : Simulates fin.pending (read_ipv6 r) (read_ipv6 memory)
  unfolding read_ipv6
  ipv6-Simulates =
      Simulates-await (fin.exact_lem 16)
        λ octets. Simulates-await fin.u16_lem λ port. Simulates-check _ λ ip. Simulates-pure _

  target-Simulates :
      (atyp : ℕ)
      → Simulates fin.pending (read_target_address r atyp) (read_target_address memory atyp)
  unfolding read_target_address
  target-Simulates atyp = Simulates-if (atyp == type_ipv4) ipv4-Simulates (
      Simulates-if (atyp == type_domain) domain-Simulates
        (Simulates-if (atyp == type_ipv6) ipv6-Simulates (Simulates-raise _)))

  payload-Simulates :
      (address : Address)
      → Simulates fin.pending (read_payload r address) (read_payload memory address)
  unfolding read_payload
  payload-Simulates address = Simulates-await fin.u16_lem λ payload_len.
      Simulates-await (fin.exact_lem 2) λ crlf.
        Simulates-if (bytes_eq crlf crlf_bytes)
          (Simulates-await (fin.exact_lem payload_len) λ payload. Simulates-pure _)
          (Simulates-raise _)

  frame-Simulates :
      (first : IoResult ℕ)
      → Simulates fin.pending (read_frame_of r first) (read_frame_of memory first)
  unfolding read_frame_of
  frame-Simulates (done atyp) =
      Simulates-bind (target-Simulates atyp) λ address. payload-Simulates address
  frame-Simulates (failed unexpected_eof) = Simulates-pure none
  frame-Simulates (failed would_block) = Simulates-raise _
  frame-Simulates (failed (other code)) = Simulates-raise _

  pub read_udp_frame-Simulates : Simulates fin.pending (read_udp_frame r) (read_udp_frame memory)
  unfolding read_udp_frame
  read_udp_frame-Simulates =
      Simulates-bind (Simulates-await_result fin.u8_lem) λ first. frame-Simulates first
