-- ===== src/Proxy/Udp/Frame.antt =====
-- The layout of a UDP frame: address, length, CRLF, payload. It is what `build_udp_frame` writes
-- and what `read_udp_frame` reads.
use rust.Prelude.{
  ℕ, ◌≤◌, ◌<◌, ◌≡◌, refl, ap, ◌∙◌, false, none, some, List, [], ◌++◌, arith, length, append_assoc,
  ◌==◌, ◌%◌, le→ltb, lt→ltb,
}
use rust.Error.{ok, err, protocol, udp_payload_limit}
use rust.Exec.{◌>>=◌}
use rust.Bytes.{IsU16, to_be16, bytes_eq, index}
use rust.Bytes.Laws.{from_utf8-some, be16-to_be16}
use rust.Io.Memory.{memory, read_u8, read_u16}
use rust.Io.Memory.Laws.{read_exact-append}
use rust.Protocol.Address.{
  Address, SocketAddr, ipv4, ipv6, domain, v4, v6, octets4, octets6, ipv4_at, ipv6_at,
}
use rust.Protocol.Address.Wire as AddressWire
use rust.Protocol.Address.Wire.{IsWire, IsIpv4, IsIpv6}
use rust.Protocol.Address.Encode.{HasHost}
use rust.Proxy.Udp.{
  UdpFrame, read_udp_frame, read_frame_of, read_target_address, read_ipv4, read_domain, read_ipv6,
  read_payload, build_udp_frame, frame_head, crlf_bytes,
}

pub record IsFrame (f : UdpFrame) : Type 0 where
  pub target : IsWire f.address
  pub host : HasHost f.address
  pub fits : length f.payload ≤ 65535

unfoldable pub wire : UdpFrame → List ℕ
wire f = AddressWire.wire f.address ++ (to_be16 (length f.payload) ++ (crlf_bytes ++ f.payload))

read_payload-wire :
    (a : Address) (payload rest : List ℕ)
    → length payload ≤ 65535
    → read_payload memory a (to_be16 (length payload) ++ (crlf_bytes ++ (payload ++ rest)))
      ≡ (ok (some (record { address = a; payload = payload })), rest)
unfolding read_payload ◌>>=◌ read_u16 bytes_eq
read_payload-wire a payload rest h = rw (
  read_exact-append crlf_bytes (payload ++ rest) 2 refl,
  be16-to_be16 (length payload),
  read_exact-append payload rest (length payload) refl,
)

target-wire :
    (a : Address) (rest : List ℕ)
    → IsWire a
    → HasHost a
    → read_udp_frame memory (AddressWire.wire a ++ rest) ≡ read_payload memory a rest
unfolding read_udp_frame read_frame_of read_target_address read_ipv4 read_domain read_ipv6 ◌>>=◌
    read_u8 read_u16 AddressWire.wire ipv4_at ipv6_at index
target-wire (ipv4 (v4 ip p)) rest w h =
    rw (read_exact-append (octets4 ip) (to_be16 p ++ rest) 4 refl)
      (ap (λ a. read_payload memory a rest) (ground arith))
target-wire (ipv4 (v6 ip p flow scope)) rest w h = elim w [ ]
target-wire (ipv6 (v4 ip p)) rest w h = elim w [ ]
target-wire (ipv6 (v6 ip p flow scope)) rest w h =
    rw (read_exact-append (octets6 ip) (to_be16 p ++ rest) 16 refl)
      (ap (λ a. read_payload memory a rest) (ground arith))
target-wire (domain name p) rest w h = rw append_assoc (
    rw (
      nonempty,
      read_exact-append name (to_be16 p ++ rest) (length name) refl,
      from_utf8-some name w.0,
      be16-to_be16 p,
    ))
  where
    nonempty : (length name == 0) ≡ false
    nonempty = ground arith

-- A frame whose address has a layout and a host, and whose payload fits 16 bits, is read off the
-- front of a slice, and what follows it is left.
pub read_udp_frame-wire :
    (f : UdpFrame) (rest : List ℕ)
    → IsFrame f
    → read_udp_frame memory (wire f ++ rest) ≡ (ok (some f), rest)
unfolding wire
read_udp_frame-wire f rest w =
    rw append_assoc
      (target-wire f.address _ w.target w.host ∙ read_payload-wire f.address f.payload rest w.fits)

-- The end of the stream between two frames ends the association without an error.
pub read_udp_frame-nil : read_udp_frame memory [] ≡ (ok none, [])
unfolding read_udp_frame read_frame_of read_u8 ◌>>=◌
read_udp_frame-nil = refl

-- The address that a datagram's sender has in a frame: the flow label and the scope are dropped.
abbrev pub sender : SocketAddr → Address
sender (v4 ip port) = ipv4 (v4 ip port)
sender (v6 ip port flow scope) = ipv6 (v6 ip port 0 0)

abbrev pub IsSocket : SocketAddr → Type 0
IsSocket (v4 ip port) = IsIpv4 ip × IsU16 port
IsSocket (v6 ip port flow scope) = IsIpv6 ip × IsU16 port

sender-IsWire : (a : SocketAddr) → IsSocket a → IsWire (sender a) × HasHost (sender a)
sender-IsWire (v4 ip port) (h, p) = ((h, p), tt)
sender-IsWire (v6 ip port flow scope) (h, p) = ((h, p, refl, refl), tt)

frame_head-wire : (a : SocketAddr) → frame_head a ≡ AddressWire.wire (sender a)
unfolding frame_head AddressWire.wire
frame_head-wire (v4 ip port) = refl
frame_head-wire (v6 ip port flow scope) = refl

mod_small : (n : ℕ) → n ≤ 65535 → n % 65536 ≡ n
mod_small n h = omega arith

pub build_udp_frame-wire :
    (a : SocketAddr) (payload : List ℕ)
    → length payload ≤ 65535
    → build_udp_frame a payload ≡ ok (wire (record { address = sender a; payload = payload }))
unfolding build_udp_frame wire
build_udp_frame-wire a payload h =
    rw (le→ltb 65535 (length payload) h, frame_head-wire a, mod_small (length payload) h)

-- A datagram of at most 65535 bytes from a socket address is framed, and the frame is read back as
-- the same payload with its sender.
pub read_udp_frame-build_udp_frame :
    (a : SocketAddr) (payload rest : List ℕ)
    → IsSocket a
    → length payload ≤ 65535
    → (frame : List ℕ) × (build_udp_frame a payload ≡ ok frame)
      × (read_udp_frame memory (frame ++ rest)
          ≡ (ok (some (record { address = sender a; payload = payload })), rest))
read_udp_frame-build_udp_frame a payload rest s h =
    let (w, host) = sender-IsWire a s in
    (
      wire (record { address = sender a; payload = payload }),
      build_udp_frame-wire a payload h,
      read_udp_frame-wire _ rest (record { target = w; host = host; fits = h }),
    )

pub build_udp_frame_too_long :
    (a : SocketAddr) (payload : List ℕ)
    → 65535 < length payload
    → build_udp_frame a payload ≡ err (protocol udp_payload_limit)
unfolding build_udp_frame
build_udp_frame_too_long a payload h = rw (lt→ltb _ _ h)
