-- ===== src/Protocol/Address/Text.antt =====
-- src/protocol/address.rs: `host` and the `Display` of an address. The texts of IP addresses and
-- socket addresses are the standard library's, and parameters.
use rust.Prelude.{◌∷◌, ◌++◌}
use rust.Bytes.{Str, to_string}
use rust.Protocol.Address.{Address, SocketAddr, ipv4, ipv6, domain}

unfoldable pub host : (SocketAddr → Str) → Address → Str
host ip_text (ipv4 addr) = ip_text addr
host ip_text (ipv6 addr) = ip_text addr
host ip_text (domain name port) = name

unfoldable pub fmt : (SocketAddr → Str) → Address → Str
fmt socket_text (ipv4 addr) = socket_text addr
fmt socket_text (ipv6 addr) = socket_text addr
fmt socket_text (domain name port) = name ++ b':' ∷ to_string port
