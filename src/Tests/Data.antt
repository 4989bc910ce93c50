-- ===== src/Tests/Data.antt =====
-- Clients, headers and a configuration for the tests.
use rust.Prelude.{ℕ, zero, suc, ◌≡◌, refl, true, List, [], ◌∷◌, arith}
use rust.Bytes.{
  Str, is_ascii_hexdigit, AreBytes, valid_utf8, eq_ignore_ascii_case, to_ascii_lowercase,
}
use rust.Config.{Config}
use rust.Protocol.Command.{connect}
use rust.Proxy.Session.{Session}
use rust.Protocol.Address.{Address, ipv4, domain, v4, SocketAddr}
use rust.Protocol.Address.Wire.{IsWire}
use rust.Protocol.Header.{Header, verify_password}
use rust.Protocol.Header.Wire.{IsHeader}

abbrev pub localhost : SocketAddr
localhost = v4 (record { a = 127; b = 0; c = 0; d = 1 }) 8080

abbrev pub example_com : Address
example_com = domain (b'a' ∷ b'.' ∷ b'b' ∷ []) 443

abbrev pub repeat : ℕ → ℕ → List ℕ
repeat zero x = []
repeat (suc n) x = x ∷ repeat n x

-- A password's hash, as the configuration and as the client writes it.
abbrev pub hash : Str
hash = repeat 56 b'a'

abbrev pub client_hash : Str
client_hash = repeat 56 b'A'

abbrev pub user_header : Header
user_header = record { password_hash = client_hash; command = connect; address = example_com }

abbrev pub request : List ℕ
request = b'G' ∷ b'E' ∷ b'T' ∷ b' ' ∷ b'/' ∷ []

abbrev pub server : Config
server = record {
  bind_addr = b':' ∷ b'4' ∷ b'4' ∷ b'3' ∷ [];
  tls_cert = b'c' ∷ b'e' ∷ b'r' ∷ b't' ∷ [];
  tls_key = b'k' ∷ b'e' ∷ b'y' ∷ [];
  passwords = hash ∷ [];
  udp_bind_addr = b':' ∷ b'0' ∷ [];
  log_level = b'i' ∷ b'n' ∷ b'f' ∷ b'o' ∷ [];
  tcp_timeout = 10;
  udp_timeout = 60;
  max_connections = 1024;
  fallback_addr = b':' ∷ b'8' ∷ b'0' ∷ [];
}

abbrev pub session : Session
session = record {
  id = 7;
  client_addr = localhost;
  target = example_com;
  command = connect;
  start_time = 0;
  bytes_sent = 0;
  bytes_received = 0;
}

pub example_com-IsWire : IsWire example_com
unfolding valid_utf8
example_com-IsWire = (refl, omega arith, omega arith)

pub localhost-IsWire : IsWire (ipv4 localhost)
localhost-IsWire = (omega arith, omega arith)

pub user_header-IsHeader : IsHeader user_header
unfolding is_ascii_hexdigit
user_header-IsHeader = record { size = refl; hex = refl; target = example_com-IsWire }

pub user_lem : verify_password user_header server.passwords ≡ true
unfolding verify_password eq_ignore_ascii_case to_ascii_lowercase
user_lem = refl

pub request-AreBytes : AreBytes request
request-AreBytes = omega arith
