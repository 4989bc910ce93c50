-- ===== src/Error.antt =====
-- src/error.rs: the error type, and `Result` with the third outcome of Rust code, a panic.
use rust.Prelude.{ℕ, List, Option, none, some}

-- The kinds of `std::io::Error` that the code tells apart.
pub data IoError : Type 0 where
  unexpected_eof would_block : IoError
  other : ℕ → IoError

-- The texts that the code puts into its errors, a constructor for each format string.
pub data Message : Type 0 where
  ipv4_not_v4 ipv6_not_v6 domain_length : Message
  hash_format hash_not_hex : Message
  crlf_after_hash crlf_after_address : Message
  invalid_crlf_after_hash invalid_crlf_after_address : Message
  udp_domain_length udp_crlf udp_payload_limit : Message
  udp_bind_failed : List ℕ → IoError → Message
  resolve_failed : List ℕ → ℕ → IoError → Message
  no_addresses : List ℕ → ℕ → Message
  connect_failed : IoError → Message
  fallback_failed : List ℕ → IoError → Message
  vision_magic vision_version : ℕ → Message
  vision_hash_format vision_hash_encoding vision_hash_length : Message
  timestamp_expired integrity_failed clock_before_epoch : Message
  invalid_transition missing_stream missing_authenticated_stream not_authenticated : Message
  udp_not_supported join_error : Message
  no_passwords password_format : Message
  invalid_bind_addr invalid_udp_bind_addr cert_not_found key_not_found : List ℕ → Message
  host_port_expected host_empty port_invalid : List ℕ → List ℕ → Message
  config_unreadable : IoError → Message
  config_malformed : Message
  cert_unreadable key_unreadable chain_malformed key_malformed : IoError → Message
  tls_rejected no_certificates no_private_key : Message
  reality_cert_unreadable reality_key_unreadable reality_key_malformed : IoError → Message
  reality_no_certificates reality_no_private_key : Message

pub data TrojanError : Type 0 where
  io : IoError → TrojanError
  tls protocol config remote_connect_failed join : Message → TrojanError
  authentication_failed invalid_utf8 : TrojanError
  timeout : TrojanError
  invalid_address_type invalid_command : ℕ → TrojanError

-- `panic` is an index or a slice out of range, or an arithmetic overflow where that is checked.
pub data Result {ℓ} (A : Type ℓ) : Type ℓ where
  ok : A → Result A
  err : TrojanError → Result A
  panic : Result A

infixl 5 ◌>>=◌
abbrev pub ◌>>=◌ {ℓ κ} : {A : Type ℓ} {B : Type κ} → Result A → (A → Result B) → Result B
ok a >>= f = f a
err e >>= f = err e
panic >>= f = panic

-- `option.ok_or_else(..)?`
abbrev pub ok_or {ℓ} : {A : Type ℓ} → Option A → TrojanError → Result A
ok_or none e = err e
ok_or (some a) e = ok a
