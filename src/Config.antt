-- ===== src/Config.antt =====
-- src/config.rs: the server's configuration, its defaults and its validation. The standard library's
-- parser of socket addresses, the file system and the TOML reader are parameters.
pub mod HostPort
pub mod Laws
pub mod Passwords
use rust.Prelude.{
  is_empty, ℕ, ◌+◌, ◌*◌, ◌-◌, Option, none, some, List, [], ◌∷◌, Bool, true, false, ◌&&◌, not, ◌==◌,
  ltb, leb, if◌then◌else◌, length, all,
}
use rust.Error
use rust.Error.{
  Result, ok, err, panic, TrojanError, Message, config, ok_or, no_passwords, password_format,
  invalid_bind_addr, invalid_udp_bind_addr, cert_not_found, key_not_found, host_port_expected,
  host_empty, port_invalid, config_unreadable, config_malformed,
}
use rust.Bytes.{Str, is_ascii_hexdigit}
use rust.Exec.{IoResult, done, failed, map_err}

pub record Config : Type 0 where
  pub bind_addr : Str
  pub tls_cert : Str
  pub tls_key : Str
  pub passwords : List Str
  pub udp_bind_addr : Str
  pub log_level : Str
  pub tcp_timeout : ℕ
  pub udp_timeout : ℕ
  pub max_connections : ℕ
  pub fallback_addr : Str

abbrev pub default_bind_addr : Str
default_bind_addr = b'0' ∷ b'.' ∷ b'0' ∷ b'.' ∷ b'0' ∷ b'.' ∷ b'0' ∷ b':' ∷ b'4' ∷ b'4' ∷ b'3' ∷ []

abbrev pub default_log_level : Str
default_log_level = b'i' ∷ b'n' ∷ b'f' ∷ b'o' ∷ []

abbrev pub default_udp_bind_addr : Str
default_udp_bind_addr = b'0' ∷ b'.' ∷ b'0' ∷ b'.' ∷ b'0' ∷ b'.' ∷ b'0' ∷ b':' ∷ b'0' ∷ []

abbrev pub default_fallback_addr : Str
default_fallback_addr =
    b'1' ∷ b'2' ∷ b'7' ∷ b'.' ∷ b'0' ∷ b'.' ∷ b'0' ∷ b'.' ∷ b'1' ∷ b':' ∷ b'8' ∷ b'0' ∷ []

abbrev pub default_tcp_timeout : ℕ
default_tcp_timeout = 300

abbrev pub default_udp_timeout : ℕ
default_udp_timeout = 60

abbrev pub default_max_connections : ℕ
default_max_connections = 1024

-- `str::rsplit_once`: around the last separator.
abbrev pub before_last : ℕ → ℕ → Str → Option (Str × Str) → Option (Str × Str)
before_last separator c s (some (host, port)) = some (c ∷ host, port)
before_last separator c s none = if c == separator then some ([], s) else none

unfoldable pub rsplit_once : ℕ → Str → Option (Str × Str)
rsplit_once separator [] = none
rsplit_once separator (c ∷ s) = before_last separator c s (rsplit_once separator s)

abbrev pub is_digit : ℕ → Bool
is_digit c = leb b'0' c && leb c b'9'

-- The digits of `str::parse::<u16>`, behind `acc`.
unfoldable pub parse_digits : ℕ → Str → Option ℕ
parse_digits acc [] = some acc
parse_digits acc (c ∷ s) =
    let n = acc * 10 + (c - b'0') in
    let rest = parse_digits n s in if is_digit c && leb n 65535 then rest else none

abbrev pub some_digits : Str → Option ℕ
some_digits [] = none
some_digits (c ∷ s) = parse_digits 0 (c ∷ s)

-- `str::parse::<u16>`: one `+` is allowed in front.
unfoldable pub parse_u16 : Str → Option ℕ
parse_u16 [] = none
parse_u16 (c ∷ s) = if c == b'+' then some_digits s else some_digits (c ∷ s)

abbrev pub is_none : {A : Type 0} → Option A → Bool
is_none none = true
is_none (some a) = false

-- `if test { return Err(Config(..)) }`
abbrev pub refuse_if : Bool → Message → Result (Unit {0})
refuse_if true m = err (config m)
refuse_if false m = ok tt

-- The two sides of the last colon.
unfoldable pub check_host_port : Str → Str → Option (Str × Str) → Result (Unit {0})
check_host_port field value none = err (config (host_port_expected field value))
check_host_port field value (some (host, port)) =
    Error.◌>>=◌ (refuse_if (is_empty host) (host_empty field value))
      λ _. refuse_if (is_none (parse_u16 port)) (port_invalid field value)

-- `passwords.iter().all(..)`
unfoldable pub is_password_hash : Str → Bool
is_password_hash p = length p == 56 && all is_ascii_hexdigit p

abbrev pub fallback_field : Str
fallback_field =
    b'f' ∷ b'a' ∷ b'l' ∷ b'l' ∷ b'b' ∷ b'a' ∷ b'c' ∷ b'k' ∷ b'_' ∷ b'a' ∷ b'd' ∷ b'd' ∷ b'r' ∷ []

-- `is_socket_addr` is `value.parse::<SocketAddr>().is_ok()`.
module _ (is_socket_addr : Str → Bool) where
  unfoldable pub validate_host_port : Str → Str → Result (Unit {0})
  unfolding check_host_port
  validate_host_port field value =
      if is_socket_addr value then ok tt else check_host_port field value (rsplit_once b':' value)

-- `exists` is `Path::new(path).exists()`.
module _ (is_socket_addr exists : Str → Bool) where
  unfoldable pub validate : Config → Result (Unit {0})
  validate c = Error.◌>>=◌ (refuse_if (is_empty c.passwords) no_passwords) λ _.
      Error.◌>>=◌ (refuse_if (not (is_socket_addr c.bind_addr)) (invalid_bind_addr c.bind_addr))
        λ _. Error.◌>>=◌ (refuse_if (not (exists c.tls_cert)) (cert_not_found c.tls_cert)) λ _.
          Error.◌>>=◌ (refuse_if (not (exists c.tls_key)) (key_not_found c.tls_key)) λ _.
            Error.◌>>=◌ (refuse_if (not (all is_password_hash c.passwords)) password_format) λ _.
              Error.◌>>=◌
                (refuse_if (not (is_socket_addr c.udp_bind_addr))
                  (invalid_udp_bind_addr c.udp_bind_addr))
                λ _. validate_host_port is_socket_addr fallback_field c.fallback_addr

  -- `from_file`, for the outcome of reading the file and the TOML reader.
  unfoldable pub from_file : IoResult Str → (Str → Option Config) → Result Config
  from_file content from_str =
      Error.◌>>=◌ (map_err (λ e. config (config_unreadable e)) content) λ text.
        Error.◌>>=◌ (ok_or (from_str text) (config config_malformed))
          λ c. Error.◌>>=◌ (validate c) λ _. ok c
