-- ===== src/Tests/Config.antt =====
-- The theorems on the configuration, at one that is accepted.
use rust.Prelude.{◌≡◌, ◌↔◌, inr, refl, Bool, true, false, [], ◌∷◌, arith, ◌==◌}
use rust.Error.{ok}
use rust.Bytes.{Str, is_ascii_hexdigit}
use rust.Config.{Config, validate}
use rust.Config.Laws.{IsValid, validate_iff}
use rust.Config.HostPort.{IsHostPort, plain, value}
use rust.Tests.Data.{server}

-- A parser of socket addresses that knows only the texts with a colon in front, and a file system
-- with all files.
abbrev pub is_socket_addr : Str → Bool
is_socket_addr [] = false
is_socket_addr (c ∷ rest) = c == b':'

abbrev pub exists : Str → Bool
exists path = true

-- `a:80`
abbrev backend : Str
backend = b'a' ∷ b':' ∷ b'8' ∷ b'0' ∷ []

abbrev pub accepted : Config
accepted = record server { fallback_addr = backend }

backend-IsHostPort : IsHostPort backend
unfolding value
backend-IsHostPort = record {
  host = b'a' ∷ [];
  port = b'8' ∷ b'0' ∷ [];
  split = refl;
  some_host = λ e. cc;
  is_port = plain (record { some_digit = λ e. cc; digits = refl; fits = omega arith });
}

pub accepted-IsValid : IsValid is_socket_addr exists accepted
unfolding is_ascii_hexdigit
accepted-IsValid = record {
  some_password = λ e. cc;
  bind = refl;
  cert = refl;
  key = refl;
  hashes = ((refl, refl), tt);
  udp = refl;
  fallback = inr backend-IsHostPort;
}

validate_iff_example :
    (validate is_socket_addr exists accepted ≡ ok tt) ↔ IsValid is_socket_addr exists accepted
validate_iff_example = validate_iff is_socket_addr exists accepted
