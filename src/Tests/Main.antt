-- ===== src/Tests/Main.antt =====
-- The theorems on the start of the program, for a TLS library of toys.
use rust.Prelude.{◌^◌, ◌-◌, ◌≡◌, ◌↔◌, true, none, some, [], ◌∷◌}
use rust.Error.{ok, would_block}
use rust.Bytes.{Str}
use rust.Exec.{done, failed}
use rust.Main.{System, parse, default_config, main}
use rust.Proxy.Session.{session_id_start}
use rust.Main.Starts.{Outcome, main-Outcome}
use rust.Tls.{Rustls}
use rust.Tls as Tls
use rust.Reality.Handshake as Handshake
use rust.Reality.Handshake.Loading.{AreRead, load_certs_iff}
use rust.Tests.Config.{is_socket_addr, exists, accepted}

-- A file is its name; it has one certificate, one malformed item, and a key.
abbrev toys : Rustls
toys = record {
  File = Str;
  Certificate = Str;
  PrivateKey = Str;
  open_file = λ path. done path;
  certs = λ file. done file ∷ failed would_block ∷ [];
  private_key = λ file. done (some file);
  with_single_cert = λ certs key. true;
  any_supported_type = λ key. true;
}

-- The same without the malformed item.
abbrev good_toys : Rustls
good_toys = record {
  File = Str;
  Certificate = Str;
  PrivateKey = Str;
  open_file = λ path. done path;
  certs = λ file. done file ∷ [];
  private_key = λ file. done (some file);
  with_single_cert = λ certs key. true;
  any_supported_type = λ key. true;
}

abbrev path : Str
path = b'c' ∷ []

load_certs_iff_example :
    (Tls.load_certs toys path ≡ ok (path ∷ []))
    ↔ ((Handshake.load_certs toys path ≡ ok (path ∷ [])) × AreRead toys path)
load_certs_iff_example = load_certs_iff toys path (path ∷ [])

-- A system whose every file holds the accepted configuration, and where every address can be bound.
abbrev system : System
system = record {
  is_socket_addr = is_socket_addr;
  exists = exists;
  read_to_string = λ name. done name;
  from_str = λ text. some accepted;
  EnvFilter = Str;
  try_from_default_env = none;
  filter_of = λ text. text;
  Listener = Str;
  bind = λ addr. done addr;
  max_permits = 2 ^ 61 - 1;
}

main-Outcome_example :
    Outcome system good_toys default_config session_id_start
      (main system good_toys (parse none) session_id_start)
unfolding parse
main-Outcome_example = main-Outcome system good_toys (parse none) session_id_start
