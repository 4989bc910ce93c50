-- ===== src/Main/Panics.antt =====
-- Reading the configuration and making the TLS settings never panics.
use rust.Prelude.{
  is_empty, not, all, ◌≡◌, Bool, true, false, Option, some, none, List, [], ◌∷◌, if◌then◌else◌,
}
use rust.Error
use rust.Error.{
  TrojanError, Message, IoError, host_empty, port_invalid, Result, ok, err, panic, ok_or,
}
use rust.Bytes.{Str}
use rust.Exec.{IoResult}
use rust.Config.{
  Config, from_file, validate, validate_host_port, check_host_port, refuse_if, rsplit_once,
  is_password_hash, fallback_field, is_none, parse_u16,
}
use rust.Exec.Panics.{map_err-ne-panic, ok_or-ne-panic, bind-ne-panic}
use rust.Tls.{Rustls, TlsConfig, load_certs, load_key}
use rust.Tls as Tls

refuse_if-ne-panic : (b : Bool) (m : Message) → refuse_if b m ≡ panic → ⊥
refuse_if-ne-panic true m e = cc
refuse_if-ne-panic false m e = cc

-- A check and what follows it.
after_check :
    (b : Bool) (m : Message) (rest : Result (Unit {0}))
    → (rest ≡ panic → ⊥)
    → Error.◌>>=◌ (refuse_if b m) (λ _. rest) ≡ panic
    → ⊥
after_check b m rest h = bind-ne-panic (refuse_if b m) (λ _. rest) (refuse_if-ne-panic b m) (λ _. h)

check_host_port-ne-panic :
    (field text : Str) (parts : Option (Str × Str)) → check_host_port field text parts ≡ panic → ⊥
unfolding check_host_port
check_host_port-ne-panic field text none e = cc
check_host_port-ne-panic field text (some (host, port)) e =
    after_check (is_empty host) (host_empty field text) _
      (refuse_if-ne-panic (is_none (parse_u16 port)) (port_invalid field text)) e

module _ (is_socket_addr exists : Str → Bool) where
  host_port-ne-panic : (field text : Str) → validate_host_port is_socket_addr field text ≡ panic → ⊥
  unfolding validate_host_port
  host_port-ne-panic field text = go (is_socket_addr text)
    where
      go :
          (b : Bool)
          → (if b then ok tt else check_host_port field text (rsplit_once b':' text)) ≡ panic
          → ⊥
      go true e = cc
      go false e = check_host_port-ne-panic field text _ e

  validate-ne-panic : (c : Config) → validate is_socket_addr exists c ≡ panic → ⊥
  unfolding validate
  validate-ne-panic c = after_check (is_empty c.passwords) Error.no_passwords _ (
      after_check (not (is_socket_addr c.bind_addr)) (Error.invalid_bind_addr c.bind_addr) _ (
        after_check (not (exists c.tls_cert)) (Error.cert_not_found c.tls_cert) _ (
          after_check (not (exists c.tls_key)) (Error.key_not_found c.tls_key) _ (
            after_check (not (all is_password_hash c.passwords)) Error.password_format _ (
              after_check (not (is_socket_addr c.udp_bind_addr))
                (Error.invalid_udp_bind_addr c.udp_bind_addr) _
                (host_port-ne-panic fallback_field c.fallback_addr))))))

  pub from_file-ne-panic :
      (content : IoResult Str) (from_str : Str → Option Config)
      → from_file is_socket_addr exists content from_str ≡ panic
      → ⊥
  unfolding from_file
  from_file-ne-panic content from_str = bind-ne-panic _ _ (map_err-ne-panic _ content) λ text.
      bind-ne-panic _ _ (ok_or-ne-panic (from_str text) _)
        λ c. bind-ne-panic (validate is_socket_addr exists c) _ (validate-ne-panic c) λ _ e. cc

module _ (tls_lib : Rustls) where
  or_none-ne-panic : (l : List tls_lib.Certificate) → Tls.or_none tls_lib l ≡ panic → ⊥
  or_none-ne-panic [] e = cc
  or_none-ne-panic (c ∷ cs) e = cc

  or_no_key-ne-panic : (k : Option tls_lib.PrivateKey) → Tls.or_no_key tls_lib k ≡ panic → ⊥
  or_no_key-ne-panic none e = cc
  or_no_key-ne-panic (some k) e = cc

  pub new-ne-panic : (cert_path key_path : Str) → Tls.new tls_lib cert_path key_path ≡ panic → ⊥
  unfolding Tls.new load_certs load_key
  new-ne-panic cert_path key_path =
      bind-ne-panic (load_certs tls_lib cert_path) _
        (bind-ne-panic _ _ (map_err-ne-panic _ (tls_lib.open_file cert_path))
          λ file. bind-ne-panic _ _ (map_err-ne-panic _ _) or_none-ne-panic)
        λ certs.
          bind-ne-panic (load_key tls_lib key_path) _
            (bind-ne-panic _ _ (map_err-ne-panic _ (tls_lib.open_file key_path))
              λ file. bind-ne-panic _ _ (map_err-ne-panic _ _) or_no_key-ne-panic)
            λ key. made (tls_lib.with_single_cert certs key) certs key
    where
      made :
          (b : Bool) (certs : List tls_lib.Certificate) (key : tls_lib.PrivateKey)
          → (if b then ok (Tls.settings tls_lib certs key) else err (Error.tls Error.tls_rejected))
            ≡ panic
          → ⊥
      made true certs key e = cc
      made false certs key e = cc
