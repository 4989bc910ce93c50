-- ===== src/Tls.antt =====
-- src/tls.rs: the certificates, the key and the settings of the TLS acceptor. The file system and
-- rustls are parameters.

use rust.Prelude.{Bool, true, Option, none, some, List, [], ◌∷◌, if◌then◌else◌}
use rust.Error
use rust.Error.{
  Result, ok, err, panic, tls, cert_unreadable, key_unreadable, chain_malformed, key_malformed,
  tls_rejected, no_certificates, no_private_key,
}
use rust.Bytes.{Str}
use rust.Exec.{IoResult, done, failed, map_err}

-- What the program calls of the file system, rustls and rustls_pemfile: the items of a file, with
-- what is malformed, and whether rustls takes a chain with its key.
pub record Rustls : Type 1 where
  pub File : Type 0
  pub Certificate : Type 0
  pub PrivateKey : Type 0
  pub open_file : Str → IoResult File
  pub certs : File → List (IoResult Certificate)
  pub private_key : File → IoResult (Option PrivateKey)
  pub with_single_cert : List Certificate → PrivateKey → Bool
  pub any_supported_type : PrivateKey → Bool

abbrev pub alpn_h2 : Str
alpn_h2 = b'h' ∷ b'2' ∷ []

abbrev pub alpn_http11 : Str
alpn_http11 = b'h' ∷ b't' ∷ b't' ∷ b'p' ∷ b'/' ∷ b'1' ∷ b'.' ∷ b'1' ∷ []

-- `iter.collect::<Result<Vec<_>, _>>()`
unfoldable pub collect : {A : Type 0} → List (IoResult A) → IoResult (List A)
collect [] = done []
collect (failed e ∷ items) = failed e
collect (done a ∷ items) = elim (collect items) [
  | done rest ↦ done (a ∷ rest)
  | failed e ↦ failed e
]

module _ (tls_lib : Rustls) where
  abbrev pub or_none : List tls_lib.Certificate → Result (List tls_lib.Certificate)
  or_none [] = err (tls no_certificates)
  or_none (c ∷ cs) = ok (c ∷ cs)

  unfoldable pub load_certs : Str → Result (List tls_lib.Certificate)
  unfolding collect
  load_certs path =
      Error.◌>>=◌ (map_err (λ e. tls (cert_unreadable e)) (tls_lib.open_file path)) λ file.
        Error.◌>>=◌ (map_err (λ e. tls (chain_malformed e)) (collect (tls_lib.certs file)))
          λ certs. or_none certs

  abbrev pub or_no_key : Option tls_lib.PrivateKey → Result tls_lib.PrivateKey
  or_no_key (some key) = ok key
  or_no_key none = err (tls no_private_key)

  unfoldable pub load_key : Str → Result tls_lib.PrivateKey
  load_key path =
      Error.◌>>=◌ (map_err (λ e. tls (key_unreadable e)) (tls_lib.open_file path)) λ file.
        Error.◌>>=◌ (map_err (λ e. tls (key_malformed e)) (tls_lib.private_key file))
          λ found. or_no_key found

  -- The settings of the acceptor that the code makes.
  pub record TlsConfig : Type 0 where
    pub certs : List tls_lib.Certificate
    pub key : tls_lib.PrivateKey
    pub tls13_only : Bool
    pub alpn_protocols : List Str
    pub ignore_client_order : Bool

  abbrev pub settings : List tls_lib.Certificate → tls_lib.PrivateKey → TlsConfig
  settings certs key = record {
    certs = certs;
    key = key;
    tls13_only = true;
    alpn_protocols = alpn_h2 ∷ alpn_http11 ∷ [];
    ignore_client_order = true;
  }

  unfoldable pub new : Str → Str → Result TlsConfig
  unfolding load_certs load_key
  new cert_path key_path = Error.◌>>=◌ (load_certs cert_path) λ certs.
      Error.◌>>=◌ (load_key key_path) λ key.
        if tls_lib.with_single_cert certs key
        then ok (settings certs key)
        else err (tls tls_rejected)
