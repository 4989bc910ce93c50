-- ===== src/Reality/Handshake.antt =====
-- src/reality/handshake.rs: the configurations of a Reality handshake. rustls and tokio_rustls are
-- parameters.
pub mod Loading
use rust.Prelude.{ℕ, Bool, true, false, Option, none, some, List, [], ◌∷◌, if◌then◌else◌}
use rust.Error
use rust.Error.{
  Result, ok, err, panic, tls, reality_cert_unreadable, reality_key_unreadable,
  reality_key_malformed, reality_no_certificates, reality_no_private_key,
}
use rust.Bytes.{Str}
use rust.Exec.{Io, IoResult, done, failed, map_err, Exec, await_io, pure, ◌>>=◌}
use rust.Tls.{Rustls, alpn_h2, alpn_http11}

-- `iter.filter_map(|c| c.ok()).collect()`
unfoldable pub filter_ok : {A : Type 0} → List (IoResult A) → List A
filter_ok [] = []
filter_ok (failed e ∷ items) = filter_ok items
filter_ok (done a ∷ items) = a ∷ filter_ok items

module _ (tls_lib : Rustls) where
  abbrev pub or_none : List tls_lib.Certificate → Result (List tls_lib.Certificate)
  or_none [] = err (tls reality_no_certificates)
  or_none (c ∷ cs) = ok (c ∷ cs)

  unfoldable pub load_certs : Str → Result (List tls_lib.Certificate)
  unfolding filter_ok
  load_certs path =
      Error.◌>>=◌ (map_err (λ e. tls (reality_cert_unreadable e)) (tls_lib.open_file path))
        λ file. or_none (filter_ok (tls_lib.certs file))

  abbrev pub or_no_key : Option tls_lib.PrivateKey → Result tls_lib.PrivateKey
  or_no_key (some key) = ok key
  or_no_key none = err (tls reality_no_private_key)

  unfoldable pub load_private_key : Str → Result tls_lib.PrivateKey
  load_private_key path =
      Error.◌>>=◌ (map_err (λ e. tls (reality_key_unreadable e)) (tls_lib.open_file path)) λ file.
        Error.◌>>=◌ (map_err (λ e. tls (reality_key_malformed e)) (tls_lib.private_key file))
          λ found. or_no_key found

  pub record RealityConfig : Type 0 where
    pub cert_chain : List tls_lib.Certificate
    pub private_key : tls_lib.PrivateKey
    pub target_domain : Str
    pub alpn_protocols : List Str

  unfoldable pub new_config : Str → Str → Str → Result RealityConfig
  unfolding load_certs load_private_key
  new_config cert_path key_path target_domain = Error.◌>>=◌ (load_certs cert_path) λ cert_chain.
      Error.◌>>=◌ (load_private_key key_path) λ private_key. ok (record {
        cert_chain = cert_chain;
        private_key = private_key;
        target_domain = target_domain;
        alpn_protocols = alpn_h2 ∷ alpn_http11 ∷ [];
      })

  pub record CertResolver : Type 0 where
    pub cert_chain : List tls_lib.Certificate
    pub private_key : tls_lib.PrivateKey

  -- `CertResolver::new`
  unfoldable pub new_resolver : List tls_lib.Certificate → tls_lib.PrivateKey → Result CertResolver
  new_resolver cert_chain private_key =
      ok (record { cert_chain = cert_chain; private_key = private_key })

  -- The certified key for any client, none if the key has no supported type.
  unfoldable pub resolve : CertResolver → Option (List tls_lib.Certificate × tls_lib.PrivateKey)
  resolve c =
      if tls_lib.any_supported_type c.private_key then some (c.cert_chain, c.private_key) else none

  -- The settings of rustls's `ServerConfig` that the code makes.
  pub record ServerConfig : Type 0 where
    pub cert_resolver : CertResolver
    pub alpn_protocols : List Str
    pub session_storage : ℕ

  unfoldable pub build_server_config : RealityConfig → Result ServerConfig
  unfolding new_resolver
  build_server_config c = Error.◌>>=◌ (new_resolver c.cert_chain c.private_key) λ cert_resolver.
      ok (record {
        cert_resolver = cert_resolver;
        alpn_protocols = c.alpn_protocols;
        session_storage = 256;
      })

  pub record RealityHandshake : Type 0 where
    pub config : ServerConfig
    pub fallback_config : Option ServerConfig

  unfoldable pub new : RealityConfig → Result RealityHandshake
  unfolding build_server_config
  new c =
      Error.◌>>=◌ (build_server_config c)
        λ server_config. ok (record { config = server_config; fallback_config = none })

  unfoldable pub with_fallback : RealityConfig → RealityHandshake → Result RealityHandshake
  unfolding build_server_config
  with_fallback fallback_config h =
      Error.◌>>=◌ (build_server_config fallback_config)
        λ fallback. ok (record h { fallback_config = some fallback })

  -- `accept_with` is the acceptor of tokio_rustls for a configuration.
  unfoldable pub accept : {S T : Type 0} → (ServerConfig → Io S T) → RealityHandshake → Exec S T
  accept accept_with h = await_io (accept_with h.config)

  -- The settings of rustls's `ClientConfig` that the code makes: it trusts these roots, and shows
  -- the server no certificate of its own.
  pub record ClientConfig : Type 0 where
    pub root_certificates : List tls_lib.Certificate
    pub client_auth : Option CertResolver
    pub alpn_protocols : List Str

  unfoldable pub get_browsersim_config : ClientConfig
  get_browsersim_config = record {
    root_certificates = [];
    client_auth = none;
    alpn_protocols = alpn_h2 ∷ alpn_http11 ∷ [];
  }
