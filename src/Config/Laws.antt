-- ===== src/Config/Laws.antt =====
-- Which configurations `Config::validate` accepts.
use rust.Prelude.{
  is_empty, ◌≡◌, ◌≢◌, ◌↔◌, ◌⊎◌, refl, Bool, true, false, not, List, [], ◌∷◌, arith, length, all,
  All,
}
use rust.Error
use rust.Error.{Result, ok, err, panic, Message}
use rust.Bytes.{Str, is_ascii_hexdigit}
use rust.Config.{Config, refuse_if, is_password_hash, validate, fallback_field}
use rust.Config.HostPort.{IsHostPort, validate_host_port_iff}

-- 56 hexadecimal digits.
abbrev pub IsPasswordHash : Str → Type 0
IsPasswordHash p = (length p ≡ 56) × (all is_ascii_hexdigit p ≡ true)

pub record IsValid (is_socket_addr exists : Str → Bool) (c : Config) : Type 0 where
  pub some_password : c.passwords ≢ []
  pub bind : is_socket_addr c.bind_addr ≡ true
  pub cert : exists c.tls_cert ≡ true
  pub key : exists c.tls_key ≡ true
  pub hashes : All IsPasswordHash c.passwords
  pub udp : is_socket_addr c.udp_bind_addr ≡ true
  pub fallback : (is_socket_addr c.fallback_addr ≡ true) ⊎ IsHostPort c.fallback_addr

is_password_hash_iff :
    (l : List Str) → (not (all is_password_hash l) ≡ false) ↔ All IsPasswordHash l
unfolding is_password_hash
is_password_hash_iff [] = (λ _. tt, λ _. refl)
is_password_hash_iff (p ∷ l) = ground (arith, is_password_hash_iff l)

is_empty_iff : (l : List Str) → (is_empty l ≡ false) ↔ (l ≢ [])
is_empty_iff [] = (λ e. cc, λ q. absurd (q refl))
is_empty_iff (p ∷ l) = (λ e q. cc, λ q. refl)

not_iff : (b : Bool) → (not b ≡ false) ↔ (b ≡ true)
not_iff true = (λ e. refl, λ e. refl)
not_iff false = (λ e. cc, λ e. cc)

-- A check and what follows it succeed together.
refuse_if_iff :
    (b : Bool) (m : Message) (k : Result (Unit {0}))
    → (Error.◌>>=◌ (refuse_if b m) (λ _. k) ≡ ok tt) ↔ ((b ≡ false) × (k ≡ ok tt))
refuse_if_iff true m k = (λ e. cc, λ e. cc)
refuse_if_iff false m k = (λ e. (refl, e), λ e. e.1)

module _ (is_socket_addr exists : Str → Bool) (c : Config) where
  validate-IsValid : validate is_socket_addr exists c ≡ ok tt → IsValid is_socket_addr exists c
  unfolding validate
  validate-IsValid e =
      let (e1, k1) = (refuse_if_iff _ _ _).0 e in
      let (e2, k2) = (refuse_if_iff _ _ _).0 k1 in
      let (e3, k3) = (refuse_if_iff _ _ _).0 k2 in
      let (e4, k4) = (refuse_if_iff _ _ _).0 k3 in
      let (e5, k5) = (refuse_if_iff _ _ _).0 k4 in
      let (e6, k6) = (refuse_if_iff _ _ _).0 k5 in
      record {
        some_password = (is_empty_iff c.passwords).0 e1;
        bind = (not_iff _).0 e2;
        cert = (not_iff _).0 e3;
        key = (not_iff _).0 e4;
        hashes = (is_password_hash_iff c.passwords).0 e5;
        udp = (not_iff _).0 e6;
        fallback = (validate_host_port_iff is_socket_addr fallback_field c.fallback_addr).0 k6;
      }

  IsValid-validate : IsValid is_socket_addr exists c → validate is_socket_addr exists c ≡ ok tt
  unfolding validate
  IsValid-validate v = (refuse_if_iff _ _ _).1 (
    (is_empty_iff c.passwords).1 v.some_password,
    (refuse_if_iff _ _ _).1 (
      (not_iff _).1 v.bind,
      (refuse_if_iff _ _ _).1 (
        (not_iff _).1 v.cert,
        (refuse_if_iff _ _ _).1 (
          (not_iff _).1 v.key,
          (refuse_if_iff _ _ _).1 (
            (is_password_hash_iff c.passwords).1 v.hashes,
            (refuse_if_iff _ _ _).1 (
              (not_iff _).1 v.udp,
              (validate_host_port_iff is_socket_addr fallback_field c.fallback_addr).1 v.fallback,
            ),
          ),
        ),
      ),
    ),
  )

  -- A configuration is accepted exactly if it is valid: it has a password, all are 56 hexadecimal
  -- digits, both bind addresses are socket addresses, the certificate and the key exist, and the
  -- fallback is a socket address or a host and a port.
  pub validate_iff : (validate is_socket_addr exists c ≡ ok tt) ↔ IsValid is_socket_addr exists c
  validate_iff = (validate-IsValid, IsValid-validate)
