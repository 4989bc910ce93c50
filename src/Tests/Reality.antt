-- ===== src/Tests/Reality.antt =====
-- The theorems on the Vision protocol, at one request and a checksum in the place of SHA-224.
use rust.Prelude.{
  Option, ap, ◌∷◌, ℕ, ◌+◌, ◌%◌, ◌^◌, ◌<◌, ◌≡◌, ◌↔◌, ◌⊎◌, refl, true, false, some, List, [], ◌++◌,
  arith, length,
}
use rust.Error.{ok}
use rust.Bytes.{AreBytes, is_ascii_hexdigit}
use rust.Io.Finite.{memory_finite}
use rust.Io.Memory.{memory}
use rust.Protocol.Command.{connect}
use rust.Reality.Vision.{
  VisionAuthRequest, is_expired, encode_request, read_auth_request, new_protocol,
}
use rust.Reality.Vision.Laws.{
  IsRequest, base, is_expired_iff, is_expired_wraps, read_auth_request-encode_request,
}
use rust.Exec.{Exec, ◌>>=◌}
use rust.Error.{Result}
use rust.Bytes.{from_utf8, valid_utf8, eq_ignore_ascii_case, to_ascii_lowercase}
use rust.Protocol.Command.{Command}
use rust.Protocol.Address.{Address}
use rust.Reality.Vision.{authenticate, in_time, admit}
use rust.Reality.Vision.Authenticate.{IsTimely, Authenticates, authenticate-Authenticates}
use rust.Reality.StateMachine.{
  ConnectionStateMachine, authenticated, new, set_fallback, on_authenticate, take_stream,
  from_state, transition_to_authenticating, transition_to_forwarding,
}
use rust.Reality.StateMachine.Invariant.{
  IsValid, holds, Auth, here, next, sets, authenticates, Reach-IsValid,
}
use rust.Reality.StateMachine.Forwarding.{Outcome, transition_to_forwarding-Outcome}
use rust.Reality.Vision.{
  read_version, read_body, read_integrity, check_request, verify_integrity, current_unix_timestamp,
  encoded_without_integrity_hash, to_be64,
}
use rust.Protocol.Address.{encode, be16_at}
use rust.Protocol.Address.Wire.{wire}
use rust.Protocol.Command.{from_u8, as_u8}
use rust.Protocol.Address.Read.{read_from, read_domain}
use rust.Io.Memory.{read_exact, read_u8, read_u16, read_u64}
use rust.Bytes.{from_be, utf8_run, bytes_eq}
use rust.Tests.Network.{idle, net, net-IsDelivering}
use rust.Tests.Data.{example_com, example_com-IsWire, client_hash, repeat, request}

abbrev pub vision_request : VisionAuthRequest
vision_request = record {
  magic = 0xfe;
  version = 1;
  command = connect;
  address = example_com;
  timestamp = 1000;
  password_hash = client_hash;
  integrity_hash = [];
}

pub vision_request-IsRequest : IsRequest vision_request
unfolding is_ascii_hexdigit
vision_request-IsRequest = record {
  magic = refl;
  version = refl;
  target = example_com-IsWire;
  host = omega arith;
  time = omega arith;
  size = refl;
  hex = refl;
}

-- 28 copies of the length.
abbrev pub checksum : List ℕ → List ℕ
checksum l = repeat 28 (length l % 256)

read_auth_request-encode_request_example :
    (bytes : List ℕ) × (encode_request checksum vision_request ≡ ok bytes)
    × (read_auth_request checksum memory (some 1100) (bytes ++ request)
        ≡ (ok (record vision_request { integrity_hash = checksum (base vision_request) }), request))
unfolding is_expired
read_auth_request-encode_request_example =
    read_auth_request-encode_request checksum (λ l. refl) vision_request 1100 request
      vision_request-IsRequest refl

is_expired_iff_example : (is_expired 1000 1301 ≡ true) ↔ ((1301 + 300 < 1000) ⊎ (1000 + 300 < 1301))
is_expired_iff_example = is_expired_iff 1000 1301 (omega arith) (omega arith)

is_expired_wraps_example : is_expired 1000 (1000 + 2 ^ 63) ≡ false
is_expired_wraps_example = is_expired_wraps 1000 (omega arith)

-- What the client sends.
abbrev vision_bytes : List ℕ
vision_bytes = base vision_request ++ checksum (base vision_request) ++ request

vision_bytes_lem :
    read_auth_request checksum memory (some 1100) vision_bytes
    ≡ (ok (record vision_request { integrity_hash = checksum (base vision_request) }), request)
unfolding is_expired read_auth_request ◌>>=◌ read_version read_body read_integrity check_request
    verify_integrity current_unix_timestamp encoded_without_integrity_hash to_be64 base wire encode
    from_u8 as_u8 read_from read_domain read_exact read_u8 read_u16 read_u64 from_be from_utf8
    valid_utf8 utf8_run is_ascii_hexdigit bytes_eq be16_at
vision_bytes_lem = refl

-- A timer that never runs out.
abbrev pub timeout_of : {S A : Type 0} → ℕ → Exec S A → S → Option (Result A) × S
timeout_of seconds m s = (some (m s).0, (m s).1)

pub timeout_of-IsTimely : {S A : Type 0} → IsTimely {S = S} {A = A} timeout_of
timeout_of-IsTimely = record {
  in_time_lem =
      λ seconds m s s' result e. λ i. (some-injective (ap (λ t. t.0) e) i, ap (λ t. t.1) e i);
}
  where
    some-injective : {A : Type 0} {a b : A} → some a ≡ some b → a ≡ b
    some-injective e = cc

authenticated_lem :
    Auth checksum memory timeout_of (new_protocol 10) (some 1100) (client_hash ∷ []) vision_bytes
    ≡ (ok (connect, example_com), request)
unfolding authenticate new_protocol in_time admit from_utf8 valid_utf8 eq_ignore_ascii_case
    to_ascii_lowercase ◌>>=◌
authenticated_lem = rw vision_bytes_lem refl

some-injective : {m n : ℕ} → some m ≡ some n → m ≡ n
some-injective e = cc

vision_bytes-AreBytes : AreBytes vision_bytes
unfolding base to_be64 as_u8 wire
vision_bytes-AreBytes = omega arith

authenticate-Authenticates_example :
    Authenticates checksum memory memory_finite timeout_of timeout_of-IsTimely
      (some 1100)
      (client_hash ∷ [])
      vision_bytes
      (connect, example_com)
      request
unfolding memory_finite
authenticate-Authenticates_example =
    authenticate-Authenticates checksum memory memory_finite timeout_of timeout_of-IsTimely
      (new_protocol 10) (some 1100) (client_hash ∷ []) vision_bytes request (connect, example_com)
      (λ now e. omega (arith, some-injective e)) vision_bytes-AreBytes authenticated_lem

abbrev auth : Exec (List ℕ) (Command × Address)
auth = Auth checksum memory timeout_of (new_protocol 10) (some 1100) (client_hash ∷ [])

-- A machine with a fallback, before and after its authentication.
abbrev waiting : ConnectionStateMachine (List ℕ)
waiting = set_fallback example_com (new vision_bytes)

abbrev admitted : ConnectionStateMachine (List ℕ)
admitted = record {
  stream = some request;
  state = authenticated;
  auth_result = some (connect, example_com);
  fallback_address = some example_com;
}

admitted_lem :
    (transition_to_authenticating checksum memory timeout_of
      (new_protocol 10)
      (some 1100)
      (client_hash ∷ [])
      waiting).0
    ≡ ok admitted
unfolding transition_to_authenticating from_state take_stream on_authenticate set_fallback new
admitted_lem = rw authenticated_lem refl

Reach-IsValid_example : IsValid auth vision_bytes admitted
Reach-IsValid_example =
    Reach-IsValid checksum memory timeout_of (new_protocol 10) (some 1100) (client_hash ∷ [])
      vision_bytes (next (next here (sets example_com)) (authenticates admitted_lem))

transition_to_forwarding-Outcome_example :
    Outcome net net-IsDelivering auth vision_bytes admitted example_com 10 idle
      (transition_to_forwarding net example_com 10 admitted idle)
transition_to_forwarding-Outcome_example =
    transition_to_forwarding-Outcome net net-IsDelivering auth vision_bytes admitted example_com 10
      idle (holds (connect, example_com) request refl authenticated_lem refl refl)
