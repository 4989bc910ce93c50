-- ===== src/Reality/Vision.antt =====
-- src/reality/vision.rs: the authentication request of the Vision protocol. SHA-224, the clock and
-- the timer are parameters.
pub mod Laws
pub mod Genuine
pub mod Reads
pub mod Body
pub mod Sound
pub mod Authenticate
pub mod Finite
pub mod Admission
use rust.Prelude.{
  ℕ, ◌+◌, ◌-◌, ◌/◌, ◌%◌, ◌^◌, Option, none, some, List, [], ◌∷◌, ◌++◌, ltb, leb, ◌==◌,
  if◌then◌else◌, length, Bool, true, false, all, any, not, ◌&&◌,
}
use rust.Error
use rust.Error.{
  Result, ok, err, panic, protocol, timeout, authentication_failed, vision_magic, vision_version,
  vision_hash_format, vision_hash_encoding, vision_hash_length, timestamp_expired, integrity_failed,
  clock_before_epoch,
}
use rust.Bytes.{Str, is_ascii_hexdigit, eq_ignore_ascii_case, bytes_eq, from_utf8}
use rust.Exec.{Exec, pure, raise, lift, perform, await_io, ◌>>=◌}
use rust.Io.{AsyncRead}
use rust.Protocol.Command.{Command, from_u8, as_u8}
use rust.Protocol.Address.{Address, encode}
use rust.Protocol.Address.Read as AddressRead

abbrev pub vision_magic_header : ℕ
vision_magic_header = 0xfe

abbrev pub vision_version_number : ℕ
vision_version_number = 0x01

abbrev pub vision_password_hex_len : ℕ
vision_password_hex_len = 56

abbrev pub vision_hash_len : ℕ
vision_hash_len = 28

pub record VisionAuthRequest : Type 0 where
  pub magic : ℕ
  pub version : ℕ
  pub command : Command
  pub address : Address
  pub timestamp : ℕ
  pub password_hash : List ℕ
  pub integrity_hash : List ℕ

-- `BufMut::put_u64`
unfoldable pub to_be64 : ℕ → List ℕ
to_be64 n =
    n / 2 ^ 56
    ∷ n / 2 ^ 48 % 256
    ∷ n / 2 ^ 40 % 256
    ∷ n / 2 ^ 32 % 256
    ∷ n / 2 ^ 24 % 256
    ∷ n / 2 ^ 16 % 256
    ∷ n / 2 ^ 8 % 256
    ∷ n % 256
    ∷ []

-- `(current_time as i64 - timestamp as i64).abs() > 300`, with the difference and the absolute value
-- of 64 bits as a build without overflow checks computes them: the least number is its own absolute
-- value.
unfoldable pub is_expired : ℕ → ℕ → Bool
is_expired current_time timestamp =
    let difference = (current_time + (2 ^ 64 - timestamp)) % 2 ^ 64 in
    if ltb difference (2 ^ 63)
    then ltb 300 difference
    else not (difference == 2 ^ 63) && ltb 300 (2 ^ 64 - difference)

-- The seconds since the epoch, none if the clock stands before it.
unfoldable pub current_unix_timestamp : Option ℕ → Result ℕ
current_unix_timestamp (some seconds) = ok seconds
current_unix_timestamp none = err (protocol clock_before_epoch)

unfoldable pub parse_password_hash : Str → Result (List ℕ)
parse_password_hash value =
    if length value == vision_password_hex_len && all is_ascii_hexdigit value
    then ok value
    else err (protocol vision_hash_length)

unfoldable pub encoded_without_integrity_hash : VisionAuthRequest → Result (List ℕ)
encoded_without_integrity_hash q = Error.◌>>=◌ (encode q.address) λ addr_bytes. ok (
    q.magic
    ∷ q.version
    ∷ as_u8 q.command
    ∷ (addr_bytes ++ (to_be64 q.timestamp ++ q.password_hash)))

unfoldable pub encode_with_integrity_hash : VisionAuthRequest → Result (List ℕ)
encode_with_integrity_hash q =
    Error.◌>>=◌ (encoded_without_integrity_hash q) λ buf. ok (buf ++ q.integrity_hash)

unfoldable pub is_vision_packet : List ℕ → Bool
is_vision_packet (magic ∷ version ∷ rest) =
    magic == vision_magic_header && version == vision_version_number
is_vision_packet _ = false

module _ (compute_hash : List ℕ → List ℕ) where
  unfoldable pub with_integrity_hash : VisionAuthRequest → Result VisionAuthRequest
  with_integrity_hash q =
      Error.◌>>=◌ (encoded_without_integrity_hash q)
        λ base. ok (record q { integrity_hash = compute_hash base })

  -- `VisionAuthRequest::encode`
  unfoldable pub encode_request : VisionAuthRequest → Result (List ℕ)
  encode_request q = Error.◌>>=◌ (with_integrity_hash q) encode_with_integrity_hash

  unfoldable pub verify_integrity : VisionAuthRequest → Result (Unit {0})
  verify_integrity q = Error.◌>>=◌ (encoded_without_integrity_hash q) λ base.
      if bytes_eq (compute_hash base) q.integrity_hash
      then ok tt
      else err (protocol integrity_failed)

  -- `VisionAuthRequest::new`
  unfoldable pub new_request : Option ℕ → Command → Address → Str → Result VisionAuthRequest
  new_request clock command address password_hash_hex =
      Error.◌>>=◌ (parse_password_hash password_hash_hex) λ password_hash.
        Error.◌>>=◌ (current_unix_timestamp clock) λ timestamp. with_integrity_hash (record {
          magic = vision_magic_header;
          version = vision_version_number;
          command = command;
          address = address;
          timestamp = timestamp;
          password_hash = password_hash;
          integrity_hash = [];
        })

  -- The checks on a request that was read.
  unfoldable pub check_request : Option ℕ → VisionAuthRequest → Result VisionAuthRequest
  check_request clock q = Error.◌>>=◌ (current_unix_timestamp clock) λ current_time.
      if is_expired current_time q.timestamp
      then err (protocol timestamp_expired)
      else Error.◌>>=◌ (verify_integrity q) λ _. ok q

  module _ (r : AsyncRead) (clock : Option ℕ) where
    -- Behind the password's hash.
    unfoldable pub read_integrity : Command → Address → ℕ → List ℕ → Exec r.Stream VisionAuthRequest
    read_integrity command address timestamp password_hash = do
      integrity_hash ← await_io (r.read_exact vision_hash_len)
      lift (
          check_request clock (record {
            magic = vision_magic_header;
            version = vision_version_number;
            command = command;
            address = address;
            timestamp = timestamp;
            password_hash = password_hash;
            integrity_hash = integrity_hash;
          }))

    -- Behind the version.
    unfoldable pub read_body : Exec r.Stream VisionAuthRequest
    unfolding read_integrity
    read_body = do
      cmd_byte ← await_io r.read_u8
      command ← lift (from_u8 cmd_byte)
      address ← AddressRead.read_from r
      timestamp ← await_io r.read_u64
      password_hash ← await_io (r.read_exact vision_password_hex_len)
      if all is_ascii_hexdigit password_hash
          then read_integrity command address timestamp password_hash
          else raise (protocol vision_hash_format)

    unfoldable pub read_version : Exec r.Stream VisionAuthRequest
    unfolding read_body
    read_version = do
      version ← await_io r.read_u8
      if version == vision_version_number
          then read_body
          else raise (protocol (vision_version version))

    -- `VisionAuthRequest::read_from`
    unfoldable pub read_auth_request : Exec r.Stream VisionAuthRequest
    unfolding read_version
    read_auth_request = do
      magic ← await_io r.read_u8
      if magic == vision_magic_header then read_version else raise (protocol (vision_magic magic))

-- The client is let in if its hash is configured, but for the case of letters.
unfoldable pub admit : List Str → VisionAuthRequest → Option Str → Result (Command × Address)
admit valid_passwords q none = err (protocol vision_hash_encoding)
admit valid_passwords q (some password_hash) =
    if any (λ candidate. eq_ignore_ascii_case candidate password_hash) valid_passwords
    then ok (q.command, q.address)
    else err authentication_failed

-- How long an authentication may take, in seconds.
pub record VisionProtocol : Type 0 where
  pub auth_timeout : ℕ

-- `VisionProtocol::new`
unfoldable pub new_protocol : ℕ → VisionProtocol
new_protocol auth_timeout = record { auth_timeout = auth_timeout }

-- What became of the read within its time.
unfoldable pub in_time : Option (Result VisionAuthRequest) → Result VisionAuthRequest
in_time none = err timeout
in_time (some result) = result

module _ (compute_hash : List ℕ → List ℕ) (r : AsyncRead)
    (timeout_of : ℕ
      → Exec r.Stream VisionAuthRequest
      → r.Stream
      → Option (Result VisionAuthRequest) × r.Stream) where
  -- `VisionProtocol::authenticate`; `timeout_of` runs an action for so many seconds at most.
  unfoldable pub authenticate :
      VisionProtocol → Option ℕ → List Str → Exec r.Stream (Command × Address)
  unfolding in_time admit
  authenticate vision clock valid_passwords = do
    attempt ← perform (timeout_of vision.auth_timeout (read_auth_request compute_hash r clock))
    auth_request ← lift (in_time attempt)
    lift (admit valid_passwords auth_request (from_utf8 auth_request.password_hash))
