-- ===== src/Reality/Vision/Laws.antt =====
-- What a Vision request on the wire is read as, and which timestamps are let in.
use rust.Prelude.{
  ℕ, ◌+◌, ◌^◌, ◌<◌, ◌≡◌, ◌↔◌, ◌⊎◌, sym, arith, some, List, ◌∷◌, ◌++◌, length, true, false, all,
  append_assoc,
}
use rust.Error.{ok}
use rust.Bytes.{is_ascii_hexdigit, from_be}
use rust.Bytes.Laws.{bytes_eq_refl}
use rust.Exec.{done, ◌>>=◌}
use rust.Io.Memory.{memory, read_u8, read_u64}
use rust.Io.Memory.Laws.{read_exact-append}
use rust.Protocol.Command.{as_u8}
use rust.Protocol.Command.{from_u8-as_u8}
use rust.Protocol.Address.Wire as AddressWire
use rust.Protocol.Address.Encode.{HasHost, encode-wire}
use rust.Protocol.Address.Read.Laws as AddressRead
use rust.Reality.Vision.{
  VisionAuthRequest, to_be64, is_expired, encode_request, read_auth_request, check_request,
  vision_hash_len, encoded_without_integrity_hash, encode_with_integrity_hash, with_integrity_hash,
  verify_integrity, current_unix_timestamp,
}

from_be-to_be64 : (t : ℕ) → t < 2 ^ 64 → from_be 0 (to_be64 t) ≡ t
unfolding to_be64 from_be
from_be-to_be64 t h = omega arith

read_u64-to_be64 :
    (t : ℕ) (rest : List ℕ) → t < 2 ^ 64 → read_u64 (to_be64 t ++ rest) ≡ (done t, rest)
unfolding read_u64 to_be64 from_be
read_u64-to_be64 t rest h = ground (arith, from_be-to_be64 t h)

-- Where both clocks stand before 2^63 seconds, a timestamp is refused exactly if it is more than 300
-- seconds away from the server's clock.
pub is_expired_iff :
    (now t : ℕ)
    → now < 2 ^ 63
    → t < 2 ^ 63
    → (is_expired now t ≡ true) ↔ ((t + 300 < now) ⊎ (now + 300 < t))
unfolding is_expired
is_expired_iff now t hn ht = ground arith

-- The timestamp that is 2^63 seconds ahead of the server's clock is let in too.
pub is_expired_wraps : (now : ℕ) → now < 2 ^ 63 → is_expired now (now + 2 ^ 63) ≡ false
unfolding is_expired
is_expired_wraps now h = ground arith

pub record IsRequest (q : VisionAuthRequest) : Type 0 where
  pub magic : q.magic ≡ 0xfe
  pub version : q.version ≡ 0x01
  pub target : AddressWire.IsWire q.address
  pub host : HasHost q.address
  pub time : q.timestamp < 2 ^ 64
  pub size : length q.password_hash ≡ 56
  pub hex : all is_ascii_hexdigit q.password_hash ≡ true

-- The layout of a request without its hash.
unfoldable pub base : VisionAuthRequest → List ℕ
base q =
    q.magic
    ∷ q.version
    ∷ as_u8 q.command
    ∷ (AddressWire.wire q.address ++ (to_be64 q.timestamp ++ q.password_hash))

encoded-base :
    (q : VisionAuthRequest) → IsRequest q → encoded_without_integrity_hash q ≡ ok (base q)
unfolding encoded_without_integrity_hash base
encoded-base q w = rw (encode-wire q.address w.target w.host)

module _ (compute_hash : List ℕ → List ℕ)
    (hash_size : (l : List ℕ) → length (compute_hash l) ≡ vision_hash_len) where
  -- The request with its hash.
  abbrev pub signed : VisionAuthRequest → VisionAuthRequest
  signed q = record q { integrity_hash = compute_hash (base q) }

  signed-IsRequest : (q : VisionAuthRequest) → IsRequest q → IsRequest (signed q)
  signed-IsRequest q w = record {
    magic = w.magic;
    version = w.version;
    target = w.target;
    host = w.host;
    time = w.time;
    size = w.size;
    hex = w.hex;
  }

  encode_request-base :
      (q : VisionAuthRequest)
      → IsRequest q
      → encode_request compute_hash q ≡ ok (base q ++ compute_hash (base q))
  unfolding encode_request with_integrity_hash encode_with_integrity_hash base
  encode_request-base q w = rw (encoded-base q w, encoded-base (signed q) (signed-IsRequest q w))

  pub check_request-signed :
      (q : VisionAuthRequest) (now : ℕ)
      → IsRequest q
      → is_expired now q.timestamp ≡ false
      → check_request compute_hash (some now) (signed q) ≡ ok (signed q)
  unfolding check_request current_unix_timestamp verify_integrity base
  check_request-signed q now w fresh =
      rw (
        fresh,
        encoded-base (signed q) (signed-IsRequest q w),
        bytes_eq_refl (compute_hash (base q)),
      )

  -- What is read, for any hash of the right size behind the request.
  read_signed :
      (q : VisionAuthRequest) (hash rest : List ℕ) (now : ℕ)
      → IsRequest q
      → length hash ≡ vision_hash_len
      → read_auth_request compute_hash memory (some now) (
          0xfe
          ∷ 0x01
          ∷ as_u8 q.command
          ∷ (AddressWire.wire q.address
              ++ (to_be64 q.timestamp ++ (q.password_hash ++ (hash ++ rest)))))
        ≡ (
          check_request compute_hash
              (some now)
              (record q { magic = 0xfe; version = 0x01; integrity_hash = hash }),
          rest,
        )
  unfolding read_auth_request ◌>>=◌ read_u8
  read_signed q hash rest now w size = rw (
    from_u8-as_u8 q.command,
    AddressRead.read_from-wire q.address
        (to_be64 q.timestamp ++ (q.password_hash ++ (hash ++ rest))) w.target,
    read_u64-to_be64 q.timestamp (q.password_hash ++ (hash ++ rest)) w.time,
    read_exact-append q.password_hash (hash ++ rest) 56 w.size,
    w.hex,
    read_exact-append hash rest 28 size,
  )

  base-append :
      (q : VisionAuthRequest) (more : List ℕ)
      → IsRequest q
      → base q ++ more
        ≡ 0xfe
          ∷ 0x01
          ∷ as_u8 q.command
          ∷ (AddressWire.wire q.address ++ (to_be64 q.timestamp ++ (q.password_hash ++ more)))
  unfolding base
  base-append q more w = rw (w.magic, w.version, append_assoc, append_assoc)

  signed-magic :
      (q : VisionAuthRequest)
      → IsRequest q
      → record q { magic = 0xfe; version = 0x01; integrity_hash = compute_hash (base q) } ≡ signed q
  signed-magic q w = λ i. record q {
    magic = sym w.magic i;
    version = sym w.version i;
    integrity_hash = compute_hash (base q);
  }

  -- A request with a layout is encoded, and what is encoded is read back as the request with its
  -- hash, whatever follows it, by a server whose clock has not expired it; for every hash function
  -- with results of 28 bytes.
  pub read_auth_request-encode_request :
      (q : VisionAuthRequest) (now : ℕ) (rest : List ℕ)
      → IsRequest q
      → is_expired now q.timestamp ≡ false
      → (bytes : List ℕ) × (encode_request compute_hash q ≡ ok bytes)
        × (read_auth_request compute_hash memory (some now) (bytes ++ rest)
            ≡ (ok (record q { integrity_hash = compute_hash (base q) }), rest))
  read_auth_request-encode_request q now rest w fresh =
      let hash = compute_hash (base q) in
      (
        base q ++ hash,
        encode_request-base q w,
        rw (
          append_assoc,
          base-append q (hash ++ rest) w,
          read_signed q hash rest now w (hash_size (base q)),
          signed-magic q w,
          check_request-signed q now w fresh,
        ),
      )
