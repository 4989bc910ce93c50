-- ===== src/Reality/Vision/Sound.antt =====
-- What `VisionAuthRequest::read_from` has found in front of the bytes where it returns a request.
use rust.Prelude.{
  ℕ, ◌^◌, ◌<◌, ◌≡◌, refl, sym, ap, ◌∙◌, subst, none, some, List, ◌∷◌, ◌++◌, append_assoc,
}
use rust.Error
use rust.Error.{Result, ok, err, panic, protocol, vision_hash_format, vision_magic, vision_version}
use rust.Bytes.{AreBytes}
use rust.Exec.Inversion.{ok-injective}
use rust.Io.Memory.{memory}
use rust.Protocol.Command.{as_u8}
use rust.Protocol.Address.{encode}
use rust.Protocol.Address.Encode.{HasHost, encode_sound, encode-HasHost}
use rust.Reality.Vision.{
  VisionAuthRequest, to_be64, check_request, read_auth_request, current_unix_timestamp,
  encoded_without_integrity_hash, vision_magic_header, vision_version_number,
}
use rust.Reality.Vision.Laws.{IsRequest, base}
use rust.Reality.Vision.Genuine.{check_request-IsGenuine}
use rust.Reality.Vision.Reads.{IsFresh, unexpired-IsFresh}
use rust.Reality.Vision.Body.{read_auth_request-Body}

-- What the bytes of a request have to be: its layout, the hash of that layout, and then the rest.
pub record IsReceived (compute_hash : List ℕ → List ℕ) (now : ℕ) (buf rest : List ℕ)
    (q : VisionAuthRequest) : Type 0 where
  pub request : IsRequest q
  pub split : buf ≡ base q ++ (q.integrity_hash ++ rest)
  pub hashed : compute_hash (base q) ≡ q.integrity_hash
  pub fresh : IsFresh now q.timestamp

-- What the encoder says of an address, from an encoded request.
encoded_sound :
    (q : VisionAuthRequest) (bytes : List ℕ)
    → encoded_without_integrity_hash q ≡ ok bytes
    → HasHost q.address × (base q ≡ bytes)
unfolding encoded_without_integrity_hash base
encoded_sound q bytes e = go (encode q.address) refl e
  where
    go :
        (result : Result (List ℕ))
        → encode q.address ≡ result
        → Error.◌>>=◌ result (λ addr_bytes. ok (
            q.magic
            ∷ q.version
            ∷ as_u8 q.command
            ∷ (addr_bytes ++ (to_be64 q.timestamp ++ q.password_hash))))
          ≡ ok bytes
        → HasHost q.address × (base q ≡ bytes)
    go (ok l) p e' =
        (encode-HasHost q.address l p, rw (← encode_sound q.address l p) (ok-injective e'))
    go (err x) p e' = cc e'
    go panic p e' = cc e'

-- A request that is read from bytes stands in front of them, in its layout, with the hash of that
-- layout behind it, and its timestamp is fresh; whatever the hash function.
pub read_auth_request_sound :
    (compute_hash : List ℕ → List ℕ) (now : ℕ) (buf rest : List ℕ) (q : VisionAuthRequest)
    → now < 2 ^ 63
    → AreBytes buf
    → read_auth_request compute_hash memory (some now) buf ≡ (ok q, rest)
    → IsReceived compute_hash now buf rest q
unfolding base
read_auth_request_sound compute_hash now buf rest q small b e =
    let (body, found, front) = read_auth_request-Body compute_hash (some now) rest q buf b e in
    let q0 : VisionAuthRequest = record {
      magic = vision_magic_header;
      version = vision_version_number;
      command = found.command;
      address = found.address;
      timestamp = found.timestamp;
      password_hash = found.hash;
      integrity_hash = found.integrity;
    } in
    let (same, genuine) = check_request-IsGenuine compute_hash now q0 q found.passed in
    let (host, layout) = encoded_sound q0 genuine.bytes genuine.encoded in
    subst (IsReceived compute_hash now buf rest) (sym same) (record {
      request = record {
        magic = refl;
        version = refl;
        target = found.target;
        host = host;
        time = found.time;
        size = found.size;
        hex = found.hex;
      };
      split = front ∙ ap (λ l. 0xfe ∷ 0x01 ∷ l) found.split ∙ rw (append_assoc, append_assoc) refl;
      hashed = ap compute_hash layout ∙ genuine.hashed;
      fresh = unexpired-IsFresh now found.timestamp small found.time genuine.fresh;
    })

-- No request is read by a server whose clock stands before the epoch.
pub read_auth_request_no_clock :
    (compute_hash : List ℕ → List ℕ) (buf rest : List ℕ) (q : VisionAuthRequest)
    → AreBytes buf
    → read_auth_request compute_hash memory none buf ≡ (ok q, rest)
    → ⊥
unfolding check_request current_unix_timestamp
read_auth_request_no_clock compute_hash buf rest q b e =
    let (body, found, front) = read_auth_request-Body compute_hash none rest q buf b e in
    cc (found.passed)
