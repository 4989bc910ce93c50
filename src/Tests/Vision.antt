-- ===== src/Tests/Vision.antt =====
-- The theorem on the admission of a Vision client.
use rust.Prelude.{ℕ, ◌≡◌, ◌⊎◌, inl, refl, false, List, [], ◌∷◌, ◌++◌}
use rust.Error.{ok, err, timeout}
use rust.Bytes.{to_ascii_lowercase}
use rust.Io.Memory.{memory}
use rust.Io.Finite.{memory_finite}
use rust.Protocol.Command.{as_u8}
use rust.Protocol.Address.{encode}
use rust.Protocol.Address.Wire.{wire}
use rust.Reality.Vision.{
  encode_request, with_integrity_hash, encode_with_integrity_hash, encoded_without_integrity_hash,
  is_expired, new_protocol, to_be64,
}
use rust.Reality.Vision.Laws.{base}
use rust.Reality.Vision.Admission.{Admits, Authenticated, IsLate, encode_request-Admits}
use rust.Tests.Data.{hash, request}
use rust.Tests.Reality.{
  vision_request, vision_request-IsRequest, checksum, timeout_of, timeout_of-IsTimely,
}

abbrev encoded : List ℕ
encoded = base vision_request ++ checksum (base vision_request)

encoded_lem : encode_request checksum vision_request ≡ ok encoded
unfolding encode_request with_integrity_hash encode_with_integrity_hash
    encoded_without_integrity_hash base wire encode as_u8 to_be64
encoded_lem = refl

fresh : is_expired 1100 vision_request.timestamp ≡ false
unfolding is_expired
fresh = refl

-- The configured hash is written in other letters than the client's.
encode_request-Admits_example :
    Admits checksum
      (λ l. refl)
      memory
      memory_finite
      timeout_of
      timeout_of-IsTimely
      (new_protocol 10)
      1100
      (hash ∷ [])
      vision_request
      request
      (Authenticated checksum
        (λ l. refl)
        memory
        memory_finite
        timeout_of
        timeout_of-IsTimely
        (new_protocol 10)
        1100
        (hash ∷ [])
        (encoded ++ request)).0
    ⊎ (((Authenticated checksum
            (λ l. refl)
            memory
            memory_finite
            timeout_of
            timeout_of-IsTimely
            (new_protocol 10)
            1100
            (hash ∷ [])
            (encoded ++ request)).0
          ≡ err timeout)
        × IsLate checksum
            (λ l. refl)
            memory
            memory_finite
            timeout_of
            timeout_of-IsTimely
            (new_protocol 10)
            1100
            (hash ∷ [])
            (encoded ++ request))
unfolding memory_finite to_ascii_lowercase
encode_request-Admits_example =
    encode_request-Admits checksum (λ l. refl) memory memory_finite timeout_of timeout_of-IsTimely
      (new_protocol 10) 1100 (hash ∷ []) vision_request encoded request (encoded ++ request)
      vision_request-IsRequest fresh (inl refl) encoded_lem refl
