-- ===== src/Reality/Vision/Genuine.antt =====
-- What the checks of `VisionAuthRequest::read_from` let through.
use rust.Prelude.{ℕ, ◌≡◌, refl, Bool, true, false, Bool-cases, inl, inr, some, List}
use rust.Error.{Result, err, panic, ok}
use rust.Bytes.{bytes_eq}
use rust.Bytes.Laws.{bytes_eq_iff}
use rust.Reality.Vision.{
  VisionAuthRequest, is_expired, check_request, encoded_without_integrity_hash, verify_integrity,
  current_unix_timestamp,
}

-- What a request that passes the checks is: it is fresh, it can be encoded, and its hash is that of
-- its encoding.
pub record IsGenuine (compute_hash : List ℕ → List ℕ) (now : ℕ) (q : VisionAuthRequest)
    : Type 0 where
  pub fresh : is_expired now q.timestamp ≡ false
  pub bytes : List ℕ
  pub encoded : encoded_without_integrity_hash q ≡ ok bytes
  pub hashed : compute_hash bytes ≡ q.integrity_hash

module _ (compute_hash : List ℕ → List ℕ) (now : ℕ) (q : VisionAuthRequest) where
  checked :
      (q' : VisionAuthRequest) (late : Bool) (bytes : Result (List ℕ))
      → is_expired now q.timestamp ≡ late
      → encoded_without_integrity_hash q ≡ bytes
      → check_request compute_hash (some now) q ≡ ok q'
      → (q' ≡ q) × IsGenuine compute_hash now q
  unfolding check_request current_unix_timestamp verify_integrity
  checked q' true bytes e f h = cc (rw e at h)
  checked q' false (err x) e f h = cc (rw (e, f) at h)
  checked q' false panic e f h = cc (rw (e, f) at h)
  checked q' false (ok l) e f h = elim (Bool-cases (bytes_eq (compute_hash l) q.integrity_hash)) [
    | inl same ↦
        let h' = rw (e, f, same) at h in
        (
          cc,
          record {
            fresh = e;
            bytes = l;
            encoded = f;
            hashed = (bytes_eq_iff (compute_hash l) q.integrity_hash).0 same;
          },
        )
    | inr other ↦ cc (rw (e, f, other) at h)
  ]

  -- A request that passes the reader's checks is let through unchanged, and it is genuine: fresh at
  -- the server's clock, and with the hash of its own encoding; whatever the hash function.
  pub check_request-IsGenuine :
      (q' : VisionAuthRequest)
      → check_request compute_hash (some now) q ≡ ok q'
      → (q' ≡ q) × IsGenuine compute_hash now q
  check_request-IsGenuine q' h = checked q' _ _ refl refl h
