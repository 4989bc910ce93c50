-- ===== src/Reality/Vision/Body.antt =====
-- What stands behind the version of a request that is read from a slice.
use rust.Prelude.{
  ℕ, ◌^◌, ◌<◌, ◌≡◌, ◌⊎◌, refl, ap, ◌∙◌, subst, Bool, true, false, Option, List, ◌∷◌, ◌++◌, arith,
  length, all, ◌==◌, Bool-cases, inl, inr, if◌then◌else◌, All-append_right,
}
use rust.Error.{ok, protocol, vision_hash_format, vision_magic, vision_version}
use rust.Bytes.{IsByte, AreBytes, is_ascii_hexdigit}
use rust.Exec.{lift, await_io, raise}
use rust.Exec.Inversion.{>>=-cases, lift-eq-ok, raise-ne-ok, await_io-eq-ok}
use rust.Io.Memory.{memory}
use rust.Io.Memory.Laws.{read_u8-eq-done, read_exact-eq-done}
use rust.Protocol.Command.{Command, from_u8, as_u8, from_u8_iff}
use rust.Protocol.Address.{Address}
use rust.Protocol.Address.Wire as AddressWire
use rust.Protocol.Address.Read as AddressRead
use rust.Reality.Vision.{
  VisionAuthRequest, to_be64, check_request, read_auth_request, read_version, read_body,
  read_integrity, vision_hash_len, vision_password_hex_len, vision_magic_header,
  vision_version_number,
}
use rust.Reality.Vision.Reads.{read_u64-eq-done, read_from-eq-ok}

module _ (compute_hash : List ℕ → List ℕ) (clock : Option ℕ) (rest : List ℕ)
    (q : VisionAuthRequest) where
  -- What stands behind the version, and the request that the checks were made on.
  pub record Body (buf : List ℕ) : Type 0 where
    pub command : Command
    pub address : Address
    pub timestamp : ℕ
    pub hash : List ℕ
    pub integrity : List ℕ
    pub target : AddressWire.IsWire address
    pub time : timestamp < 2 ^ 64
    pub size : length hash ≡ 56
    pub hex : all is_ascii_hexdigit hash ≡ true
    pub split :
        buf
        ≡ as_u8 command
          ∷ (AddressWire.wire address ++ (to_be64 timestamp ++ (hash ++ (integrity ++ rest))))
    pub passed :
        check_request compute_hash clock (record {
          magic = vision_magic_header;
          version = vision_version_number;
          command = command;
          address = address;
          timestamp = timestamp;
          password_hash = hash;
          integrity_hash = integrity;
        })
        ≡ ok q

  read_body-Body :
      (buf : List ℕ)
      → AreBytes buf
      → read_body compute_hash memory clock buf ≡ (ok q, rest)
      → Body buf
  unfolding read_body read_integrity
  read_body-Body buf b e = >>=-cases (await_io memory.read_u8) _ buf e λ cmd s1 r1 e1.
      >>=-cases (lift (from_u8 cmd)) _ s1 e1 λ command s2 r2 e2.
        >>=-cases (AddressRead.read_from memory) _ s2 e2 λ address s3 r3 e3.
          >>=-cases (await_io memory.read_u64) _ s3 e3 λ timestamp s4 r4 e4.
            >>=-cases (await_io (memory.read_exact vision_password_hex_len)) _ s4 e4
              λ hash s5 r5 e5.
                let p1 = read_u8-eq-done buf (await_io-eq-ok _ r1) in
                let (known, same) = lift-eq-ok (from_u8 cmd) r2 in
                let b2 : AreBytes s2 = subst AreBytes same (subst AreBytes p1 b).1 in
                let (w, p3) = read_from-eq-ok s2 b2 r3 in
                let b3 =
                  All-append_right IsByte (AddressWire.wire address) s3 (subst AreBytes p3 b2) in
                let (p4, time) = read_u64-eq-done s3 b3 (await_io-eq-ok _ r4) in
                let (p5, size) = read_exact-eq-done 56 s4 (await_io-eq-ok _ r5) in
                let front : buf
                    ≡ as_u8 command
                      ∷ (AddressWire.wire address ++ (to_be64 timestamp ++ (hash ++ s5))) =
                  p1
                  ∙ (λ i. (from_u8_iff cmd command).0 known i ∷ same i)
                  ∙ ap (λ l. as_u8 command ∷ l)
                      (p3
                        ∙ ap (λ l. AddressWire.wire address ++ l)
                            (p4 ∙ ap (λ l. to_be64 timestamp ++ l) p5)) in
                hashed command address timestamp hash s5 w time size front
                  (all is_ascii_hexdigit hash) refl e5
    where
      hashed :
          (command : Command) (address : Address) (timestamp : ℕ) (hash s5 : List ℕ)
          → AddressWire.IsWire address
          → timestamp < 2 ^ 64
          → length hash ≡ 56
          → buf ≡ as_u8 command ∷ (AddressWire.wire address ++ (to_be64 timestamp ++ (hash ++ s5)))
          → (digits : Bool) → all is_ascii_hexdigit hash ≡ digits
          → (if digits
                then read_integrity compute_hash memory clock command address timestamp hash
                else raise (protocol vision_hash_format))
              s5
            ≡ (ok q, rest)
          → Body buf
      hashed command address timestamp hash s5 w time size front false hex e =
          absurd (raise-ne-ok _ s5 e)
      hashed command address timestamp hash s5 w time size front true hex e =
          >>=-cases (await_io (memory.read_exact vision_hash_len)) _ s5 e λ found u r6 last.
            let (p6, _) = read_exact-eq-done 28 s5 (await_io-eq-ok _ r6) in
            let (passed, left) = lift-eq-ok _ last in
            record {
              command = command;
              address = address;
              timestamp = timestamp;
              hash = hash;
              integrity = found;
              target = w;
              time = time;
              size = size;
              hex = hex;
              split = front ∙ (λ i.
                  as_u8 command
                  ∷ (AddressWire.wire address
                      ++ (to_be64 timestamp ++ (hash ++ (p6 ∙ ap (λ l. found ++ l) left) i))));
              passed = passed;
            }

  pub read_auth_request-Body :
      (buf : List ℕ)
      → AreBytes buf
      → read_auth_request compute_hash memory clock buf ≡ (ok q, rest)
      → (body : List ℕ) × Body body × (buf ≡ 0xfe ∷ 0x01 ∷ body)
  unfolding read_auth_request read_version
  read_auth_request-Body buf b e = >>=-cases (await_io memory.read_u8) _ buf e λ magic s1 r1 e1.
      let p1 = read_u8-eq-done buf (await_io-eq-ok _ r1) in
      known magic s1 (subst AreBytes p1 b).1 p1 (Bool-cases (magic == vision_magic_header)) e1
    where
      versioned :
          (version : ℕ) (s1 s2 : List ℕ)
          → AreBytes s2
          → buf ≡ 0xfe ∷ s1
          → s1 ≡ version ∷ s2
          → (version == vision_version_number ≡ true) ⊎ (version == vision_version_number ≡ false)
          → (if version == vision_version_number
                then read_body compute_hash memory clock
                else raise (protocol (vision_version version)))
              s2
            ≡ (ok q, rest)
          → (body : List ℕ) × Body body × (buf ≡ 0xfe ∷ 0x01 ∷ body)
      versioned version s1 s2 b p1 p2 (inl ours) e = (
        s2,
        read_body-Body s2 b (rw ours at e),
        p1 ∙ ap (λ l. 0xfe ∷ l) p2 ∙ ap (λ v. 0xfe ∷ v ∷ s2) (ground arith),
      )
      versioned version s1 s2 b p1 p2 (inr other) e = absurd (raise-ne-ok _ s2 (rw other at e))

      known :
          (magic : ℕ) (s1 : List ℕ)
          → AreBytes s1
          → buf ≡ magic ∷ s1
          → (magic == vision_magic_header ≡ true) ⊎ (magic == vision_magic_header ≡ false)
          → (if magic == vision_magic_header
                then read_version compute_hash memory clock
                else raise (protocol (vision_magic magic)))
              s1
            ≡ (ok q, rest)
          → (body : List ℕ) × Body body × (buf ≡ 0xfe ∷ 0x01 ∷ body)
      known magic s1 b p1 (inl ours) e =
          >>=-cases (await_io memory.read_u8) _ s1 (rw ours at e) λ version s2 r2 e2.
            let p2 = read_u8-eq-done s1 (await_io-eq-ok _ r2) in
            versioned version s1 s2 (subst AreBytes p2 b).1 (p1 ∙ ap (λ m. m ∷ s1) (ground arith))
              p2 (Bool-cases (version == vision_version_number)) e2
      known magic s1 b p1 (inr other) e = absurd (raise-ne-ok _ s1 (rw other at e))
