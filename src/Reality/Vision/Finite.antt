-- ===== src/Reality/Vision/Finite.antt =====
-- A stream that holds some bytes gives the request that the slice of these bytes gives.
use rust.Prelude.{ℕ, Option, List, all, ◌==◌}
use rust.Bytes.{is_ascii_hexdigit}
use rust.Exec.Simulates.{
  Simulates, Simulates-raise, Simulates-lift, Simulates-if, Simulates-bind, Simulates-await,
  Simulates-check,
}
use rust.Io.{AsyncRead}
use rust.Io.Finite.{IsFinite}
use rust.Io.Memory.{memory}
use rust.Protocol.Command.{Command, from_u8}
use rust.Protocol.Address.{Address}
use rust.Protocol.Address.Read.{read_from-Simulates}
use rust.Reality.Vision.{
  read_integrity, read_body, read_version, read_auth_request, vision_hash_len,
  vision_password_hex_len, vision_magic_header, vision_version_number,
}

module _ (compute_hash : List ℕ → List ℕ) (r : AsyncRead) (fin : IsFinite r)
    (clock : Option ℕ) where
  integrity-Simulates :
      (command : Command) (address : Address) (timestamp : ℕ) (hash : List ℕ)
      → Simulates fin.pending
          (read_integrity compute_hash r clock command address timestamp hash)
          (read_integrity compute_hash memory clock command address timestamp hash)
  unfolding read_integrity
  integrity-Simulates command address timestamp hash =
      Simulates-await (fin.exact_lem vision_hash_len) λ integrity_hash. Simulates-lift _

  body-Simulates :
      Simulates fin.pending (read_body compute_hash r clock) (read_body compute_hash memory clock)
  unfolding read_body
  body-Simulates = Simulates-await fin.u8_lem λ cmd_byte.
      Simulates-check (from_u8 cmd_byte) λ command.
        Simulates-bind (read_from-Simulates r fin) λ address.
          Simulates-await fin.u64_lem λ timestamp.
            Simulates-await (fin.exact_lem vision_password_hex_len) λ hash.
              Simulates-if (all is_ascii_hexdigit hash)
                (integrity-Simulates command address timestamp hash) (Simulates-raise _)

  version-Simulates :
      Simulates fin.pending
        (read_version compute_hash r clock)
        (read_version compute_hash memory clock)
  unfolding read_version
  version-Simulates =
      Simulates-await fin.u8_lem λ version.
        Simulates-if (version == vision_version_number) body-Simulates (Simulates-raise _)

  pub read_auth_request-Simulates :
      Simulates fin.pending
        (read_auth_request compute_hash r clock)
        (read_auth_request compute_hash memory clock)
  unfolding read_auth_request
  read_auth_request-Simulates =
      Simulates-await fin.u8_lem
        λ magic. Simulates-if (magic == vision_magic_header) version-Simulates (Simulates-raise _)
