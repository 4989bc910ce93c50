-- ===== src/Protocol/Header/Password.antt =====
-- `Header::verify_password`: which configured hashes let a header in.
use rust.Prelude.{◌≡◌, ◌↔◌, ◌⊎◌, true, List, [], ◌∷◌, arith, length, map}
use rust.Bytes.{Str, to_ascii_lowercase}
use rust.Bytes.Laws.{eq_ignore_ascii_case_iff}
use rust.Protocol.Header.{Header, verify_password, password_hex_len}

-- A configured hash fits: 56 bytes, the header's but for the case of letters.
abbrev pub Fits : Header → Str → Type 0
Fits h expected =
    (length expected ≡ password_hex_len)
    × (map to_ascii_lowercase expected ≡ map to_ascii_lowercase h.password_hash)

-- One of the configured hashes fits.
abbrev pub IsUser : Header → List Str → Type 0
IsUser h [] = ⊥
IsUser h (expected ∷ rest) = Fits h expected ⊎ IsUser h rest

-- A header is let in exactly if one of the configured hashes fits.
pub verify_password_iff :
    (h : Header) (password_hashes : List Str)
    → (verify_password h password_hashes ≡ true) ↔ IsUser h password_hashes
unfolding verify_password
verify_password_iff h [] = (λ e. cc, λ e. elim e [ ])
verify_password_iff h (expected ∷ rest) =
    ground (arith, eq_ignore_ascii_case_iff expected h.password_hash, verify_password_iff h rest)
