-- ===== src/Protocol/Header/Eval.antt =====
-- Each step of `try_parse_from_buf` on a buffer whose front is split off.
use rust.Prelude.{
  ℕ, ◌+◌, ◌<◌, ◌≡◌, refl, ◌∙◌, Bool, true, ◌&&◌, none, some, List, [], ◌∷◌, ◌++◌, arith, ◌==◌,
  if◌then◌else◌, length, length-append, all, le→ltb, lt→ltb, append_assoc, append-nil,
}
use rust.Error.{ok, err, protocol, hash_not_hex, crlf_after_hash, crlf_after_address, ◌>>=◌}
use rust.Bytes.{index, is_ascii_hexdigit}
use rust.Bytes.Laws.{index-append, slice-append, slice_from-append}
use rust.Protocol.Command.{Command, from_u8}
use rust.Protocol.Address.{Address, parse_from_buf}
use rust.Protocol.Header.{
  is_crlf_at, parse_end, parse_rest, parse_address, parse_command, parse_crlf, try_parse_from_buf,
  password_hex_len,
}

abbrev pub is_crlf : ℕ → ℕ → Bool
is_crlf c d = c == 0x0d && d == 0x0a

module _ (front : List ℕ) (pos : ℕ) (at : length front ≡ pos) where
  pub index_second : (c d : ℕ) (rest : List ℕ) → index (front ++ c ∷ d ∷ rest) (pos + 1) ≡ ok d
  index_second c d rest = rw (append_assoc front (c ∷ []) (d ∷ rest)) at (
      index-append (front ++ c ∷ []) d rest (pos + 1) (omega (arith, length-append front (c ∷ []))))

  pub is_crlf_at_lem :
      (c d : ℕ) (rest : List ℕ) → is_crlf_at (front ++ c ∷ d ∷ rest) pos ≡ ok (is_crlf c d)
  unfolding is_crlf_at
  is_crlf_at_lem c d rest =
      rw (index-append front c (d ∷ rest) pos at, index_second c d rest) (ground arith)

  pub parse_end_short :
      (hash : List ℕ) (command : Command) (a : Address) (rest : List ℕ)
      → length rest < 2
      → parse_end hash command a (front ++ rest) pos ≡ ok none
  unfolding parse_end
  parse_end_short hash command a rest h =
      rw (lt→ltb (length (front ++ rest)) (pos + 2) (omega (arith, length-append front rest)))

  pub parse_end_full :
      (hash : List ℕ) (command : Command) (a : Address) (c d : ℕ) (rest : List ℕ)
      → parse_end hash command a (front ++ c ∷ d ∷ rest) pos ≡ (
          if is_crlf c d
          then ok (some (record { password_hash = hash; command = command; address = a }))
          else err (protocol crlf_after_address))
  unfolding parse_end
  parse_end_full hash command a c d rest = rw (
    le→ltb (length (front ++ c ∷ d ∷ rest)) (pos + 2)
        (omega (arith, length-append front (c ∷ d ∷ rest))),
    is_crlf_at_lem c d rest,
  )

  pub parse_address_lem :
      (hash : List ℕ) (command : Command) (rest : List ℕ)
      → parse_address hash command (front ++ rest) pos
        ≡ (parse_from_buf rest >>= parse_rest hash command (front ++ rest) pos)
  unfolding parse_address
  parse_address_lem hash command rest = rw (slice_from-append front rest pos at)

  pub parse_command_short : (hash : List ℕ) → parse_command hash (front ++ []) pos ≡ ok none
  unfolding parse_command
  parse_command_short hash =
      rw (lt→ltb (length (front ++ [])) (pos + 1) (omega (arith, length-append front [])))

  pub parse_command_full :
      (hash : List ℕ) (code : ℕ) (rest : List ℕ)
      → parse_command hash (front ++ code ∷ rest) pos
        ≡ (from_u8 code >>= λ command. parse_address hash command (front ++ code ∷ rest) (pos + 1))
  unfolding parse_command
  parse_command_full hash code rest = rw (
    le→ltb (length (front ++ code ∷ rest)) (pos + 1)
        (omega (arith, length-append front (code ∷ rest))),
    index-append front code rest pos at,
  )

pub try_parse_short : (buf : List ℕ) → length buf < 58 → try_parse_from_buf buf ≡ ok none
unfolding try_parse_from_buf
try_parse_short buf h = rw (lt→ltb (length buf) 58 h)

module _ (hash : List ℕ) (size : length hash ≡ password_hex_len) where
  parse_crlf_full :
      (c d : ℕ) (rest : List ℕ)
      → parse_crlf hash (hash ++ c ∷ d ∷ rest) password_hex_len ≡ (
          if is_crlf c d
          then parse_command hash (hash ++ c ∷ d ∷ rest) 58
          else err (protocol crlf_after_hash))
  unfolding parse_crlf
  parse_crlf_full c d rest = rw (
    le→ltb (length (hash ++ c ∷ d ∷ rest)) 58 (omega (arith, length-append hash (c ∷ d ∷ rest))),
    is_crlf_at_lem hash password_hex_len size c d rest,
  )

  pub try_parse_full :
      (c d : ℕ) (rest : List ℕ)
      → try_parse_from_buf (hash ++ c ∷ d ∷ rest) ≡ (
          if all is_ascii_hexdigit hash
          then (if is_crlf c d
              then parse_command hash (hash ++ c ∷ d ∷ rest) 58
              else err (protocol crlf_after_hash))
          else err (protocol hash_not_hex))
  unfolding try_parse_from_buf
  try_parse_full c d rest = rw (
    le→ltb (length (hash ++ c ∷ d ∷ rest)) 58 (omega (arith, length-append hash (c ∷ d ∷ rest))),
    slice-append [] hash (c ∷ d ∷ rest) 0 password_hex_len refl (omega arith),
    parse_crlf_full c d rest,
  )

-- The whole parser on a buffer whose hash and first CRLF are in order.
module _ (hash : List ℕ) (size : length hash ≡ password_hex_len)
    (hex : all is_ascii_hexdigit hash ≡ true) where
  pub try_parse_no_command : try_parse_from_buf (hash ++ 0x0d ∷ 0x0a ∷ []) ≡ ok none
  try_parse_no_command =
      try_parse_full hash size 0x0d 0x0a []
      ∙ rw hex (
          rw append-nil at (
            parse_command_short (hash ++ 0x0d ∷ 0x0a ∷ []) 58
              (omega (arith, length-append hash (0x0d ∷ 0x0a ∷ []))) hash))

  module _ (code : ℕ) where
    pub try_parse_command :
        (r : List ℕ)
        → try_parse_from_buf (hash ++ 0x0d ∷ 0x0a ∷ code ∷ r) ≡ (
            from_u8 code >>= λ command.
            parse_address hash command (hash ++ 0x0d ∷ 0x0a ∷ code ∷ r) 59)
    try_parse_command r =
        try_parse_full hash size 0x0d 0x0a (code ∷ r)
        ∙ rw hex (
            rw append_assoc at (
              parse_command_full (hash ++ 0x0d ∷ 0x0a ∷ []) 58
                (omega (arith, length-append hash (0x0d ∷ 0x0a ∷ []))) hash code r))

    module _ (command : Command) (known : from_u8 code ≡ ok command) where
      pub try_parse_address :
          (r : List ℕ)
          → try_parse_from_buf (hash ++ 0x0d ∷ 0x0a ∷ code ∷ r)
            ≡ (parse_from_buf r >>= parse_rest hash command (hash ++ 0x0d ∷ 0x0a ∷ code ∷ r) 59)
      try_parse_address r =
          try_parse_command r
          ∙ rw known (
              rw append_assoc at (
                parse_address_lem (hash ++ 0x0d ∷ 0x0a ∷ code ∷ []) 59
                  (omega (arith, length-append hash (0x0d ∷ 0x0a ∷ code ∷ []))) hash command r))

      module _ (w : List ℕ) (a : Address) (n : ℕ) (size_w : length w ≡ n) where
        front : List ℕ
        front = hash ++ 0x0d ∷ 0x0a ∷ code ∷ w

        length-front : length front ≡ 59 + n
        unfolding front
        length-front = omega (arith, length-append hash (0x0d ∷ 0x0a ∷ code ∷ w))

        pub try_parse_end_short :
            (r : List ℕ)
            → parse_from_buf (w ++ r) ≡ ok (a, some n)
            → length r < 2
            → try_parse_from_buf (hash ++ 0x0d ∷ 0x0a ∷ code ∷ (w ++ r)) ≡ ok none
        unfolding front
        try_parse_end_short r parsed h =
            try_parse_address (w ++ r)
            ∙ rw parsed (
                rw append_assoc at (parse_end_short front (59 + n) length-front hash command a r h))

        pub try_parse_end_full :
            (c d : ℕ) (r : List ℕ)
            → parse_from_buf (w ++ c ∷ d ∷ r) ≡ ok (a, some n)
            → try_parse_from_buf (hash ++ 0x0d ∷ 0x0a ∷ code ∷ (w ++ c ∷ d ∷ r)) ≡ (
                if is_crlf c d
                then ok (some (record { password_hash = hash; command = command; address = a }))
                else err (protocol crlf_after_address))
        unfolding front
        try_parse_end_full c d r parsed =
            try_parse_address (w ++ c ∷ d ∷ r)
            ∙ rw parsed (
                rw append_assoc at
                  (parse_end_full front (59 + n) length-front hash command a c d r))
