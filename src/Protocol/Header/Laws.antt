-- ===== src/Protocol/Header/Laws.antt =====
-- What `Header::try_parse_from_buf` answers on every buffer, by the layout.
use rust.Prelude.{
  ℕ, ◌≤◌, ◌<◌, ◌≡◌, refl, sym, ap, subst, ◌∙◌, true, Option, none, some, List, [], ◌∷◌, ◌++◌, arith,
  ltb, if◌then◌else◌, length, length-append, all, append_assoc, take, drop, take-append-drop,
  length-take_le, length-drop, two_of, All-append_right, ltb→lt, ltb→le, Bool-cases, inl, inr,
  append-nil,
}
use rust.Error.{
  TrojanError, Result, ok, err, panic, protocol, hash_not_hex, crlf_after_hash, crlf_after_address,
}
use rust.Bytes.{AreBytes, IsByte, is_ascii_hexdigit}
use rust.Protocol.Command.{Command, from_u8, as_u8, from_u8-as_u8, from_u8_iff}
use rust.Protocol.Address
use rust.Protocol.Address.{parse_from_buf}
use rust.Protocol.Address.Wire as AddressWire
use rust.Protocol.Address.Wire.{IsWire}
use rust.Protocol.Address.Laws as AddressLaws
use rust.Protocol.Address.Stability.{parse_from_buf-append_err}
use rust.Protocol.Header.{Header, try_parse_from_buf, password_hex_len}
use rust.Protocol.Header.Wire.{IsHeader, wire}
use rust.Protocol.Header.Eval.{
  is_crlf, try_parse_short, try_parse_full, try_parse_no_command, try_parse_command,
  try_parse_address, try_parse_end_short, try_parse_end_full,
}

-- A header on the wire is parsed, whatever follows it.
pub try_parse_from_buf-wire :
    (h : Header) (rest : List ℕ) → IsHeader h → try_parse_from_buf (wire h ++ rest) ≡ ok (some h)
unfolding wire
try_parse_from_buf-wire h rest w =
    let a = AddressWire.wire h.address in
    rw (append_assoc, append_assoc)
      (try_parse_end_full h.password_hash w.size w.hex (as_u8 h.command) h.command
        (from_u8-as_u8 h.command) a h.address (length a) refl 0x0d 0x0a rest
        (AddressLaws.parse_from_buf-wire h.address _ w.target))

-- The answers: more bytes are wanted, and fewer than 320 are there; a header stands in front; or
-- the buffer is refused, with whatever bytes may follow.
pub data Outcome (buf : List ℕ) : Result (Option Header) → Type 0 where
  incomplete : length buf < 320 → Outcome buf (ok none)
  complete :
      (h : Header) (rest : List ℕ) → IsHeader h → buf ≡ wire h ++ rest → Outcome buf (ok (some h))
  refused :
      (e : TrojanError)
      → ((more : List ℕ) → try_parse_from_buf (buf ++ more) ≡ err e)
      → Outcome buf (err e)

-- A refusal of the buffer that does not look at what follows it.
abbrev Parsed : List ℕ → Type 0
Parsed buf = Outcome buf (try_parse_from_buf buf)

refuse :
    (buf : List ℕ) (e : TrojanError)
    → ((more : List ℕ) → try_parse_from_buf (buf ++ more) ≡ err e)
    → Parsed buf
refuse buf e h = rw (rw append-nil at (h [])) (refused e h)

is_crlf→eq : (c d : ℕ) → is_crlf c d ≡ true → (c ≡ 0x0d) × (d ≡ 0x0a)
is_crlf→eq c d h = ground arith

Part-length : {r : List ℕ} → AreBytes r → AddressLaws.Part r → length r < 259
Part-length b (AddressLaws.nothing e) = omega (arith, ap (length {A = ℕ}) e)
Part-length b (AddressLaws.in_ipv4 p e h) = omega (arith, ap (length {A = ℕ}) e)
Part-length b (AddressLaws.no_length e) = omega (arith, ap (length {A = ℕ}) e)
Part-length b (AddressLaws.in_domain n t e h) =
    omega (arith, ap (length {A = ℕ}) e, (subst AreBytes e b).1.0)
Part-length b (AddressLaws.in_ipv6 p e h) = omega (arith, ap (length {A = ℕ}) e)

module _ (hash : List ℕ) (size : length hash ≡ password_hex_len)
    (hex : all is_ascii_hexdigit hash ≡ true) (command : Command) where
  command_code : ℕ
  command_code = as_u8 command

  known : from_u8 command_code ≡ ok command
  unfolding command_code
  known = from_u8-as_u8 command

  abbrev after : List ℕ → List ℕ
  after r = hash ++ 0x0d ∷ 0x0a ∷ command_code ∷ r

  module _ (a : Address.Address) (w : IsWire a) where
    abbrev layout : List ℕ
    layout = AddressWire.wire a

    module _ (rest : List ℕ) (h : length rest < 2) where
      end_short : Parsed (after (layout ++ rest))
      end_short =
          rw
            (try_parse_end_short hash size hex command_code command known layout a (length layout)
              refl rest (AddressLaws.parse_from_buf-wire a rest w) h)
            (incomplete (
              omega (
                arith,
                AddressWire.length-wire a w,
                length-append layout rest,
                length-append hash (0x0d ∷ 0x0a ∷ command_code ∷ (layout ++ rest)),
              )))

    module _ (c d : ℕ) (rest : List ℕ) where
      end_eval : try_parse_from_buf (after (layout ++ c ∷ d ∷ rest)) ≡ (
          if is_crlf c d
          then ok (some (record { password_hash = hash; command = command; address = a }))
          else err (protocol crlf_after_address))
      end_eval =
          try_parse_end_full hash size hex command_code command known layout a (length layout) refl
            c d rest (AddressLaws.parse_from_buf-wire a (c ∷ d ∷ rest) w)

    end_full : (c d : ℕ) (rest : List ℕ) → Parsed (after (layout ++ c ∷ d ∷ rest))
    unfolding wire command_code
    end_full c d rest = elim (Bool-cases (is_crlf c d)) [
      | inl crlf ↦
          let (ec, ed) = is_crlf→eq c d crlf in
          rw (end_eval c d rest, crlf)
            (complete (record { password_hash = hash; command = command; address = a }) rest
              (record { size = size; hex = hex; target = w })
              (rw (ec, ed, append_assoc, append_assoc)))
      | inr other ↦
          refuse (after (layout ++ c ∷ d ∷ rest)) (protocol crlf_after_address)
            λ more. rw (append_assoc, append_assoc) (end_eval c d (rest ++ more) ∙ rw other)
    ]

  module _ (r : List ℕ) (b : AreBytes r) where
    address_refused : (e : TrojanError) → parse_from_buf r ≡ err e → Parsed (after r)
    address_refused e q = refuse (after r) e λ more. rw append_assoc (
        try_parse_address hash size hex command_code command known (r ++ more)
        ∙ rw (parse_from_buf-append_err r b more e q))

    address-Parsed :
        {res : Result (Address.Address × Option ℕ)}
        → AddressLaws.Outcome r res
        → parse_from_buf r ≡ res
        → Parsed (after r)
    address-Parsed (AddressLaws.incomplete part) q =
        rw (try_parse_address hash size hex command_code command known r, q)
          (incomplete (
            omega (arith, Part-length b part, length-append hash (0x0d ∷ 0x0a ∷ command_code ∷ r))))
    address-Parsed (AddressLaws.complete a n [] w len split) q =
        rw split (end_short a w [] (omega arith))
    address-Parsed (AddressLaws.complete a n (c ∷ []) w len split) q =
        rw split (end_short a w (c ∷ []) (omega arith))
    address-Parsed (AddressLaws.complete a n (c ∷ d ∷ rest) w len split) q =
        rw split (end_full a w c d rest)
    address-Parsed (AddressLaws.bad_type t rest split t1 t3 t4) q = address_refused _ q
    address-Parsed (AddressLaws.bad_utf8 name rest split bad long) q = address_refused _ q

module _ (hash : List ℕ) (size : length hash ≡ password_hex_len) where
  -- Behind the hash, by what stands there.
  refused_at :
      (c d : ℕ) (rest : List ℕ) (e : TrojanError)
      → ((r : List ℕ) → try_parse_from_buf (hash ++ c ∷ d ∷ r) ≡ err e)
      → Parsed (hash ++ c ∷ d ∷ rest)
  refused_at c d rest e h =
      refuse (hash ++ c ∷ d ∷ rest) e λ more. rw append_assoc (h (rest ++ more))

  module _ (hex : all is_ascii_hexdigit hash ≡ true) where
    command_refused :
        (code : ℕ) (r : List ℕ) (e : TrojanError)
        → from_u8 code ≡ err e
        → Parsed (hash ++ 0x0d ∷ 0x0a ∷ code ∷ r)
    command_refused code r e h =
        refuse (hash ++ 0x0d ∷ 0x0a ∷ code ∷ r) e
          λ more. rw append_assoc (try_parse_command hash size hex code (r ++ more) ∙ rw h)

    code-Parsed :
        (code : ℕ) (r : List ℕ)
        → AreBytes r
        → (res : Result Command) → from_u8 code ≡ res
        → Parsed (hash ++ 0x0d ∷ 0x0a ∷ code ∷ r)
    code-Parsed code r b (ok command) h = rw ((from_u8_iff code command).0 h) (
        unfold command_code in
        address-Parsed hash size hex command r b (AddressLaws.parse_from_buf-Outcome r b) refl)
    code-Parsed code r b (err e) h = command_refused code r e h
    code-Parsed code r b panic h = absurd (unfold from_u8 in ground arith)

    crlf-Parsed : (rest : List ℕ) → AreBytes rest → Parsed (hash ++ 0x0d ∷ 0x0a ∷ rest)
    crlf-Parsed [] b =
        rw (try_parse_no_command hash size hex)
          (incomplete (omega (arith, length-append hash (0x0d ∷ 0x0a ∷ []))))
    crlf-Parsed (code ∷ r) b = code-Parsed code r b.1 (from_u8 code) refl

  hash-Parsed : (c d : ℕ) (rest : List ℕ) → AreBytes rest → Parsed (hash ++ c ∷ d ∷ rest)
  hash-Parsed c d rest b = elim (Bool-cases (all is_ascii_hexdigit hash)) [
    | inl hex ↦ elim (Bool-cases (is_crlf c d)) [
      | inl crlf ↦ let (ec, ed) = is_crlf→eq c d crlf in rw (ec, ed) (crlf-Parsed hex rest b)
      | inr other ↦
          refused_at c d rest (protocol crlf_after_hash)
            λ r. try_parse_full hash size c d r ∙ rw (hex, other)
    ]
    | inr bad ↦
        refused_at c d rest (protocol hash_not_hex) λ r. try_parse_full hash size c d r ∙ rw bad
  ]

-- On a buffer of bytes the parser gives one of the answers, and each is the truth about the buffer.
pub try_parse_from_buf-Outcome :
    (buf : List ℕ) → AreBytes buf → Outcome buf (try_parse_from_buf buf)
try_parse_from_buf-Outcome buf b = elim (Bool-cases (ltb (length buf) 58)) [
  | inl less ↦
      rw (try_parse_short buf (ltb→lt _ _ less)) (incomplete (omega (arith, ltb→lt _ _ less)))
  | inr more ↦ long (ltb→le _ _ more)
]
  where
    long : 58 ≤ length buf → Parsed buf
    long h =
        let (c, d, rest, e) = two_of (drop 56 buf) (omega (arith, length-drop 56 buf)) in
        let split : buf ≡ take 56 buf ++ c ∷ d ∷ rest = rw (← e) (sym (take-append-drop 56 buf)) in
        let tail = All-append_right IsByte (take 56 buf) (c ∷ d ∷ rest) (subst AreBytes split b) in
        subst Parsed (sym split)
          (hash-Parsed (take 56 buf) (length-take_le 56 buf (omega arith)) c d rest tail.1.1)
