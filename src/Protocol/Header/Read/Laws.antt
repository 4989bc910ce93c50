-- ===== src/Protocol/Header/Read/Laws.antt =====
-- `Header::read_from` and `Header::try_parse_from_buf` accept the same headers.
use rust.Prelude.{
  ℕ, ◌≡◌, ◌↔◌, refl, ◌∙◌, Bool, true, false, some, List, [], ◌∷◌, ◌++◌, length, drop, drop-append,
  all, append_assoc, if◌then◌else◌, All-append_right, subst,
}
use rust.Error.{
  Message, ok, protocol, invalid_crlf_after_hash, invalid_crlf_after_address, hash_format,
}
use rust.Exec.{◌>>=◌, pure, raise, lift, await_io, ◌>>◌}
use rust.Exec.Inversion.{>>=-cases, await_io-eq-ok, lift-eq-ok, pure-eq-ok, raise-ne-ok}
use rust.Bytes.{AreBytes, IsByte, is_ascii_hexdigit, bytes_eq}
use rust.Bytes.Laws.{bytes_eq_iff}
use rust.Io.Memory.{memory, read_exact, read_u8}
use rust.Io.Memory.Laws.{read_exact-append, read_exact-eq-done, read_u8-eq-done}
use rust.Protocol.Address.{Address}
use rust.Protocol.Command.{Command, as_u8, from_u8, from_u8-as_u8, from_u8_iff}
use rust.Protocol.Address.Wire as AddressWire
use rust.Protocol.Address.Wire.{IsWire}
use rust.Protocol.Address.Stability.{parse_from_buf_sound}
use rust.Protocol.Address.Read as AddressRead
use rust.Protocol.Address.Read.Laws as AddressReadLaws
use rust.Protocol.Header.{Header, try_parse_from_buf, password_hex_len}
use rust.Protocol.Header.Wire.{IsHeader, wire}
use rust.Protocol.Header.Laws.{try_parse_from_buf-wire}
use rust.Protocol.Header.Stability.{try_parse_from_buf_sound}
use rust.Protocol.Header.Read.{read_from, read_request, expect_crlf, crlf_bytes}

expect_crlf-crlf :
    (m : Message) (rest : List ℕ) → expect_crlf memory m (0x0d ∷ 0x0a ∷ rest) ≡ (ok tt, rest)
unfolding expect_crlf ◌>>=◌ bytes_eq
expect_crlf-crlf m rest = rw (read_exact-append (0x0d ∷ 0x0a ∷ []) rest 2 refl)

-- A header on the wire is read off the front of a slice.
pub read_from-wire :
    (h : Header) (rest : List ℕ) → IsHeader h → read_from memory (wire h ++ rest) ≡ (ok h, rest)
unfolding read_from wire read_request ◌>>=◌ read_u8
read_from-wire h rest w =
    let a = AddressWire.wire h.address in
    let tail : List ℕ = 0x0d ∷ 0x0a ∷ as_u8 h.command ∷ (a ++ 0x0d ∷ 0x0a ∷ rest) in
    rw (append_assoc, append_assoc)
      (rw (
        read_exact-append h.password_hash tail 56 w.size,
        w.hex,
        expect_crlf-crlf _ (as_u8 h.command ∷ (a ++ 0x0d ∷ 0x0a ∷ rest)),
        from_u8-as_u8 h.command,
        AddressReadLaws.read_from-wire h.address (0x0d ∷ 0x0a ∷ rest) w.target,
        expect_crlf-crlf _ rest,
      ))

expect_crlf-eq-ok :
    (m : Message) (l : List ℕ) {u : Unit {0}} {rest : List ℕ}
    → expect_crlf memory m l ≡ (ok u, rest)
    → l ≡ 0x0d ∷ 0x0a ∷ rest
unfolding expect_crlf
expect_crlf-eq-ok m l {u = u} {rest = rest} e =
    >>=-cases (await_io (read_exact 2)) _ l e λ crlf s got ended.
      go crlf s (read_exact-eq-done 2 l (await_io-eq-ok _ got)).0 (bytes_eq crlf crlf_bytes) refl
        ended
  where
    go :
        (crlf s : List ℕ)
        → l ≡ crlf ++ s
        → (b : Bool) → bytes_eq crlf crlf_bytes ≡ b
        → (if b then pure tt else raise (protocol m)) s ≡ (ok u, rest)
        → l ≡ 0x0d ∷ 0x0a ∷ rest
    go crlf s split true q e' =
        let (_, same) = pure-eq-ok tt e' in split ∙ rw ((bytes_eq_iff crlf crlf_bytes).0 q, same)
    go crlf s split false q e' = absurd (raise-ne-ok _ s e')

-- What a request says of the bytes behind the hash.
abbrev IsRequest : List ℕ → List ℕ → Header → List ℕ → Type 0
IsRequest hash l h rest =
    IsWire h.address
    × (h.password_hash ≡ hash)
    × (l ≡ 0x0d ∷ 0x0a ∷ as_u8 h.command ∷ (AddressWire.wire h.address ++ 0x0d ∷ 0x0a ∷ rest))

-- The last steps, each with what the steps before it found.
IsRequest-end :
    (hash l l4 : List ℕ) (command : Command) (address : Address) {h : Header} {rest : List ℕ}
    → IsWire address
    → l ≡ 0x0d ∷ 0x0a ∷ as_u8 command ∷ (AddressWire.wire address ++ l4)
    → (expect_crlf memory invalid_crlf_after_address
          >> pure (record { password_hash = hash; command = command; address = address }))
        l4
      ≡ (ok h, rest)
    → IsRequest hash l h rest
IsRequest-end hash l l4 command address {h = h} {rest = rest} w split e =
    >>=-cases (expect_crlf memory invalid_crlf_after_address) _ l4 e λ u l5 got ended.
      let (result, stop) =
        pure-eq-ok (record { password_hash = hash; command = command; address = address }) ended in
      subst (λ h'. IsRequest hash l h' rest) result
        (w, refl, split ∙ rw (expect_crlf-eq-ok _ l4 got, stop))

IsRequest-address :
    (hash l l3 : List ℕ) (command : Command) {h : Header} {rest : List ℕ}
    → AreBytes l3
    → l ≡ 0x0d ∷ 0x0a ∷ as_u8 command ∷ l3
    → (AddressRead.read_from memory >>= λ address.
          expect_crlf memory invalid_crlf_after_address
          >> pure (record { password_hash = hash; command = command; address = address }))
        l3
      ≡ (ok h, rest)
    → IsRequest hash l h rest
IsRequest-address hash l l3 command b split e =
    >>=-cases (AddressRead.read_from memory) _ l3 e λ address l4 got ended.
      let (n, parsed, left) =
        (AddressReadLaws.read_from_iff_parse_from_buf l3 b address l4).0 got in
      let (w, len, cut) = parse_from_buf_sound l3 b address n parsed in
      IsRequest-end hash l l4 command address w (split ∙ rw (cut, left)) ended

read_request-eq-ok :
    (hash l : List ℕ) {h : Header} {rest : List ℕ}
    → AreBytes l
    → read_request memory hash l ≡ (ok h, rest)
    → IsRequest hash l h rest
unfolding read_request
read_request-eq-ok hash l b e =
    >>=-cases (expect_crlf memory invalid_crlf_after_hash) _ l e λ _ l1 e1 f1.
      >>=-cases (await_io read_u8) _ l1 f1 λ cmd l2 e2 f2.
        >>=-cases (lift (from_u8 cmd)) _ l2 f2 λ command l3 e3 f3.
          let (known, same) = lift-eq-ok (from_u8 cmd) e3 in
          let cmd_eq = (from_u8_iff cmd command).0 known in
          let whole : l ≡ 0x0d ∷ 0x0a ∷ as_u8 command ∷ l3 =
            expect_crlf-eq-ok _ l e1
            ∙ rw (read_u8-eq-done l1 (await_io-eq-ok _ e2), cmd_eq, same) in
          IsRequest-address hash l l3 command (subst AreBytes whole b).1.1.1 whole f3

-- A header that the reader returns stands at the front, in its layout.
pub read_from_sound :
    (buf : List ℕ) {h : Header} {rest : List ℕ}
    → AreBytes buf
    → read_from memory buf ≡ (ok h, rest)
    → IsHeader h × (buf ≡ wire h ++ rest)
unfolding read_from wire
read_from_sound buf {h = h} {rest = rest} b e =
    >>=-cases (await_io (read_exact password_hex_len)) _ buf e λ hash l got then_.
      let (split, size) = read_exact-eq-done password_hex_len buf (await_io-eq-ok _ got) in
      let b' = All-append_right IsByte hash l (subst AreBytes split b) in
      checked hash l split size b' (all is_ascii_hexdigit hash) refl then_
  where
    checked :
        (hash l : List ℕ)
        → buf ≡ hash ++ l
        → length hash ≡ password_hex_len
        → AreBytes l
        → (good : Bool) → all is_ascii_hexdigit hash ≡ good
        → (if good then read_request memory hash else raise (protocol hash_format)) l ≡ (ok h, rest)
        → IsHeader h × (buf ≡ wire h ++ rest)
    checked hash l split size b' true hex e' =
        let (w, same, cut) = read_request-eq-ok hash l b' e' in
        (
          record { size = rw same size; hex = rw same hex; target = w },
          split ∙ rw (same, cut, append_assoc, append_assoc),
        )
    checked hash l split size b' false hex e' = absurd (raise-ne-ok (protocol hash_format) l e')

-- On a slice of bytes the reader returns a header exactly where the parser does, and it leaves what
-- follows the header.
pub read_from_iff_try_parse_from_buf :
    (buf : List ℕ)
    → AreBytes buf
    → (h : Header) (rest : List ℕ)
    → (read_from memory buf ≡ (ok h, rest))
      ↔ ((try_parse_from_buf buf ≡ ok (some h)) × (drop (length (wire h)) buf ≡ rest))
read_from_iff_try_parse_from_buf buf b h rest = (parses, reads)
  where
    parses :
        read_from memory buf ≡ (ok h, rest)
        → (try_parse_from_buf buf ≡ ok (some h)) × (drop (length (wire h)) buf ≡ rest)
    parses e =
        let (w, split) = read_from_sound buf b e in
        (rw split (try_parse_from_buf-wire h rest w), rw split (drop-append (wire h) rest _ refl))

    reads :
        (try_parse_from_buf buf ≡ ok (some h)) × (drop (length (wire h)) buf ≡ rest)
        → read_from memory buf ≡ (ok h, rest)
    reads (e, left) =
        let (w, split) = try_parse_from_buf_sound buf b h e in
        rw (split, left) (read_from-wire h rest w)
