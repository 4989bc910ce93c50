-- ===== src/Server/HeaderEnd.antt =====
-- Where a header ends in the peeked bytes: `compute_header_end` of src/server.rs.
use rust.Prelude.{
  ℕ, ◌<◌, ◌≡◌, refl, ap, false, List, [], ◌∷◌, ◌++◌, arith, leb, length, length-append,
  append_assoc, some,
}
use rust.Error
use rust.Error.{Result, ok, err, panic}
use rust.Bytes.{slice_from}
use rust.Bytes.Laws.{slice_from-append}
use rust.Protocol.Command.{as_u8}
use rust.Protocol.Address.Wire as AddressWire
use rust.Protocol.Address.Laws as AddressLaws
use rust.Protocol.Address.{parse_from_buf}
use rust.Protocol.Header.{Header}
use rust.Protocol.Header.Wire.{IsHeader, wire, length-wire}
use rust.Server.{compute_header_end}

-- Where a header with a layout stands in front, the end that is computed is its length, whatever
-- bytes follow it.
pub compute_header_end-wire :
    (h : Header) (rest : List ℕ)
    → IsHeader h
    → compute_header_end h (wire h ++ rest) ≡ ok (length (wire h))
unfolding compute_header_end
compute_header_end-wire h rest w = rw (long, tail, parsed) (ap ok (omega (arith, length-wire h w)))
  where
    a : List ℕ
    a = AddressWire.wire h.address

    front : List ℕ
    front = h.password_hash ++ 0x0d ∷ 0x0a ∷ as_u8 h.command ∷ []

    end : List ℕ
    end = 0x0d ∷ 0x0a ∷ rest

    long : leb (length (wire h ++ rest)) 59 ≡ false
    long = gt→leb _ (omega (arith, length-wire h w, length-append (wire h) rest))
      where
        gt→leb : (n : ℕ) → 59 < n → leb n 59 ≡ false
        gt→leb n h = ground arith

    split : wire h ++ rest ≡ front ++ (a ++ end)
    split = unfold wire in rw (append_assoc, append_assoc, append_assoc)

    tail : slice_from (wire h ++ rest) 59 ≡ ok (a ++ end)
    tail = rw split (
        slice_from-append front (a ++ end) 59 (
          omega
            (arith, w.size, length-append h.password_hash (0x0d ∷ 0x0a ∷ as_u8 h.command ∷ []))))

    parsed : parse_from_buf (a ++ end) ≡ ok (h.address, some (length a))
    parsed = AddressLaws.parse_from_buf-wire h.address end w.target

-- What the code takes for the rest of the peeked bytes.
pub leftover-wire :
    (h : Header) (rest : List ℕ)
    → IsHeader h
    → Error.◌>>=◌ (compute_header_end h (wire h ++ rest)) (slice_from (wire h ++ rest)) ≡ ok rest
leftover-wire h rest w =
    rw (compute_header_end-wire h rest w) (slice_from-append (wire h) rest (length (wire h)) refl)
