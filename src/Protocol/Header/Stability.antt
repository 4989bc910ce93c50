-- ===== src/Protocol/Header/Stability.antt =====
-- `Header::try_parse_from_buf` as bytes arrive: an answer other than "more" is final, and a part of
-- a header always asks for more.
use rust.Prelude.{
  ℕ, ◌<◌, ◌≡◌, ◌≢◌, refl, sym, ap, ◌∙◌, subst, Option, none, some, List, [], ◌∷◌, ◌++◌, arith,
  length, length-append, append_assoc, append-nil, drop, drop-append, All-append_left,
}
use rust.Error.{TrojanError, Result, ok, err, panic}
use rust.Bytes.{AreBytes, IsByte}
use rust.Protocol.Header.{Header, try_parse_from_buf}
use rust.Protocol.Header.Wire.{IsHeader, wire, wire-AreBytes}
use rust.Protocol.Header.Laws.{
  Outcome, incomplete, complete, refused, try_parse_from_buf-Outcome, try_parse_from_buf-wire,
}

module _ (buf : List ℕ) (b : AreBytes buf) where
  -- A refusal of a buffer of bytes stands, with the same error, whatever bytes come later.
  pub try_parse_from_buf-append_err :
      (more : List ℕ) (e : TrojanError)
      → try_parse_from_buf buf ≡ err e
      → try_parse_from_buf (buf ++ more) ≡ err e
  try_parse_from_buf-append_err more e h = go (try_parse_from_buf-Outcome buf b) h
    where
      go :
          {r : Result (Option Header)}
          → Outcome buf r
          → r ≡ err e
          → try_parse_from_buf (buf ++ more) ≡ err e
      go (incomplete few) q = cc
      go (complete h rest w split) q = cc
      go (refused e' stays) q = stays more ∙ q

  -- What a success says of the buffer.
  pub try_parse_from_buf_sound :
      (h : Header)
      → try_parse_from_buf buf ≡ ok (some h)
      → IsHeader h × (buf ≡ wire h ++ drop (length (wire h)) buf)
  try_parse_from_buf_sound h p = go (try_parse_from_buf-Outcome buf b) p
    where
      go :
          {r : Result (Option Header)}
          → Outcome buf r
          → r ≡ ok (some h)
          → IsHeader h × (buf ≡ wire h ++ drop (length (wire h)) buf)
      go (incomplete few) q = cc
      go (complete h' rest w split) q =
          let same : h' ≡ h = cc in
          let split' : buf ≡ wire h ++ rest = rw (← same) split in
          let tail : drop (length (wire h)) buf ≡ rest =
            rw split' (drop-append (wire h) rest _ refl) in
          (subst IsHeader same w, rw tail split')
      go (refused e' stays) q = cc

  -- For a buffer of bytes, more are asked for only where it has fewer than 320.
  pub try_parse_from_buf_more : try_parse_from_buf buf ≡ ok none → length buf < 320
  try_parse_from_buf_more p = go (try_parse_from_buf-Outcome buf b) p
    where
      go : {r : Result (Option Header)} → Outcome buf r → r ≡ ok none → length buf < 320
      go (incomplete few) q = few
      go (complete h' rest w split) q = cc
      go (refused e' stays) q = cc

  -- On a buffer of bytes the parser does not panic: no index and no slice is out of range.
  pub try_parse_from_buf-ne-panic : try_parse_from_buf buf ≢ panic
  try_parse_from_buf-ne-panic p = go (try_parse_from_buf-Outcome buf b) p
    where
      go : {r : Result (Option Header)} → Outcome buf r → r ≢ panic
      go (incomplete few) q = cc
      go (complete h' rest w split) q = cc
      go (refused e' stays) q = cc

-- Bytes behind the header do not change the answer.
pub try_parse_from_buf-append_ok :
    (buf more : List ℕ)
    → AreBytes buf
    → (h : Header) → try_parse_from_buf buf ≡ ok (some h)
    → try_parse_from_buf (buf ++ more) ≡ ok (some h)
try_parse_from_buf-append_ok buf more b h p =
    let (w, split) = try_parse_from_buf_sound buf b h p in
    rw (split, append_assoc) (try_parse_from_buf-wire h _ w)

-- A proper part of a header with a layout asks for more, and is not refused.
pub try_parse_from_buf_truncated :
    (h : Header) (front : List ℕ) (x : ℕ) (back : List ℕ)
    → IsHeader h
    → wire h ≡ front ++ x ∷ back
    → try_parse_from_buf front ≡ ok none
try_parse_from_buf_truncated h front x back w e = go (try_parse_from_buf-Outcome front b) refl
  where
    b : AreBytes front
    b = All-append_left IsByte front (x ∷ back) (subst AreBytes e (wire-AreBytes h w))

    whole : try_parse_from_buf (front ++ x ∷ back) ≡ ok (some h)
    whole = ap try_parse_from_buf (sym (append-nil (wire h) ∙ e)) ∙ try_parse_from_buf-wire h [] w

    go : {r : Result (Option Header)} → Outcome front r → try_parse_from_buf front ≡ r → r ≡ ok none
    go (incomplete few) q = refl
    go (complete h' rest w' split) q =
        let same : h' ≡ h = cc (whole, try_parse_from_buf-append_ok front (x ∷ back) b h' q) in
        absurd (
          omega (
            arith,
            ap (length {A = ℕ}) e,
            ap (length {A = ℕ}) (rw same at split),
            length-append front (x ∷ back),
            length-append (wire h) rest,
          ))
    go (refused e' stays) q = cc (whole, stays (x ∷ back))
