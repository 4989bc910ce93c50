-- ===== src/Protocol/Address/Stability.antt =====
-- `Address::parse_from_buf` as bytes arrive: an answer other than "more" is final, and a part of an
-- address always asks for more.
use rust.Prelude.{
  ℕ, ◌≡◌, ◌≢◌, refl, sym, ap, ◌∙◌, Option, some, List, [], ◌∷◌, ◌++◌, arith, length, length-append,
  drop-append, subst, append_assoc, append-nil, drop, All-append_left,
}
use rust.Error.{TrojanError, Result, ok, err, panic}
use rust.Bytes.{AreBytes, IsByte}
use rust.Protocol.Address.{Address, parse_from_buf, need_more}
use rust.Protocol.Address.Wire.{IsWire, wire, wire-AreBytes}
use rust.Protocol.Address.Laws.{
  Outcome, incomplete, complete, bad_type, bad_utf8, parse_from_buf-Outcome, parse_from_buf-wire,
  parse_from_buf_bad_type, parse_from_buf_bad_utf8,
}

module _ (buf : List ℕ) (b : AreBytes buf) where
  -- A refusal of a buffer of bytes stands, with the same error, whatever bytes come later.
  pub parse_from_buf-append_err :
      (more : List ℕ) (e : TrojanError)
      → parse_from_buf buf ≡ err e
      → parse_from_buf (buf ++ more) ≡ err e
  parse_from_buf-append_err more e h = go (parse_from_buf-Outcome buf b) h
    where
      go :
          {r : Result (Address × Option ℕ)}
          → Outcome buf r
          → r ≡ err e
          → parse_from_buf (buf ++ more) ≡ err e
      go (incomplete part) q = cc
      go (complete a n rest w len split) q = cc
      go (bad_type t rest split t1 t3 t4) q =
          rw split (parse_from_buf_bad_type t (rest ++ more) t1 t3 t4 ∙ q)
      go (bad_utf8 name rest split bad long) q =
          rw (split, append_assoc)
            (parse_from_buf_bad_utf8 name (rest ++ more) bad
                (omega (arith, length-append rest more))
              ∙ q)

  -- What a success says of the buffer.
  pub parse_from_buf_sound :
      (a : Address) (n : ℕ)
      → parse_from_buf buf ≡ ok (a, some n)
      → IsWire a × (n ≡ length (wire a)) × (buf ≡ wire a ++ drop n buf)
  parse_from_buf_sound a n h = go (parse_from_buf-Outcome buf b) h
    where
      go :
          {r : Result (Address × Option ℕ)}
          → Outcome buf r
          → r ≡ ok (a, some n)
          → IsWire a × (n ≡ length (wire a)) × (buf ≡ wire a ++ drop n buf)
      go (incomplete part) q = cc
      go (complete a' n' rest w len split) q =
          let e1 : a' ≡ a = cc in
          let e2 : n' ≡ n = cc in
          let tail : drop n buf ≡ rest = rw split (drop-append (wire a') rest n (sym len ∙ e2)) in
          (subst IsWire e1 w, sym e2 ∙ len ∙ ap (λ t. length (wire t)) e1, rw (tail, ← e1) split)
      go (bad_type t rest split t1 t3 t4) q = cc
      go (bad_utf8 name rest split bad long) q = cc

  pub parse_from_buf-ne-panic : parse_from_buf buf ≢ panic
  parse_from_buf-ne-panic h = go (parse_from_buf-Outcome buf b) h
    where
      go : {r : Result (Address × Option ℕ)} → Outcome buf r → r ≢ panic
      go (incomplete part) q = cc
      go (complete a' n' rest w len split) q = cc
      go (bad_type t rest split t1 t3 t4) q = cc
      go (bad_utf8 name rest split bad long) q = cc

-- Bytes behind the address do not change the answer.
pub parse_from_buf-append_ok :
    (buf more : List ℕ)
    → AreBytes buf
    → (a : Address) (n : ℕ) → parse_from_buf buf ≡ ok (a, some n)
    → parse_from_buf (buf ++ more) ≡ ok (a, some n)
parse_from_buf-append_ok buf more b a n h =
    let (w, len, split) = parse_from_buf_sound buf b a n h in
    rw (split, append_assoc) (parse_from_buf-wire a (drop n buf ++ more) w ∙ rw (← len))

-- A proper part of an address with a layout asks for more, and is not refused.
pub parse_from_buf_truncated :
    (a : Address) (front : List ℕ) (x : ℕ) (back : List ℕ)
    → IsWire a
    → wire a ≡ front ++ x ∷ back
    → parse_from_buf front ≡ need_more
parse_from_buf_truncated a front x back w e = go (parse_from_buf-Outcome front b) refl
  where
    b : AreBytes front
    b = All-append_left IsByte front (x ∷ back) (subst AreBytes e (wire-AreBytes a w))

    whole : parse_from_buf (front ++ x ∷ back) ≡ ok (a, some (length (wire a)))
    whole = ap parse_from_buf (sym (append-nil (wire a) ∙ e)) ∙ parse_from_buf-wire a [] w

    go :
        {r : Result (Address × Option ℕ)}
        → Outcome front r
        → parse_from_buf front ≡ r
        → r ≡ need_more
    go (incomplete part) q = refl
    go (complete a' n' rest w' len split) q =
        let same : n' ≡ length (wire a) =
          cc (whole, parse_from_buf-append_ok front (x ∷ back) b a' n' q) in
        absurd (
          omega (
            arith,
            len,
            same,
            ap (length {A = ℕ}) e,
            ap (length {A = ℕ}) split,
            length-append front (x ∷ back),
            length-append (wire a') rest,
          ))
    go (bad_type t rest split t1 t3 t4) q =
        cc (whole, parse_from_buf-append_err front b (x ∷ back) _ q)
    go (bad_utf8 name rest split bad long) q =
        cc (whole, parse_from_buf-append_err front b (x ∷ back) _ q)
