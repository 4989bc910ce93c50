-- ===== src/Protocol/Address/Parse.antt =====
-- `Address::parse_from_buf` against the layout.
use rust.Prelude.{
  ℕ, ◌+◌, ◌<◌, ◌≡◌, refl, false, some, List, [], ◌∷◌, ◌++◌, arith, length, length-append, le→ltb,
  lt→ltb, ltb, append_assoc,
}
use rust.Error.{ok, invalid_utf8, ok_or, ◌>>=◌}
use rust.Bytes.{be16, index, slice, from_utf8}
use rust.Bytes.Laws.{index-append, slice-append}
use rust.Protocol.Address.{
  ipv4, ipv6, domain, v4, v6, be16_at, parse_ipv4, parse_domain, parse_ipv6, need_more,
}

-- Behind the type byte: too little asks for more, and enough gives the address.
pub parse_ipv4-short : (p : List ℕ) → length p < 6 → parse_ipv4 p ≡ need_more
unfolding parse_ipv4
parse_ipv4-short p h = rw (lt→ltb _ _ h)

pub parse_ipv4-full :
    (a b c d hi lo : ℕ) (rest : List ℕ)
    → parse_ipv4 (a ∷ b ∷ c ∷ d ∷ hi ∷ lo ∷ rest)
      ≡ ok (ipv4 (v4 (record { a = a; b = b; c = c; d = d }) (be16 hi lo)), some 7)
unfolding parse_ipv4 index
parse_ipv4-full a b c d hi lo rest = ground arith

pub parse_ipv6-short : (p : List ℕ) → length p < 18 → parse_ipv6 p ≡ need_more
unfolding parse_ipv6
parse_ipv6-short p h = rw (lt→ltb _ _ h)

pub parse_ipv6-full :
    (a0 b0 a1 b1 a2 b2 a3 b3 a4 b4 a5 b5 a6 b6 a7 b7 hi lo : ℕ) (rest : List ℕ)
    → parse_ipv6 (
        a0 ∷ b0 ∷ a1 ∷ b1 ∷ a2 ∷ b2 ∷ a3 ∷ b3 ∷ a4 ∷ b4 ∷ a5 ∷ b5 ∷ a6 ∷ b6 ∷ a7 ∷ b7 ∷ hi ∷ lo
        ∷ rest)
      ≡ ok (
        ipv6 (
            v6
              (record {
                s0 = be16 a0 b0;
                s1 = be16 a1 b1;
                s2 = be16 a2 b2;
                s3 = be16 a3 b3;
                s4 = be16 a4 b4;
                s5 = be16 a5 b5;
                s6 = be16 a6 b6;
                s7 = be16 a7 b7;
              })
              (be16 hi lo)
              0
              0),
        some 19,
      )
unfolding parse_ipv6 index
parse_ipv6-full a0 b0 a1 b1 a2 b2 a3 b3 a4 b4 a5 b5 a6 b6 a7 b7 hi lo rest = ground arith

pub parse_domain-short : (n : ℕ) (t : List ℕ) → length t < n + 2 → parse_domain (n ∷ t) ≡ need_more
unfolding parse_domain index
parse_domain-short n t h = ground arith

pub be16_at-append :
    (xs : List ℕ) (hi lo : ℕ) (ys : List ℕ) (i : ℕ)
    → length xs ≡ i
    → be16_at (xs ++ hi ∷ lo ∷ ys) i ≡ ok (be16 hi lo)
unfolding be16_at
be16_at-append xs hi lo ys i e = rw (index-append xs hi (lo ∷ ys) i e, second) refl
  where
    second : index (xs ++ hi ∷ lo ∷ ys) (i + 1) ≡ ok lo
    second =
        rw (append_assoc xs (hi ∷ []) (lo ∷ ys)) at
          (index-append (xs ++ hi ∷ []) lo ys (i + 1) (omega (arith, length-append xs (hi ∷ []))))

pub parse_domain-full :
    (n : ℕ) (name : List ℕ) (hi lo : ℕ) (rest : List ℕ)
    → length name ≡ n
    → parse_domain (n ∷ (name ++ hi ∷ lo ∷ rest)) ≡ (do
      s ← ok_or (from_utf8 name) invalid_utf8
      ok (domain s (be16 hi lo), some (1 + 1 + n + 2)))
unfolding parse_domain
parse_domain-full n name hi lo rest e = rw (first, fits, cut, word)
  where
    first : index (n ∷ (name ++ hi ∷ lo ∷ rest)) 0 ≡ ok n
    first = unfold index in refl

    fits : ltb (length (n ∷ (name ++ hi ∷ lo ∷ rest))) (1 + n + 2) ≡ false
    fits = le→ltb _ _ (omega (arith, length-append name (hi ∷ lo ∷ rest)))

    cut : slice (n ∷ (name ++ hi ∷ lo ∷ rest)) 1 (1 + n) ≡ ok name
    cut = slice-append (n ∷ []) name (hi ∷ lo ∷ rest) 1 (1 + n) refl (omega arith)

    word : be16_at (n ∷ (name ++ hi ∷ lo ∷ rest)) (1 + n) ≡ ok (be16 hi lo)
    word = be16_at-append (n ∷ name) hi lo rest (1 + n) (omega arith)
