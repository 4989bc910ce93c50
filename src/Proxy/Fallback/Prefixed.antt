-- ===== src/Proxy/Fallback/Prefixed.antt =====
-- The stream that gives back peeked bytes: it reads as the leftover and then the inner stream.
use rust.Prelude.{
  ℕ, zero, suc, ◌+◌, ◌≤◌, ◌<◌, ◌≡◌, refl, sym, ap, ◌∙◌, List, [], ◌∷◌, ◌++◌, arith, length,
  length-take, length-drop, take, drop, append_assoc, inl, inr, ◌⊎◌, drop-drop, drop_all, subst,
}
use rust.Exec.{Io, done}
use rust.Io.Finite.{IsChunk}
use rust.Io.Extension.{IsChunked}
use rust.Proxy.Fallback.{PrefixedStream, poll_read}

-- What such a stream still gives, where `pending` is what the inner one does.
abbrev pub remaining : {S : Type 0} → (S → List ℕ) → PrefixedStream S → List ℕ
remaining pending s = drop s.position s.prefix ++ pending s.inner

-- The cursor stands in its bytes.
abbrev pub IsPositioned : {S : Type 0} → PrefixedStream S → Type 0
IsPositioned s = s.position ≤ length s.prefix

lt-or-le : (m n : ℕ) → (m < n) ⊎ (n ≤ m)
lt-or-le m n = ground arith

-- What `take` gives and what stands behind as many elements.
take-append-drop-length : (n : ℕ) (l : List ℕ) → take n l ++ drop (length (take n l)) l ≡ l
take-append-drop-length zero l = refl
take-append-drop-length (suc n) [] = refl
take-append-drop-length (suc n) (x ∷ l) = ap (λ t. x ∷ t) (take-append-drop-length n l)

take-IsChunk :
    (n : ℕ) (l after : List ℕ)
    → 0 < length l
    → IsChunk n (l ++ after) (take n l) (drop (length (take n l)) l ++ after)
take-IsChunk n l after more = record {
  split =
      ap (λ t. t ++ after) (sym (take-append-drop-length n l))
      ∙ append_assoc (take n l) (drop (length (take n l)) l) after;
  fits = omega (arith, length-take n l);
  progress = λ room e. absurd (omega (arith, length-take n l, ap length e));
}

module _ {S : Type 0} (read : ℕ → Io S (List ℕ)) where
  -- While the prefix lasts, the inner stream is not read.
  pub poll_read-prefix :
      (n : ℕ) (s : PrefixedStream S)
      → s.position < length s.prefix
      → poll_read read n s ≡ (
        done (take n (drop s.position s.prefix)),
        record s { position = s.position + length (take n (drop s.position s.prefix)) },
      )
  unfolding poll_read
  poll_read-prefix n s more = ground arith

  pub poll_read-inner :
      (n : ℕ) (s : PrefixedStream S)
      → length s.prefix ≤ s.position
      → poll_read read n s ≡ ((read n s.inner).0, record s { inner = (read n s.inner).1 })
  unfolding poll_read
  poll_read-inner n s past = ground arith

  module _ (pending : S → List ℕ) (c : IsChunked pending read) where
    poll_read-IsChunk :
        (n : ℕ) (s : PrefixedStream S)
        → (b : List ℕ) × ((poll_read read n s).0 ≡ done b)
          × IsChunk n (remaining pending s) b (remaining pending (poll_read read n s).1)
    poll_read-IsChunk n s = elim (lt-or-le s.position (length s.prefix)) [
      | inl more ↦
          let l = drop s.position s.prefix in
          rw (poll_read-prefix n s more) (
            take n l,
            refl,
            subst (λ after. IsChunk n (l ++ pending s.inner) (take n l) (after ++ pending s.inner))
                (drop-drop (length (take n l)) s.position s.prefix)
                (take-IsChunk n l (pending s.inner)
                  (omega (arith, length-drop s.position s.prefix))),
          )
      | inr past ↦
          let (b, got, part) = c.chunk n s.inner in
          rw (poll_read-inner n s past) (
            b,
            got,
            subst (λ l. IsChunk n (l ++ pending s.inner) b (l ++ pending (read n s.inner).1))
                (sym (drop_all s.position s.prefix past)) part,
          )
    ]

    -- Where the inner stream's reads give parts of what it holds, reads of any size from the prefixed
    -- stream give the rest of the prefix and then what the inner stream holds, each byte once and in
    -- order, and nothing only where both are at their end.
    pub poll_read-IsChunked : IsChunked (remaining pending) (poll_read read)
    poll_read-IsChunked = record { chunk = poll_read-IsChunk }

-- A read keeps the cursor within its bytes, so the code's `len - position` does not overflow.
pub poll_read-IsPositioned :
    {S : Type 0} (read : ℕ → Io S (List ℕ)) (n : ℕ) (s : PrefixedStream S)
    → IsPositioned s
    → IsPositioned (poll_read read n s).1
poll_read-IsPositioned read n s here = elim (lt-or-le s.position (length s.prefix)) [
  | inl more ↦
      rw (poll_read-prefix read n s more)
        (omega (arith, length-take n (drop s.position s.prefix), length-drop s.position s.prefix))
  | inr past ↦ rw (poll_read-inner read n s past) here
]
