-- ===== src/Server/Peek.antt =====
-- What the peek loop decides: whatever the pieces in which the bytes arrive, it accepts exactly the
-- streams that begin with a user's header.
use rust.Prelude.{
  is_empty, ℕ, zero, suc, ◌+◌, ◌-◌, ◌<◌, ◌≡◌, ◌≢◌, refl, sym, ap, ◌∙◌, subst, true, false, Option,
  none, some, List, [], ◌∷◌, ◌++◌, arith, leb, if◌then◌else◌, length, length-append, append_assoc,
  append-nil, Bool-cases, inl, inr, All-append_left,
}
use rust.Error.{Result, ok, err, panic}
use rust.Bytes.{Str, AreBytes, IsByte}
use rust.Exec.{Exec, done, pure, pure_ok, pure_state, ◌>>=◌}
use rust.Io.{AsyncRead}
use rust.Io.Finite.{IsFinite, IsChunk}
use rust.Protocol.Header.{Header, peek_size, try_parse_from_buf, verify_password}
use rust.Protocol.Header.Wire.{IsHeader, wire}
use rust.Protocol.Header.Laws.{try_parse_from_buf-wire}
use rust.Protocol.Header.Eval.{try_parse_short}
use rust.Protocol.Header.Stability.{
  try_parse_from_buf-append_err, try_parse_from_buf-append_ok, try_parse_from_buf_sound,
  try_parse_from_buf_more, try_parse_from_buf-ne-panic,
}
use rust.Proxy.Fallback.{peek_client_data}
use rust.Server.{Decision, dropped, fallback, accepted, at_end, decide, peek_loop}

-- The bytes begin with the header of a user.
pub record BeginsWith (passwords : List Str) (all : List ℕ) (h : Header) : Type 0 where
  pub header : IsHeader h
  pub user : verify_password h passwords ≡ true
  pub rest : List ℕ
  pub split : all ≡ wire h ++ rest

-- A decision is right for a client that sends `all`, of which `left` was not read: nothing read is
-- lost, silence is dropped, and the proxy is open exactly to a user's header.
pub data IsRight (passwords : List Str) (all left : List ℕ) : Decision → Type 0 where
  silent : all ≡ [] → IsRight passwords all left dropped
  falls_back :
      (peeked : List ℕ)
      → all ≡ peeked ++ left
      → peeked ≢ []
      → ((h : Header) → ¬ BeginsWith passwords all h)
      → IsRight passwords all left (fallback peeked)
  admits :
      (h : Header) (peeked : List ℕ)
      → all ≡ peeked ++ left
      → BeginsWith passwords peeked h
      → IsRight passwords all left (accepted h peeked)

module _ (r : AsyncRead) (fin : IsFinite r) (passwords : List Str) (all : List ℕ)
    (b : AreBytes all) where
  -- The run ended with a right decision.
  abbrev Decides : Result Decision × r.Stream → Type 0
  Decides run = (d : Decision) × (run.0 ≡ ok d) × IsRight passwords all (fin.pending run.1) d

  -- No header that the whole begins with, if the parser does not find one in it.
  no_user :
      (answer : Result (Option Header))
      → try_parse_from_buf all ≡ answer
      → ((h : Header) → answer ≡ ok (some h) → verify_password h passwords ≡ false)
      → (h : Header) → ¬ BeginsWith passwords all h
  no_user answer e other h u = cc (
    u.user,
    other h (sym e ∙ ap try_parse_from_buf u.split ∙ try_parse_from_buf-wire h u.rest u.header),
  )

  decide-Decides :
      (peeked : List ℕ) (answer : Result (Option Header)) (rest : Exec r.Stream Decision)
      (s : r.Stream)
      → all ≡ peeked ++ fin.pending s
      → peeked ≢ []
      → try_parse_from_buf peeked ≡ answer
      → (answer ≡ ok none → Decides (rest s))
      → Decides (decide passwords peeked answer rest s)
  unfolding decide
  decide-Decides peeked (ok (some h)) rest s split read e go =
      let here = All-append_left IsByte peeked (fin.pending s) (subst AreBytes split b) in
      let (w, cut) = try_parse_from_buf_sound peeked here h e in
      let whole : try_parse_from_buf all ≡ ok (some h) =
        rw split (try_parse_from_buf-append_ok peeked (fin.pending s) here h e) in
      elim (Bool-cases (verify_password h passwords)) [
        | inl user ↦ rw user (
          accepted h peeked,
          pure_ok _ s,
          admits h peeked (rw (pure_state _ s) split)
              (record { header = w; user = user; rest = _; split = cut }),
        )
        | inr stranger ↦ rw stranger (
          fallback peeked,
          pure_ok _ s,
          falls_back peeked (rw (pure_state _ s) split) read
              (no_user _ whole λ h' same. let eq : h ≡ h' = cc in rw (← eq) stranger),
        )
      ]
  decide-Decides peeked (ok none) rest s split read e go = go refl
  decide-Decides peeked (err x) rest s split read e go =
      let here = All-append_left IsByte peeked (fin.pending s) (subst AreBytes split b) in
      let whole : try_parse_from_buf all ≡ err x =
        rw split (try_parse_from_buf-append_err peeked here (fin.pending s) x e) in
      (
        fallback peeked,
        pure_ok _ s,
        falls_back peeked (rw (pure_state _ s) split) read (no_user _ whole λ h' same. cc),
      )
  decide-Decides peeked panic rest s split read e go =
      let here = All-append_left IsByte peeked (fin.pending s) (subst AreBytes split b) in
      absurd (try_parse_from_buf-ne-panic peeked here e)

  -- One round that finds the chunk `chunk`.
  round_eval :
      (rounds : ℕ) (peeked chunk : List ℕ) (s : r.Stream)
      → length peeked < peek_size
      → (r.read (peek_size - length peeked) s).0 ≡ done chunk
      → peek_loop r passwords (suc rounds) peeked s
        ≡ (if is_empty chunk
              then pure (at_end peeked)
              else decide passwords
                  (peeked ++ chunk)
                  (try_parse_from_buf (peeked ++ chunk))
                  (peek_loop r passwords rounds (peeked ++ chunk)))
            (r.read (peek_size - length peeked) s).1
  unfolding peek_loop peek_client_data ◌>>=◌
  round_eval rounds peeked chunk s few got = rw (lt→leb peeked few, got)
    where
      lt→leb : (l : List ℕ) → length l < peek_size → leb peek_size (length l) ≡ false
      lt→leb l h = ground arith

  -- At the end of the stream.
  at_end-Decides :
      (peeked : List ℕ) (s : r.Stream)
      → all ≡ peeked ++ fin.pending s
      → fin.pending s ≡ []
      → try_parse_from_buf peeked ≡ ok none
      → Decides (pure (at_end peeked) s)
  unfolding at_end
  at_end-Decides [] s split none_left e = (dropped, pure_ok _ s, silent (split ∙ none_left))
  at_end-Decides (x ∷ peeked) s split none_left e =
      let whole : try_parse_from_buf all ≡ ok none = rw (split, none_left, append-nil) e in
      (
        fallback (x ∷ peeked),
        pure_ok _ s,
        falls_back (x ∷ peeked) (rw (pure_state _ s) split) (λ q. cc)
            (no_user _ whole λ h same. cc),
      )

  -- The loop is right from every state that it can come to.
  abbrev LoopDecides : ℕ → Type 0
  LoopDecides rounds =
      (peeked : List ℕ) (s : r.Stream)
      → all ≡ peeked ++ fin.pending s
      → try_parse_from_buf peeked ≡ ok none
      → peek_size < rounds + length peeked
      → Decides (peek_loop r passwords rounds peeked s)

  -- By the chunk that a round read; `s'` is the stream behind it.
  chunk-Decides :
      (rounds : ℕ) (peeked before chunk : List ℕ) (s' : r.Stream)
      → LoopDecides rounds
      → all ≡ peeked ++ before
      → try_parse_from_buf peeked ≡ ok none
      → peek_size < suc rounds + length peeked
      → 0 < peek_size - length peeked
      → IsChunk (peek_size - length peeked) before chunk (fin.pending s')
      → Decides (
          (if is_empty chunk
              then pure (at_end peeked)
              else decide passwords
                  (peeked ++ chunk)
                  (try_parse_from_buf (peeked ++ chunk))
                  (peek_loop r passwords rounds (peeked ++ chunk)))
            s')
  chunk-Decides rounds peeked before [] s' ih split e enough room part =
      at_end-Decides peeked s' (split ∙ rw part.split) (sym part.split ∙ part.progress room refl) e
  chunk-Decides rounds peeked before (x ∷ chunk) s' ih split e enough room part =
      let split' : all ≡ (peeked ++ x ∷ chunk) ++ fin.pending s' =
        split ∙ rw (part.split, append_assoc) in
      decide-Decides (peeked ++ x ∷ chunk) _ (peek_loop r passwords rounds (peeked ++ x ∷ chunk)) s'
        split' (nonempty peeked) refl
        λ more.
          ih (peeked ++ x ∷ chunk) s' split' more (omega (arith, length-append peeked (x ∷ chunk)))
    where
      nonempty : (l : List ℕ) → l ++ x ∷ chunk ≢ []
      nonempty [] q = cc
      nonempty (y ∷ l) q = cc

  loop-Decides : (rounds : ℕ) → LoopDecides rounds
  loop-Decides zero peeked s split e enough =
      let here = All-append_left IsByte peeked (fin.pending s) (subst AreBytes split b) in
      absurd (omega (arith, try_parse_from_buf_more peeked here e))
  loop-Decides (suc rounds) peeked s split e enough =
      let here = All-append_left IsByte peeked (fin.pending s) (subst AreBytes split b) in
      let few = try_parse_from_buf_more peeked here e in
      let (chunk, got, part) = fin.read_chunk (peek_size - length peeked) s in
      rw (round_eval rounds peeked chunk s (omega arith) got) (
        chunk-Decides rounds peeked (fin.pending s) chunk _ (loop-Decides rounds) split e enough
          (omega arith) part)

-- Whatever the pieces in which the bytes of a finite stream arrive, the peek loop ends within its rounds with
-- the right decision: silence is dropped; a stream that begins with a user's header is accepted,
-- with that header; any other goes to the fallback; and the bytes read and those still to be read
-- are together the bytes sent.
pub peek_loop-IsRight :
    (r : AsyncRead) (fin : IsFinite r) (passwords : List Str) (s : r.Stream)
    → AreBytes (fin.pending s)
    → (d : Decision) × ((peek_loop r passwords (peek_size + 1) [] s).0 ≡ ok d)
      × IsRight passwords
          (fin.pending s)
          (fin.pending (peek_loop r passwords (peek_size + 1) [] s).1)
          d
peek_loop-IsRight r fin passwords s b =
    loop-Decides r fin passwords (fin.pending s) b (peek_size + 1) [] s refl
      (try_parse_short [] (omega arith)) (omega arith)
