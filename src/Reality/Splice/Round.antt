-- ===== src/Reality/Splice/Round.antt =====
-- A round of the splicing loop behind its read.
use rust.Prelude.{◌⊎◌, inl, inr, ℕ, ◌≡◌, refl, ◌≢◌, List, [], ◌∷◌, length}
use rust.Error.{Result, ok, err, io, would_block, unexpected_eof, other, IoError}
use rust.Exec.{IoResult, done, failed, Io, ◌>>=◌}
use rust.Reality.Splice.{AsyncStream, State, pass_on, transferred, Turn, continues, breaks}

-- For any way to write: which answers of the read go with which results.
module _ (R W : AsyncStream) (write_all : List ℕ → Io (State R W) (Unit {0}))
    (flush : Io (State R W) (Unit {0})) (u : State R W) where
  pub data Passed : IoResult (List ℕ) → Result Turn × State R W → Type 0 where
    blocked : Passed (failed would_block) (ok continues, u)
    at_end : Passed (done []) (ok breaks, u)
    failing : (e : IoError) → e ≢ would_block → Passed (failed e) (ok breaks, u)
    passed :
        (x : ℕ) (b : List ℕ) (v t : State R W)
        → write_all (x ∷ b) u ≡ (done tt, v)
        → flush v ≡ (done tt, t)
        → Passed (done (x ∷ b)) (ok continues, (transferred (length (x ∷ b)) t).1)
    broken :
        (x : ℕ) (b : List ℕ) (e : IoError) (t : State R W)
        → (write_all (x ∷ b) u ≡ (failed e, t)) ⊎ ((v : State R W) × (flush v ≡ (failed e, t)))
        → Passed (done (x ∷ b)) (err (io e), t)

  flushed :
      (x : ℕ) (b : List ℕ) (v : State R W)
      → write_all (x ∷ b) u ≡ (done tt, v)
      → (ended : IoResult (Unit {0}) × State R W) → flush v ≡ ended
      → Passed (done (x ∷ b)) (pass_on R W write_all flush (done (x ∷ b)) u)
  unfolding pass_on ◌>>=◌
  flushed x b v p (done tt, t) q = rw (p, q) (passed x b v t p q)
  flushed x b v p (failed e, t) q = rw (p, q) (broken x b e t (inr (v, q)))

  wrote :
      (x : ℕ) (b : List ℕ) (ended : IoResult (Unit {0}) × State R W)
      → write_all (x ∷ b) u ≡ ended
      → Passed (done (x ∷ b)) (pass_on R W write_all flush (done (x ∷ b)) u)
  unfolding pass_on ◌>>=◌
  wrote x b (done tt, v) p = flushed x b v p _ refl
  wrote x b (failed e, t) p = rw p (broken x b e t (inl p))

  pub pass_on-Passed :
      (result : IoResult (List ℕ)) → Passed result (pass_on R W write_all flush result u)
  unfolding pass_on ◌>>=◌
  pass_on-Passed (done []) = at_end
  pass_on-Passed (done (x ∷ b)) = wrote x b _ refl
  pass_on-Passed (failed would_block) = blocked
  pass_on-Passed (failed unexpected_eof) = failing unexpected_eof (λ e. cc)
  pass_on-Passed (failed (other code)) = failing (other code) (λ e. cc)
