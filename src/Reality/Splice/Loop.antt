-- ===== src/Reality/Splice/Loop.antt =====
-- The splicing loop: what it has forwarded when it ends.
use rust.Prelude.{
  ℕ, ◌+◌, ◌≡◌, refl, ◌≢◌, ◌<◌, ◌≤◌, suc, ◌⊎◌, inl, inr, Option, none, some, List, [], ◌∷◌, arith,
  length, length-append,
}
use rust.Error.{Result, ok, err, io, would_block, IoError}
use rust.Exec.{done, failed, ◌>>=◌}
use rust.Reality.Splice.{AsyncStream, Ready, State, turn, splice, Turn}
use rust.Reality.Splice.Forwarded.{IsRecorded, Forwards, Forwards_none, Forwards_trans}
use rust.Reality.Splice.Turned.{
  WriteFailed, Turned, goes_on, ends, breaks_off, turn-Turned, next_read,
}

module _ {R W : AsyncStream} (rr : IsRecorded R) (ww : IsRecorded W) where
  -- Still running after so many rounds: each of them forwarded a byte at least, or some read was not
  -- ready. At the end of a side, or an error of its read: the bytes of both ways are forwarded and
  -- counted. A round whose write failed: this holds of the rounds before it.
  pub data Outcome (rounds : ℕ) (s : State R W) : Result (Option ℕ) × State R W → Type 0 where
    runs :
        {t : State R W} (f : Forwards rr ww s t)
        → rounds ≤ length f.up + length f.down
          ⊎ ((ready : Ready) × (u : State R W) × Forwards rr ww s u
              × (next_read rr ww ready u ≡ failed would_block))
        → Outcome rounds s (ok none, t)
    ended :
        (ready : Ready) (u t : State R W)
        → Forwards rr ww s u
        → ((e : IoError) × (next_read rr ww ready u ≡ failed e) × (e ≢ would_block))
          ⊎ next_read rr ww ready u ≡ done []
        → Forwards rr ww s t
        → Outcome rounds s (ok (some t.bytes_transferred), t)
    broken :
        (ready : Ready) (u t : State R W) (e : IoError)
        → Forwards rr ww s u
        → turn R W ready u ≡ (err (io e), t)
        → WriteFailed R W e
        → Outcome rounds s (err (io e), t)

  Forwards_refl : (s : State R W) → Forwards rr ww s s
  Forwards_refl s = Forwards_none rr ww s s refl refl refl refl refl

  -- A round that goes on, before the rest.
  after :
      (rounds : ℕ) (ready : Ready) (s t : State R W) (f : Forwards rr ww s t)
      → 0 < length f.up + length f.down ⊎ next_read rr ww ready s ≡ failed would_block
      → (result : Result (Option ℕ) × State R W) → Outcome rounds t result
      → Outcome (suc rounds) s result
  unfolding Forwards_trans
  after rounds ready s t f moved _ (runs g (inr (ready', u, h, wait))) =
      runs (Forwards_trans rr ww f g) (inr (ready', u, Forwards_trans rr ww f h, wait))
  after rounds ready s t f (inr wait) _ (runs g (inl enough)) =
      runs (Forwards_trans rr ww f g) (inr (ready, s, Forwards_refl s, wait))
  after rounds ready s t f (inl moved) _ (runs g (inl enough)) =
      runs (Forwards_trans rr ww f g)
        (inl (omega (arith, enough, moved, length-append f.up g.up, length-append f.down g.down)))
  after rounds ready s t f moved _ (ended ready' u v g cause h) =
      ended ready' u v (Forwards_trans rr ww f g) cause (Forwards_trans rr ww f h)
  after rounds ready s t f moved _ (broken ready' u v e g q cause) =
      broken ready' u v e (Forwards_trans rr ww f g) q cause

  step :
      (ready : Ready) (later : List Ready) (s : State R W)
      → ((t : State R W) → Outcome (length later) t (splice R W later t))
      → (ended_turn : Result Turn × State R W) → turn R W ready s ≡ ended_turn
      → Turned rr ww ready s ended_turn
      → Outcome (suc (length later)) s (splice R W (ready ∷ later) s)
  unfolding splice ◌>>=◌
  step ready later s ih _ q (goes_on {t} f moved) =
      rw q (after (length later) ready s t f moved _ (ih t))
  step ready later s ih _ q (ends {t} f cause) = rw q (ended ready s t (Forwards_refl s) cause f)
  step ready later s ih _ q (breaks_off e t cause) =
      rw q (broken ready s t e (Forwards_refl s) q cause)

  -- Over streams that keep tokio's promises, and whichever reads come first: the loop still runs
  -- after so many rounds only if as many bytes were forwarded or some read was not ready; it returns
  -- only at the end or a failed read of one side, and then the bytes that were taken from each side
  -- were written to the other, in order, and counted modulo 2^64; and it fails only with the error
  -- of a write or a flush, behind rounds that forwarded what they took.
  pub splice-Outcome :
      (order : List Ready) (s : State R W) → Outcome (length order) s (splice R W order s)
  unfolding splice ◌>>=◌
  splice-Outcome [] s = runs (Forwards_refl s) (inl (omega arith))
  splice-Outcome (ready ∷ later) s =
      step ready later s (splice-Outcome later) _ refl (turn-Turned rr ww ready s)
