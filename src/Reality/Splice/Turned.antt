-- ===== src/Reality/Splice/Turned.antt =====
-- How a round of the splicing loop ends.
use rust.Prelude.{
  ℕ, ◌+◌, ◌≡◌, refl, sym, ap, ◌∙◌, ◌≢◌, ◌<◌, ◌⊎◌, inl, inr, List, [], ◌∷◌, arith, length,
  append-nil,
}
use rust.Error.{Result, ok, err, io, would_block, IoError}
use rust.Exec.{IoResult, done, failed, ◌>>=◌}
use rust.Reality.Splice.Round.{Passed, blocked, at_end, failing, passed, broken, pass_on-Passed}
use rust.Reality.Splice.{
  AsyncStream, Ready, reader_first, writer_first, buffer_size, State, on_reader, on_writer,
  transferred, turn, Turn, continues, breaks,
}
use rust.Reality.Splice.Forwarded.{IsRecorded, Forwards, Forwards_none}

-- A write or a flush of one side that failed.
pub data WriteFailed (R W : AsyncStream) (e : IoError) : Type 0 where
  reader_write :
      (b : List ℕ) (s s' : R.Stream) → R.write_all b s ≡ (failed e, s') → WriteFailed R W e
  reader_flush : (s s' : R.Stream) → R.flush s ≡ (failed e, s') → WriteFailed R W e
  writer_write :
      (b : List ℕ) (s s' : W.Stream) → W.write_all b s ≡ (failed e, s') → WriteFailed R W e
  writer_flush : (s s' : W.Stream) → W.flush s ≡ (failed e, s') → WriteFailed R W e

module _ {R W : AsyncStream} (rr : IsRecorded R) (ww : IsRecorded W) where
  -- What the side whose turn it is reads next.
  abbrev pub next_read : Ready → State R W → IoResult (List ℕ)
  next_read reader_first s = (R.read buffer_size s.reader).0
  next_read writer_first s = (W.read buffer_size s.writer).0

  -- How a round ends: bytes went from one side to the other, or the side was not ready after all;
  -- the side has ended; or a write failed.
  pub data Turned (ready : Ready) (s : State R W) : Result Turn × State R W → Type 0 where
    goes_on :
        {t : State R W} (f : Forwards rr ww s t)
        → 0 < length f.up + length f.down ⊎ next_read ready s ≡ failed would_block
        → Turned ready s (ok continues, t)
    ends :
        {t : State R W}
        → Forwards rr ww s t
        → ((e : IoError) × (next_read ready s ≡ failed e) × (e ≢ would_block))
          ⊎ next_read ready s ≡ done []
        → Turned ready s (ok breaks, t)
    breaks_off : (e : IoError) (t : State R W) → WriteFailed R W e → Turned ready s (err (io e), t)

  up_done :
      (s : State R W) (r' : R.Stream) (x : ℕ) (b : List ℕ) (v t : State R W)
      → R.read buffer_size s.reader ≡ (done (x ∷ b), r')
      → on_writer R W (W.write_all (x ∷ b)) (record s { reader = r' }) ≡ (done tt, v)
      → on_writer R W W.flush v ≡ (done tt, t)
      → (f : Forwards rr ww s (transferred (length (x ∷ b)) t).1) × (0
          < length f.up + length f.down)
  unfolding transferred
  up_done s r' x b v t p q l =
      let (a1, a2) = rr.read_done buffer_size s.reader r' (x ∷ b) p in
      let (b1, b2) = ww.write_done (x ∷ b) s.writer v.writer (λ i. ((q i).0, (q i).1.writer)) in
      let (c1, c2) = ww.flush_done v.writer t.writer (λ i. ((l i).0, (l i).1.writer)) in
      let same : t.reader ≡ r' = ap (λ m. m.1.reader) (sym l) ∙ ap (λ m. m.1.reader) (sym q) in
      let bytes : t.bytes_transferred ≡ s.bytes_transferred =
        ap (λ m. m.1.bytes_transferred) (sym l) ∙ ap (λ m. m.1.bytes_transferred) (sym q) in
      (
        record {
          up = x ∷ b;
          down = [];
          reader_taken = ap rr.taken same ∙ a1;
          writer_written = c2 ∙ b2;
          writer_taken = c1 ∙ b1 ∙ sym (append-nil _);
          reader_written = ap rr.written same ∙ a2 ∙ sym (append-nil _);
          count = omega (arith, bytes);
        },
        omega arith,
      )

  down_done :
      (s : State R W) (w' : W.Stream) (x : ℕ) (b : List ℕ) (v t : State R W)
      → W.read buffer_size s.writer ≡ (done (x ∷ b), w')
      → on_reader R W (R.write_all (x ∷ b)) (record s { writer = w' }) ≡ (done tt, v)
      → on_reader R W R.flush v ≡ (done tt, t)
      → (f : Forwards rr ww s (transferred (length (x ∷ b)) t).1) × (0
          < length f.up + length f.down)
  unfolding transferred
  down_done s w' x b v t p q l =
      let (a1, a2) = ww.read_done buffer_size s.writer w' (x ∷ b) p in
      let (b1, b2) = rr.write_done (x ∷ b) s.reader v.reader (λ i. ((q i).0, (q i).1.reader)) in
      let (c1, c2) = rr.flush_done v.reader t.reader (λ i. ((l i).0, (l i).1.reader)) in
      let same : t.writer ≡ w' = ap (λ m. m.1.writer) (sym l) ∙ ap (λ m. m.1.writer) (sym q) in
      let bytes : t.bytes_transferred ≡ s.bytes_transferred =
        ap (λ m. m.1.bytes_transferred) (sym l) ∙ ap (λ m. m.1.bytes_transferred) (sym q) in
      (
        record {
          up = [];
          down = x ∷ b;
          reader_taken = c1 ∙ b1 ∙ sym (append-nil _);
          writer_written = ap ww.written same ∙ a2 ∙ sym (append-nil _);
          writer_taken = ap ww.taken same ∙ a1;
          reader_written = c2 ∙ b2;
          count = omega (arith, bytes);
        },
        omega arith,
      )

  -- A read that took nothing.
  reader_kept :
      (s : State R W) (r' : R.Stream)
      → (rr.taken r' ≡ rr.taken s.reader) × (rr.written r' ≡ rr.written s.reader)
      → Forwards rr ww s (record s { reader = r' })
  reader_kept s r' (a, b) = Forwards_none rr ww s (record s { reader = r' }) a b refl refl refl

  writer_kept :
      (s : State R W) (w' : W.Stream)
      → (ww.taken w' ≡ ww.taken s.writer) × (ww.written w' ≡ ww.written s.writer)
      → Forwards rr ww s (record s { writer = w' })
  writer_kept s w' (a, b) = Forwards_none rr ww s (record s { writer = w' }) refl refl a b refl

  read_nothing :
      {a : AsyncStream} (c : IsRecorded a) (n : ℕ) (s s' : a.Stream)
      → a.read n s ≡ (done [], s')
      → (c.taken s' ≡ c.taken s) × (c.written s' ≡ c.written s)
  read_nothing c n s s' p = let (x, y) = c.read_done n s s' [] p in (x ∙ append-nil _, y)

  reader_turn :
      (s : State R W) (result : IoResult (List ℕ)) (r' : R.Stream)
      → R.read buffer_size s.reader ≡ (result, r')
      → (ended : Result Turn × State R W)
      → Passed R W
          (λ b. on_writer R W (W.write_all b))
          (on_writer R W W.flush)
          (record s { reader = r' })
          result
          ended
      → Turned reader_first s ended
  reader_turn s _ r' p _ blocked =
      goes_on (reader_kept s r' (rr.read_failed buffer_size s.reader r' would_block p))
        (inr (ap (λ m. m.0) p))
  reader_turn s _ r' p _ at_end =
      ends (reader_kept s r' (read_nothing rr buffer_size s.reader r' p)) (inr (ap (λ m. m.0) p))
  reader_turn s _ r' p _ (failing e other_kind) =
      ends (reader_kept s r' (rr.read_failed buffer_size s.reader r' e p))
        (inl (e, ap (λ m. m.0) p, other_kind))
  reader_turn s _ r' p _ (passed x b v t q l) =
      let (f, moved) = up_done s r' x b v t p q l in goes_on f (inl moved)
  reader_turn s _ r' p _ (broken x b e t (inl q)) =
      breaks_off e t (writer_write (x ∷ b) s.writer t.writer (λ i. ((q i).0, (q i).1.writer)))
  reader_turn s _ r' p _ (broken x b e t (inr (v, q))) =
      breaks_off e t (writer_flush v.writer t.writer (λ i. ((q i).0, (q i).1.writer)))

  writer_turn :
      (s : State R W) (result : IoResult (List ℕ)) (w' : W.Stream)
      → W.read buffer_size s.writer ≡ (result, w')
      → (ended : Result Turn × State R W)
      → Passed R W
          (λ b. on_reader R W (R.write_all b))
          (on_reader R W R.flush)
          (record s { writer = w' })
          result
          ended
      → Turned writer_first s ended
  writer_turn s _ w' p _ blocked =
      goes_on (writer_kept s w' (ww.read_failed buffer_size s.writer w' would_block p))
        (inr (ap (λ m. m.0) p))
  writer_turn s _ w' p _ at_end =
      ends (writer_kept s w' (read_nothing ww buffer_size s.writer w' p)) (inr (ap (λ m. m.0) p))
  writer_turn s _ w' p _ (failing e other_kind) =
      ends (writer_kept s w' (ww.read_failed buffer_size s.writer w' e p))
        (inl (e, ap (λ m. m.0) p, other_kind))
  writer_turn s _ w' p _ (passed x b v t q l) =
      let (f, moved) = down_done s w' x b v t p q l in goes_on f (inl moved)
  writer_turn s _ w' p _ (broken x b e t (inl q)) =
      breaks_off e t (reader_write (x ∷ b) s.reader t.reader (λ i. ((q i).0, (q i).1.reader)))
  writer_turn s _ w' p _ (broken x b e t (inr (v, q))) =
      breaks_off e t (reader_flush v.reader t.reader (λ i. ((q i).0, (q i).1.reader)))

  pub turn-Turned : (ready : Ready) (s : State R W) → Turned ready s (turn R W ready s)
  unfolding turn ◌>>=◌
  turn-Turned reader_first s = reader_turn s _ _ refl _ (pass_on-Passed R W _ _ _ _)
  turn-Turned writer_first s = writer_turn s _ _ refl _ (pass_on-Passed R W _ _ _ _)
