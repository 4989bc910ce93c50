-- ===== src/Reality/Splice/Forwarded.antt =====
-- What the splicing loop forwards.
use rust.Prelude.{
  ℕ, ◌+◌, ◌%◌, ◌^◌, ◌≡◌, sym, ap, ◌∙◌, List, [], ◌++◌, arith, length, append_assoc, append-nil,
  length-append,
}
use rust.Error.{IoError}
use rust.Exec.{done, failed}
use rust.Reality.Splice.{AsyncStream, State}

-- What the documentation of tokio promises of a stream: a finished read takes what it gives off the
-- incoming bytes, a failed one takes nothing; a finished write adds its bytes to the outgoing ones.
pub record IsRecorded (a : AsyncStream) : Type 0 where
  pub taken : a.Stream → List ℕ
  pub written : a.Stream → List ℕ
  pub read_done :
      (n : ℕ) (s s' : a.Stream) (b : List ℕ)
      → a.read n s ≡ (done b, s')
      → (taken s' ≡ taken s ++ b) × (written s' ≡ written s)
  pub read_failed :
      (n : ℕ) (s s' : a.Stream) (e : IoError)
      → a.read n s ≡ (failed e, s')
      → (taken s' ≡ taken s) × (written s' ≡ written s)
  pub write_done :
      (b : List ℕ) (s s' : a.Stream)
      → a.write_all b s ≡ (done tt, s')
      → (taken s' ≡ taken s) × (written s' ≡ written s ++ b)
  pub flush_done :
      (s s' : a.Stream)
      → a.flush s ≡ (done tt, s')
      → (taken s' ≡ taken s) × (written s' ≡ written s)

module _ {R W : AsyncStream} (rr : IsRecorded R) (ww : IsRecorded W) where
  -- From `s` to `t` these bytes were taken from each side and written to the other, and counted.
  pub record Forwards (s t : State R W) : Type 0 where
    pub up : List ℕ
    pub down : List ℕ
    pub reader_taken : rr.taken t.reader ≡ rr.taken s.reader ++ up
    pub writer_written : ww.written t.writer ≡ ww.written s.writer ++ up
    pub writer_taken : ww.taken t.writer ≡ ww.taken s.writer ++ down
    pub reader_written : rr.written t.reader ≡ rr.written s.reader ++ down
    pub count :
        t.bytes_transferred % 2 ^ 64 ≡ (s.bytes_transferred + (length up + length down)) % 2 ^ 64

  pub Forwards_none :
      (s t : State R W)
      → rr.taken t.reader ≡ rr.taken s.reader
      → rr.written t.reader ≡ rr.written s.reader
      → ww.taken t.writer ≡ ww.taken s.writer
      → ww.written t.writer ≡ ww.written s.writer
      → t.bytes_transferred ≡ s.bytes_transferred
      → Forwards s t
  Forwards_none s t a b c d e = record {
    up = [];
    down = [];
    reader_taken = a ∙ sym (append-nil _);
    writer_written = d ∙ sym (append-nil _);
    writer_taken = c ∙ sym (append-nil _);
    reader_written = b ∙ sym (append-nil _);
    count = omega (arith, e);
  }

  -- What follows in two steps.
  pub joins :
      {A : Type 0} (x b c : List A) {y z : List A} → y ≡ x ++ b → z ≡ y ++ c → z ≡ x ++ (b ++ c)
  joins x b c p q = q ∙ ap (λ l. l ++ c) p ∙ append_assoc x b c

  unfoldable pub Forwards_trans : {s t u : State R W} → Forwards s t → Forwards t u → Forwards s u
  Forwards_trans f g = record {
    up = f.up ++ g.up;
    down = f.down ++ g.down;
    reader_taken = joins _ _ _ f.reader_taken g.reader_taken;
    writer_written = joins _ _ _ f.writer_written g.writer_written;
    writer_taken = joins _ _ _ f.writer_taken g.writer_taken;
    reader_written = joins _ _ _ f.reader_written g.reader_written;
    count = omega (arith, f.count, g.count, length-append f.up g.up, length-append f.down g.down);
  }
