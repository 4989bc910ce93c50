-- ===== src/Reality/Splice.antt =====
-- src/reality/splice.rs: forwarding between two streams, both ways.
pub mod Unwrap
pub mod Round
pub mod Forwarded
pub mod Turned
pub mod Loop
use rust.Prelude.{ℕ, ◌+◌, ◌%◌, ◌^◌, Bool, true, false, Option, none, some, List, [], ◌∷◌, length}
use rust.Error.{Result, ok, err, join, join_error, io, would_block, unexpected_eof, other, IoError}
use rust.Exec.{
  Io, IoResult, done, failed, Exec, pure, raise, lift, perform, await_io, await_result, from_io,
  ◌>>=◌, ◌>>◌,
}

-- tokio's streams with both halves, which the program calls and does not implement.
pub record AsyncStream : Type 1 where
  pub Stream : Type 0
  pub read : ℕ → Io Stream (List ℕ)
  pub write_all : List ℕ → Io Stream (Unit {0})
  pub flush : Io Stream (Unit {0})

pub record DirectSplice (R W : Type 0) : Type 0 where
  pub reader : R
  pub writer : W
  pub bytes_transferred : ℕ

-- The read of `select!` that is ready first. The other one is dropped, and has taken nothing.
pub data Ready : Type 0 where
  reader_first writer_first : Ready

-- How a round of the loop ends.
pub data Turn : Type 0 where
  continues breaks : Turn

abbrev pub buffer_size : ℕ
buffer_size = 65536

unfoldable pub new : {R W : Type 0} → R → W → DirectSplice R W
new reader writer = record { reader = reader; writer = writer; bytes_transferred = 0 }

-- `self.bytes_transferred += n as u64`
unfoldable pub transferred : {R W : Type 0} → ℕ → DirectSplice R W → Unit {0} × DirectSplice R W
transferred n s = (tt, record s { bytes_transferred = (s.bytes_transferred + n) % 2 ^ 64 })

module _ (R W : AsyncStream) where
  abbrev pub State : Type 0
  State = DirectSplice R.Stream W.Stream

  abbrev pub on_reader : {A : Type 0} → Io R.Stream A → Io State A
  on_reader m s = let (a, reader) = m s.reader in (a, record s { reader = reader })

  abbrev pub on_writer : {A : Type 0} → Io W.Stream A → Io State A
  on_writer m s = let (a, writer) = m s.writer in (a, record s { writer = writer })

  -- By what the read gave; `write_all` and `flush` are those of the other side.
  unfoldable pub pass_on :
      (List ℕ → Io State (Unit {0})) → Io State (Unit {0}) → IoResult (List ℕ) → Exec State Turn
  unfolding transferred
  pass_on write_all flush (done []) = pure breaks
  pass_on write_all flush (done (x ∷ b)) = do
    await_io (write_all (x ∷ b))
    await_io flush
    perform (transferred (length (x ∷ b)))
    pure continues
  pass_on write_all flush (failed would_block) = pure continues
  pass_on write_all flush (failed unexpected_eof) = pure breaks
  pass_on write_all flush (failed (other code)) = pure breaks

  unfoldable pub turn : Ready → Exec State Turn
  unfolding pass_on
  turn reader_first = do
    result ← await_result (on_reader (R.read buffer_size))
    pass_on (λ b. on_writer (W.write_all b)) (on_writer W.flush) result
  turn writer_first = do
    result ← await_result (on_writer (W.read buffer_size))
    pass_on (λ b. on_reader (R.write_all b)) (on_reader R.flush) result

  -- The loop, while it is known which read comes first; none if it still runs then.
  unfoldable pub splice : List Ready → Exec State (Option ℕ)
  unfolding turn
  splice [] = pure none
  splice (ready ∷ later) = do
    ended ← turn ready
    elim ended [ breaks ↦ (λ s. (ok (some s.bytes_transferred), s)) | continues ↦ splice later ]

-- What a spawned copy ends with; none if its task panicked or was cancelled.
abbrev pub Handle : Type 0
Handle = Option (IoResult ℕ)

-- `try_join!` of the two copies, and the sum of their counts.
unfoldable pub joined : Handle × Handle → Result ℕ
joined (none, rx) = err (join join_error)
joined (some tx, none) = err (join join_error)
joined (some (failed e), some rx) = err (io e)
joined (some (done tx), some (failed e)) = err (io e)
joined (some (done tx), some (done rx)) = ok ((tx + rx) % 2 ^ 64)

-- The task that copies what a half reads to what a half writes, each through a buffer.
pub record Copy (R W : Type 0) : Type 0 where
  pub reader : R
  pub writer : W

-- tokio's runtime: `split`, and what becomes of two spawned tasks that copy.
pub record Runtime (State Stream : Type 0) : Type 1 where
  pub ReadHalf : Type 0
  pub WriteHalf : Type 0
  pub split : Stream → ReadHalf × WriteHalf
  pub spawn_both :
      Copy ReadHalf WriteHalf → Copy ReadHalf WriteHalf → State → (Handle × Handle) × State

unfoldable pub tcp_splice :
    {State Stream : Type 0} → Runtime State Stream → Stream → Stream → Exec State ℕ
unfolding joined
tcp_splice rt stream_a stream_b =
    let (a_read, a_write) = rt.split stream_a in
    let (b_read, b_write) = rt.split stream_b in
    let a_to_b : Copy rt.ReadHalf rt.WriteHalf = record { reader = a_read; writer = b_write } in
    let b_to_a : Copy rt.ReadHalf rt.WriteHalf = record { reader = b_read; writer = a_write } in
    (do handles ← perform (rt.spawn_both a_to_b b_to_a); lift (joined handles))
