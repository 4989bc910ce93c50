-- ===== src/Tests/Splice.antt =====
-- The theorems on splicing, at streams that are lists.
use rust.Prelude.{ℕ, ap, List, [], ◌∷◌, ◌++◌, take, drop}
use rust.Exec.{done}
use rust.Io.Memory.{memory}
use rust.Io.Finite.{memory_finite}
use rust.Protocol.Command.{connect}
use rust.Reality.Splice.{AsyncStream, Ready, reader_first, writer_first, splice, new}
use rust.Reality.Splice.Forwarded.{IsRecorded}
use rust.Reality.Splice.Loop.{Outcome, splice-Outcome}
use rust.Reality.StateMachine.{handle_authenticated_connection}
use rust.Reality.StateMachine.Direct as Direct
use rust.Reality.StateMachine.Direct.{IsCopying, handle_authenticated_connection-Outcome}
use rust.Tests.Network.{idle, net, net-IsDelivering}
use rust.Tests.Network.Runtime.{runtime, runtime-IsCopying}
use rust.Tests.Data.{example_com, request}

-- What was read, what is left to read, and what was written.
pub record Pipe : Type 0 where
  pub before : List ℕ
  pub left : List ℕ
  pub out : List ℕ

abbrev pipe : AsyncStream
pipe = record {
  Stream = Pipe;
  read = λ n s.
      (done (take n s.left), record s { before = s.before ++ take n s.left; left = drop n s.left });
  write_all = λ b s. (done tt, record s { out = s.out ++ b });
  flush = λ s. (done tt, s);
}

pipe-IsRecorded : IsRecorded pipe
pipe-IsRecorded = record {
  taken = λ s. s.before;
  written = λ s. s.out;
  read_done =
      λ n s s' b e. (cc (ap (λ p. p.0) e, ap (λ p. p.1.before) e), cc (ap (λ p. p.1.out) e));
  read_failed = λ n s s' x e. cc (ap (λ p. p.0) e);
  write_done = λ b s s' e. (cc (ap (λ p. p.1.before) e), cc (ap (λ p. p.1.out) e));
  flush_done = λ s s' e. (cc (ap (λ p. p.1.before) e), cc (ap (λ p. p.1.out) e));
}

abbrev client : Pipe
client = record { before = []; left = request; out = [] }

abbrev order : List Ready
order = reader_first ∷ writer_first ∷ []

splice-Outcome_example :
    Outcome pipe-IsRecorded pipe-IsRecorded 2
      (new client client)
      (splice pipe pipe order (new client client))
splice-Outcome_example = splice-Outcome pipe-IsRecorded pipe-IsRecorded order (new client client)

handle_authenticated_connection-Outcome_example :
    Direct.Outcome net net-IsDelivering memory memory_finite runtime runtime-IsCopying example_com
      10 request idle connect
      (handle_authenticated_connection net memory runtime connect example_com 10 (request, idle))
handle_authenticated_connection-Outcome_example =
    handle_authenticated_connection-Outcome net net-IsDelivering memory memory_finite runtime
      runtime-IsCopying example_com 10 request idle connect
