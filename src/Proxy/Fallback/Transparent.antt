-- ===== src/Proxy/Fallback/Transparent.antt =====
-- The fallback is transparent: the backend gets the peeked bytes and then all others, and the client
-- what the backend sends.
use rust.Prelude.{ℕ, ◌≡◌, refl, ◌∙◌, List, [], ◌∷◌, ◌++◌}
use rust.Error.{Result, IoError, ok, err, io, remote_connect_failed, fallback_failed}
use rust.Bytes.{Str}
use rust.Exec.{IoResult, done, failed, pure, await_io, ◌>>=◌, ◌>>◌, Exec}
use rust.Io.{AsyncRead}
use rust.Io.Finite.{IsFinite}
use rust.Proxy.Net.{Net}
use rust.Proxy.Net.Delivery.{IsDelivering}
use rust.Proxy.Failure.{NetFailure, write_failed, copy_failed}
use rust.Proxy.Fallback.{handle_fallback, replay}

module _ (net : Net) (del : IsDelivering net) (r : AsyncRead) (fin : IsFinite r) (all : List ℕ)
    (addr : Str) (w : net.World) where
  -- How the fallback ends for a client whose bytes are `all`: the backend cannot be reached, the
  -- connection breaks, or the backend got all bytes and the client all that the backend sent.
  pub data Outcome : Result (Unit {0}) × (r.Stream × net.World) → Type 0 where
    unreachable :
        (e : IoError) (s' : r.Stream) (w' : net.World)
        → net.connect_host addr w ≡ (failed e, w')
        → Outcome (err (remote_connect_failed (fallback_failed addr e)), (s', w'))
    broken :
        (e : IoError) (s' : r.Stream) (w' : net.World)
        → NetFailure net r
        → Outcome (err (io e), (s', w'))
    relayed :
        (remote : net.Remote) (s' : r.Stream) (w1 w' : net.World)
        → net.connect_host addr w ≡ (done remote, w1)
        → del.delivered remote w' ≡ all
        → del.answered w' ≡ del.answered w ++ del.returned remote w'
        → Outcome (ok tt, (s', w'))

  copied :
      (remote : net.Remote) (w1 : net.World)
      → net.connect_host addr w ≡ (done remote, w1)
      → (s : r.Stream) (w2 : net.World) → del.delivered remote w2 ++ fin.pending s ≡ all
      → del.returned remote w2 ≡ []
      → del.answered w2 ≡ del.answered w
      → (result : IoResult (ℕ × ℕ) × (r.Stream × net.World))
      → net.copy_bidirectional r remote (s, w2) ≡ result
      → Outcome ((await_io (net.copy_bidirectional r remote) >>= λ counts. pure tt) (s, w2))
  unfolding ◌>>=◌
  copied remote w1 c s w2 e silent same (done counts, (s', w')) q =
      let (given, _, down, returned, answered, _) = del.copy_lem r fin remote s s' w2 w' counts q in
      rw q (relayed remote s' w1 w' c (given ∙ e) (answered ∙ rw (same, returned, silent) refl))
  copied remote w1 c s w2 e silent same (failed x, (s', w')) q =
      rw q (broken x s' w' (copy_failed remote x (s, w2) (s', w') q))

  -- The replay and the copy behind it.
  abbrev rest_of : net.Remote → List ℕ → Exec (r.Stream × net.World) (Unit {0})
  rest_of remote peeked =
      replay net remote peeked >> (await_io (net.copy_bidirectional r remote) >>= λ counts. pure tt)

  written :
      (remote : net.Remote) (w1 : net.World)
      → net.connect_host addr w ≡ (done remote, w1)
      → (s : r.Stream) (x : ℕ) (l : List ℕ) → x ∷ l ++ fin.pending s ≡ all
      → (result : IoResult (Unit {0}) × net.World) → net.write_all remote (x ∷ l) w1 ≡ result
      → Outcome (rest_of remote (x ∷ l) (s, w1))
  unfolding ◌>>=◌ replay
  written remote w1 c s x l e (done tt, w2) q =
      let (fresh, silent, same) = del.connect_host_lem addr w w1 remote c in
      let (given, still, kept) = del.write_all_lem remote (x ∷ l) w1 w2 q in
      rw q (copied remote w1 c s w2 (rw (given, fresh) e) (still ∙ silent) (kept ∙ same) _ refl)
  written remote w1 c s x l e (failed y, w2) q =
      rw q (broken y s w2 (write_failed remote (x ∷ l) y w1 w2 q))

  replayed :
      (remote : net.Remote) (w1 : net.World)
      → net.connect_host addr w ≡ (done remote, w1)
      → (s : r.Stream) (peeked : List ℕ) → peeked ++ fin.pending s ≡ all
      → Outcome (rest_of remote peeked (s, w1))
  unfolding ◌>>=◌ replay
  replayed remote w1 c s [] e =
      let (fresh, silent, same) = del.connect_host_lem addr w w1 remote c in
      copied remote w1 c s w1 (rw fresh e) silent same _ refl
  replayed remote w1 c s (x ∷ l) e = written remote w1 c s x l e _ refl

  connected :
      (s : r.Stream) (peeked : List ℕ)
      → peeked ++ fin.pending s ≡ all
      → (result : IoResult net.Remote × net.World) → net.connect_host addr w ≡ result
      → Outcome (handle_fallback net r peeked addr (s, w))
  unfolding ◌>>=◌ handle_fallback
  connected s peeked e (done remote, w1) c = rw c (replayed remote w1 c s peeked e)
  connected s peeked e (failed x, w1) c = rw c (unreachable x s w1 c)

  -- For a client whose peeked and later bytes are `all`, over a network that keeps tokio's promises,
  -- the fallback ends in one of these three ways. It succeeds only if the backend at the configured
  -- address got the peeked bytes and then all that the client still sent, and the client was written
  -- all that the backend sent.
  pub handle_fallback-Outcome :
      (s : r.Stream) (peeked : List ℕ)
      → peeked ++ fin.pending s ≡ all
      → Outcome (handle_fallback net r peeked addr (s, w))
  handle_fallback-Outcome s peeked e = connected s peeked e _ refl
