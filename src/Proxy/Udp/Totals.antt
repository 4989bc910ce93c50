-- ===== src/Proxy/Udp/Totals.antt =====
-- What an association has done once its loop ends, whatever the client sends.
use rust.Prelude.{ℕ, zero, suc, ◌≡◌, refl, Option, some, none}
use rust.Error.{Result, TrojanError, ok, err}
use rust.Exec.{◌>>=◌}
use rust.Io.{AsyncRead}
use rust.Io.Finite.{IsFinite}
use rust.Proxy.Net.{Net}
use rust.Proxy.Session.{Session}
use rust.Proxy.Udp.{Round, go_on, round, udp_loop}
use rust.Proxy.Udp.Sending.{IsSending}
use rust.Proxy.Udp.Answering.{IsAnswering, IsIdle, Accounts-nothing, Accounts-trans}
use rust.Proxy.Udp.Accounts.{Counts, IsOver, Broken, Rounded, goes, stops, breaks}
use rust.Proxy.Udp.Accounts.Datagrams.{round-Rounded}

module _ (net : Net) (sending : IsSending net) (answering : IsAnswering net) (r : AsyncRead)
    (fin : IsFinite r) (udp_timeout : ℕ) (socket : net.Socket) where
  abbrev Totals : Session → net.World → Session → net.World → Type 0
  Totals = Counts net sending answering r fin udp_timeout socket

  -- Rounds that go on lead from one session, stream and world to others.
  pub data Rounds : Session → r.Stream × net.World → Session → r.Stream × net.World → Type 0 where
    no_more : (session : Session) (t : r.Stream × net.World) → Rounds session t session t
    one_more :
        (session session1 session' : Session) (t t1 t' : r.Stream × net.World)
        → round net r socket udp_timeout session t ≡ (ok (go_on session1), t1)
        → Rounds session1 t1 session' t'
        → Rounds session t session' t'

  -- How the loop stands: it still runs; or it came by rounds that went on to one that ended it, in
  -- which it met the end of the stream or of the time, or in which a read, a receive or a write
  -- failed.
  pub data Counted (session : Session) (s : r.Stream) (w : net.World)
      : Result (Option Session) × (r.Stream × net.World) → Type 0 where
    runs :
        (session' : Session) {t : r.Stream × net.World}
        → Rounds session (s, w) session' t
        → Totals session w session' t.1
        → Counted session s w (ok none, t)
    ends :
        (session' : Session) (s1 : r.Stream) (w1 : net.World) {t : r.Stream × net.World}
        → Rounds session (s, w) session' (s1, w1)
        → Totals session w session' w1
        → IsIdle net sending answering w1 t.1
        → IsOver net sending answering r fin udp_timeout socket s1 w1 t
        → Counted session s w (ok (some session'), t)
    fails_with :
        (e : TrojanError) (session' : Session) (s1 : r.Stream) (w1 : net.World)
        {t : r.Stream × net.World}
        → Rounds session (s, w) session' (s1, w1)
        → Totals session w session' w1
        → Broken net sending answering r fin udp_timeout socket s1 w1 e t
        → Counted session s w (err e, t)

  -- A round that went on, and the rest of the loop.
  Counted-after :
      {session session1 : Session} {s s1 : r.Stream} {w w1 : net.World}
      {result : Result (Option Session) × (r.Stream × net.World)}
      → round net r socket udp_timeout session (s, w) ≡ (ok (go_on session1), (s1, w1))
      → Totals session w session1 w1
      → Counted session1 s1 w1 result
      → Counted session s w result
  Counted-after q a (runs last p c) =
      runs last (one_more _ _ _ _ _ _ q p) (Accounts-trans net sending answering a c)
  Counted-after q a (ends last s2 w2 p c idle over) =
      ends last s2 w2 (one_more _ _ _ _ _ _ q p) (Accounts-trans net sending answering a c) idle
        over
  Counted-after q a (fails_with e last s2 w2 p c broken) =
      fails_with e last s2 w2 (one_more _ _ _ _ _ _ q p) (Accounts-trans net sending answering a c)
        broken

  -- Nothing was sent, received or written before the first round.
  at_once : (session : Session) (w : net.World) → Totals session w session w
  at_once session w = Accounts-nothing net sending answering session w w (refl, refl, refl)

  step :
      (rounds : ℕ) (session : Session) (s : r.Stream) (w : net.World)
      → ((session' : Session) (s' : r.Stream) (w' : net.World)
          → Counted session' s' w' (udp_loop net r rounds socket udp_timeout session' (s', w')))
      → (result : Result Round × (r.Stream × net.World))
      → round net r socket udp_timeout session (s, w) ≡ result
      → Rounded net sending answering r fin udp_timeout socket session s w result
      → Counted session s w (udp_loop net r (suc rounds) socket udp_timeout session (s, w))
  unfolding udp_loop ◌>>=◌
  step rounds session s w ih _ q (goes session' {t} c) =
      rw q (Counted-after q c (ih session' t.0 t.1))
  step rounds session s w ih _ q (stops idle over) =
      rw q (ends session s w (no_more _ _) (at_once session w) idle over)
  step rounds session s w ih _ q (breaks e broken) =
      rw q (fails_with e session s w (no_more _ _) (at_once session w) broken)

  -- Whatever bytes the client sends, and whichever events come first: the loop never panics; the
  -- client is written exactly the frames of the datagrams that came, in order; and the session that
  -- the loop ends with counts, modulo 2^64, the payload bytes of the datagrams that were sent and of
  -- those that came. The loop ends only in a round with a cause: without an error where it waits for
  -- a frame and the client's stream has ended, or where the time is over; and with one where a frame
  -- cannot be read, a receive fails, or the write of the frame of one more datagram breaks off.
  pub udp_loop-Counted :
      (rounds : ℕ) (session : Session) (s : r.Stream) (w : net.World)
      → Counted session s w (udp_loop net r rounds socket udp_timeout session (s, w))
  unfolding udp_loop ◌>>=◌
  udp_loop-Counted zero session s w = runs session (no_more _ _) (at_once session w)
  udp_loop-Counted (suc rounds) session s w =
      step rounds session s w (udp_loop-Counted rounds) _ refl
        (round-Rounded net sending answering r fin udp_timeout socket session s w)
