-- ===== src/Proxy/Udp/Ending.antt =====
-- When the loop of an association ends.
use rust.Prelude.{
  ℕ, ◌<◌, ◌≡◌, ◌≢◌, ◌⊎◌, inl, inr, refl, ap, Option, some, List, [], All, arith, length,
  length-append,
}
use rust.Error.{Result, ok}
use rust.Io.{AsyncRead}
use rust.Io.Finite.{IsFinite}
use rust.Proxy.Net.{Net, Select, client, elapsed, remote}
use rust.Proxy.Session.{Session}
use rust.Proxy.Udp.{UdpFrame, udp_loop}
use rust.Proxy.Udp.Frame.{IsFrame}
use rust.Proxy.Udp.Sending.{IsSending, Datagram, wires, taken_of}
use rust.Proxy.Udp.Rounds.{Came}
use rust.Proxy.Udp.Order.{Handles, Outcome, runs, ends, fails_with, udp_loop-Outcome}

module _ (net : Net) (sending : IsSending net) (r : AsyncRead) (fin : IsFinite r)
    (udp_timeout : ℕ) where
  -- The loop has ended with a session: all frames were taken, or the time was over.
  pub record Ends (fs : List UdpFrame) (before : List Datagram)
      (run : Result (Option Session) × (r.Stream × net.World)) : Type 0 where
    pub session : Session
    pub returned : run.0 ≡ ok (some session)
    pub handles : Handles net sending r fin udp_timeout fs before run.1
    pub cause :
        (handles.remaining ≡ []) ⊎ ((w : net.World) × ((net.select udp_timeout w).0 ≡ elapsed))

  module _ (socket : net.Socket)
      (silent : (w : net.World) (taken : ℕ) → (net.select udp_timeout w).0 ≢ remote taken) where
    not_remote : Came net sending r fin udp_timeout → ⊥
    not_remote (w, taken, e) = silent w taken e

    taken_zero : (w : net.World) → taken_of (net.select udp_timeout w).0 ≡ 0
    taken_zero w = go (net.select udp_timeout w).0 refl
      where
        go : (first : Select) → (net.select udp_timeout w).0 ≡ first → taken_of first ≡ 0
        go client e = refl
        go elapsed e = refl
        go (remote taken) e = absurd (silent w taken e)

    Outcome-Ends :
        (rounds : ℕ) (fs : List UdpFrame) (before : List Datagram)
        (run : Result (Option Session) × (r.Stream × net.World))
        → length fs < rounds
        → Outcome net sending r fin udp_timeout rounds fs before run
        → Ends fs before run
    Outcome-Ends rounds fs before _ enough (runs answered h n (inl none)) =
        absurd (omega (arith, n, none, ap length h.split, length-append h.handled h.remaining))
    Outcome-Ends rounds fs before _ enough (runs answered h n (inr came)) = absurd (not_remote came)
    Outcome-Ends rounds fs before _ enough (ends session h cause) = record {
      session = session;
      returned = refl;
      handles = h;
      cause = cause;
    }
    Outcome-Ends rounds fs before _ enough (fails_with e came h) = absurd (not_remote came)

    -- A client sends whole frames and then nothing, and no datagram comes: the loop ends without an
    -- error within one round more than there are frames, and then it has taken all of them, in order
    -- and once each, or the time was over.
    pub udp_loop-Ends :
        (rounds : ℕ) (fs : List UdpFrame) (before : List Datagram) (session : Session)
        (s : r.Stream) (w : net.World)
        → length fs < rounds
        → All IsFrame fs
        → fin.pending s ≡ wires fs
        → sending.log w ≡ before
        → Ends fs before (udp_loop net r rounds socket udp_timeout session (s, w))
    udp_loop-Ends rounds fs before session s w enough frames pending log =
        Outcome-Ends rounds fs before _ enough (
          udp_loop-Outcome net sending r fin udp_timeout socket taken_zero rounds fs before session
            s w frames pending log)
