-- ===== src/Proxy/Udp/Order.antt =====
-- What the association sends, over its whole life.
use rust.Prelude.{
  inl, inr, subst, ℕ, zero, suc, ◌+◌, ◌≡◌, refl, sym, ap, ◌∙◌, ◌⊎◌, Option, some, none, List, [],
  ◌∷◌, ◌++◌, All, arith, length, append_assoc, append-nil,
}
use rust.Error.{Result, TrojanError, ok, err}
use rust.Exec.{◌>>=◌}
use rust.Io.{AsyncRead}
use rust.Io.Finite.{IsFinite}
use rust.Protocol.Address.{SocketAddr}
use rust.Proxy.Net.{Net, elapsed}
use rust.Proxy.Session.{Session}
use rust.Proxy.Udp.{UdpFrame, Round, round, udp_loop}
use rust.Proxy.Udp.Frame.{IsFrame}
use rust.Proxy.Udp.Sending.{
  IsDropped, IsTarget, IsSending, Datagram, wires, taken_of, Sent, nothing, passed, lost,
}
use rust.Proxy.Udp.Rounds.{Stands, Came, Rounded, passes, drops, answers, stops, fails}
use rust.Proxy.Udp.Rounds.Remote.{round-Rounded}

module _ (net : Net) (sending : IsSending net) (r : AsyncRead) (fin : IsFinite r)
    (udp_timeout : ℕ) where
  -- Some of the frames were taken off the stream, in their order, and these datagrams sent for them
  -- behind the ones before.
  pub record Handles (fs : List UdpFrame) (before : List Datagram) (t : r.Stream × net.World)
      : Type 0 where
    pub handled : List UdpFrame
    pub remaining : List UdpFrame
    pub split : fs ≡ handled ++ remaining
    pub out : List Datagram
    pub sent : Sent net handled out
    pub stands : Stands net sending r fin udp_timeout remaining (before ++ out) t

  -- The loop still runs, and each of its rounds took a frame or went to a datagram that came; or it
  -- has ended since there are no more frames or the time is over; or with an error, when a datagram
  -- came.
  pub data Outcome (rounds : ℕ) (fs : List UdpFrame) (before : List Datagram)
      : Result (Option Session) × (r.Stream × net.World) → Type 0 where
    runs :
        (answered : ℕ) {t : r.Stream × net.World} (h : Handles fs before t)
        → rounds ≡ length h.handled + answered
        → (answered ≡ 0) ⊎ Came net sending r fin udp_timeout
        → Outcome rounds fs before (ok none, t)
    ends :
        (session : Session) {t : r.Stream × net.World} (h : Handles fs before t)
        → (h.remaining ≡ []) ⊎ ((u : net.World) × ((net.select udp_timeout u).0 ≡ elapsed))
        → Outcome rounds fs before (ok (some session), t)
    fails_with :
        (e : TrojanError) {t : r.Stream × net.World}
        → Came net sending r fin udp_timeout
        → Handles fs before t
        → Outcome rounds fs before (err e, t)

  nothing_handled :
      {fs : List UdpFrame} {before : List Datagram} {t : r.Stream × net.World}
      → Stands net sending r fin udp_timeout fs before t
      → Handles fs before t
  nothing_handled {fs} {before} {t} st = record {
    handled = [];
    remaining = fs;
    split = refl;
    out = [];
    sent = nothing;
    stands = record {
      frames = st.frames;
      pending = st.pending;
      log = st.log ∙ sym (append-nil before);
    };
  }

  -- A frame before the others.
  passed_first :
      {fs rest : List UdpFrame} {before : List Datagram} {t : r.Stream × net.World} (f : UdpFrame)
      (addr : SocketAddr)
      → fs ≡ f ∷ rest
      → IsTarget net f.address addr
      → (h : Handles rest (before ++ (f.payload, addr) ∷ []) t)
      → (g : Handles fs before t) × (length g.handled ≡ suc (length h.handled))
        × (g.remaining ≡ h.remaining)
  passed_first {before = before} {t} f addr e target h = (
    record {
      handled = f ∷ h.handled;
      remaining = h.remaining;
      split = e ∙ ap (λ l. f ∷ l) h.split;
      out = (f.payload, addr) ∷ h.out;
      sent = passed addr target h.sent;
      stands =
          subst (λ l. Stands net sending r fin udp_timeout h.remaining l t)
            (append_assoc before ((f.payload, addr) ∷ []) h.out) h.stands;
    },
    refl,
    refl,
  )

  dropped_first :
      {fs rest : List UdpFrame} {before : List Datagram} {t : r.Stream × net.World} (f : UdpFrame)
      → fs ≡ f ∷ rest
      → IsDropped net f
      → (h : Handles rest before t)
      → (g : Handles fs before t) × (length g.handled ≡ suc (length h.handled))
        × (g.remaining ≡ h.remaining)
  dropped_first f e cause h = (
    record {
      handled = f ∷ h.handled;
      remaining = h.remaining;
      split = e ∙ ap (λ l. f ∷ l) h.split;
      out = h.out;
      sent = lost cause h.sent;
      stands = h.stands;
    },
    refl,
    refl,
  )

  -- A round that took a frame, and the rest of the loop.
  after_frame :
      (rounds : ℕ) (fs rest : List UdpFrame) (before later : List Datagram)
      → ((t : r.Stream × net.World) (h : Handles rest later t)
          → (g : Handles fs before t) × (length g.handled ≡ suc (length h.handled))
            × (g.remaining ≡ h.remaining))
      → (result : Result (Option Session) × (r.Stream × net.World))
      → Outcome rounds rest later result
      → Outcome (suc rounds) fs before result
  after_frame rounds fs rest before later more _ (runs answered h n came) =
      let (g, count, same) = more _ h in runs answered g (omega (arith, n, count)) came
  after_frame rounds fs rest before later more _ (ends session h cause) =
      let (g, count, same) = more _ h in
      ends session g (
        subst (λ l. (l ≡ []) ⊎ ((u : net.World) × ((net.select udp_timeout u).0 ≡ elapsed)))
          (sym same) cause)
  after_frame rounds fs rest before later more _ (fails_with e came h) =
      fails_with e came (more _ h).0

  after_answer :
      (rounds : ℕ) (fs : List UdpFrame) (before : List Datagram)
      (result : Result (Option Session) × (r.Stream × net.World))
      → Came net sending r fin udp_timeout
      → Outcome rounds fs before result
      → Outcome (suc rounds) fs before result
  after_answer rounds fs before _ came (runs answered h n earlier) =
      runs (suc answered) h (omega (arith, n)) (inr came)
  after_answer rounds fs before _ came (ends session h cause) = ends session h cause
  after_answer rounds fs before _ came (fails_with e failed h) = fails_with e failed h

  module _ (socket : net.Socket)
      (quiet : (w : net.World) → taken_of (net.select udp_timeout w).0 ≡ 0) where
    abbrev AreHandled : ℕ → Type 0
    AreHandled rounds =
        (fs : List UdpFrame) (before : List Datagram) (session : Session) (t : r.Stream × net.World)
        → Stands net sending r fin udp_timeout fs before t
        → Outcome rounds fs before (udp_loop net r rounds socket udp_timeout session t)

    step :
        (rounds : ℕ)
        → AreHandled rounds
        → (fs : List UdpFrame) (before : List Datagram) (session : Session)
          (t : r.Stream × net.World)
        → (ended : Result Round × (r.Stream × net.World))
        → round net r socket udp_timeout session t ≡ ended
        → Rounded net sending r fin udp_timeout fs before ended
        → Outcome (suc rounds) fs before (udp_loop net r (suc rounds) socket udp_timeout session t)
    unfolding udp_loop ◌>>=◌ nothing_handled
    step rounds ih fs before session t _ q (passes session' f rest addr {t = u} e target st) =
        rw q (
          after_frame rounds fs rest before _ (λ t h. passed_first f addr e target h) _
            (ih rest (before ++ (f.payload, addr) ∷ []) session' u st))
    step rounds ih fs before session t _ q (drops session' f rest {t = u} e cause st) = rw q (
        after_frame rounds fs rest before _ (λ t h. dropped_first f e cause h) _
          (ih rest before session' u st))
    step rounds ih fs before session t _ q (answers session' {t = u} came st) =
        rw q (after_answer rounds fs before _ came (ih fs before session' u st))
    step rounds ih fs before session t _ q (stops session' st cause) =
        rw q (ends session' (nothing_handled st) cause)
    step rounds ih fs before session t _ q (fails e came st) =
        rw q (fails_with e came (nothing_handled st))

    -- A client sends whole frames, and no datagram comes while a frame is partly read. Then at every
    -- time the datagrams that the association has sent are, in order and once each, those of the
    -- frames that it has taken, but for the ones whose target was not resolved or whose send failed;
    -- each round takes a frame or comes to a datagram; and the loop ends only when there are no more
    -- frames, the time is over, or a datagram brings an error.
    pub udp_loop-Outcome :
        (rounds : ℕ) (fs : List UdpFrame) (before : List Datagram) (session : Session)
        (s : r.Stream) (w : net.World)
        → All IsFrame fs
        → fin.pending s ≡ wires fs
        → sending.log w ≡ before
        → Outcome rounds fs before (udp_loop net r rounds socket udp_timeout session (s, w))
    unfolding udp_loop ◌>>=◌ nothing_handled
    udp_loop-Outcome rounds fs before session s w frames pending log =
        go rounds fs before session (s, w)
          (record { frames = frames; pending = pending; log = log })
      where
        go : (rounds : ℕ) → AreHandled rounds
        go zero fs before session t st = runs 0 (nothing_handled st) refl (inl refl)
        go (suc rounds) fs before session (s, w) st =
            step rounds (go rounds) fs before session (s, w) _ refl
              (round-Rounded net sending r fin udp_timeout socket session before fs s w st
                (quiet w))
