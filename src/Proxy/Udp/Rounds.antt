-- ===== src/Proxy/Udp/Rounds.antt =====
-- How a round of the association's loop can end, for a client whose stream holds whole frames.
pub mod Client
pub mod Remote
use rust.Prelude.{
  ℕ, ◌≡◌, ◌≢◌, refl, sym, ap, ◌∙◌, ◌⊎◌, inl, inr, Option, some, none, List, [], ◌∷◌, ◌++◌, All,
  arith,
}
use rust.Error.{Result, TrojanError, ok, err, panic}
use rust.Exec.{await_io, IoResult, done, failed, ◌>>=◌}
use rust.Io.{AsyncRead}
use rust.Io.Memory as Memory
use rust.Io.Finite.{IsFinite}
use rust.Protocol.Address.{Address, SocketAddr}
use rust.Proxy.Net.{on_world, Net, Select, client, elapsed, remote}
use rust.Proxy.Session.{Session}
use rust.Proxy.Udp.{
  UdpFrame, Round, go_on, stop, read_udp_frame, resolve_target, build_udp_frame, sent, send_frame,
  on_frame, on_datagram, round_of, round, udp_buffer_size,
}
use rust.Proxy.Udp.Frame.{wire, IsFrame, read_udp_frame-wire, read_udp_frame-nil}
use rust.Proxy.Udp.Finite.{read_udp_frame-Simulates}
use rust.Proxy.Udp.Sending.{
  IsDropped, IsSending, Datagram, wires, taken_of, IsTarget, resolve_target-ne-panic,
  resolve_target-log,
}

module _ (net : Net) (sending : IsSending net) (r : AsyncRead) (fin : IsFinite r)
    (udp_timeout : ℕ) where
  -- The client's stream holds these frames, and these datagrams were sent.
  pub record Stands (fs : List UdpFrame) (out : List Datagram) (t : r.Stream × net.World)
      : Type 0 where
    pub frames : All IsFrame fs
    pub pending : fin.pending t.0 ≡ wires fs
    pub log : sending.log t.1 ≡ out

  -- The log may be read off a later world.
  pub Stands-log :
      {fs : List UdpFrame} {out out' : List Datagram} {s : r.Stream} {w : net.World}
      (w' : net.World)
      → Stands fs out (s, w)
      → (sending.log w ≡ out → sending.log w' ≡ out')
      → Stands fs out' (s, w')
  Stands-log w' st later = record { frames = st.frames; pending = st.pending; log = later st.log }

  -- A datagram came.
  abbrev pub Came : Type 0
  Came = (u : net.World) × (taken : ℕ) × ((net.select udp_timeout u).0 ≡ remote taken)

  -- How a round ends: a frame was taken, and its datagram sent or dropped; a datagram went to the
  -- client; there are no more frames, or the time is over; or a datagram came and an error with it.
  pub data Rounded (fs : List UdpFrame) (out : List Datagram)
      : Result Round × (r.Stream × net.World) → Type 0 where
    passes :
        (session : Session) (f : UdpFrame) (rest : List UdpFrame) (addr : SocketAddr)
        {t : r.Stream × net.World}
        → fs ≡ f ∷ rest
        → IsTarget net f.address addr
        → Stands rest (out ++ (f.payload, addr) ∷ []) t
        → Rounded fs out (ok (go_on session), t)
    drops :
        (session : Session) (f : UdpFrame) (rest : List UdpFrame) {t : r.Stream × net.World}
        → fs ≡ f ∷ rest
        → IsDropped net f
        → Stands rest out t
        → Rounded fs out (ok (go_on session), t)
    answers :
        (session : Session) {t : r.Stream × net.World}
        → Came
        → Stands fs out t
        → Rounded fs out (ok (go_on session), t)
    stops :
        (session : Session) {t : r.Stream × net.World}
        → Stands fs out t
        → (fs ≡ []) ⊎ ((u : net.World) × ((net.select udp_timeout u).0 ≡ elapsed))
        → Rounded fs out (ok (stop session), t)
    fails :
        (e : TrojanError) {t : r.Stream × net.World}
        → Came
        → Stands fs out t
        → Rounded fs out (err e, t)
