-- ===== src/Proxy/Udp/Association.antt =====
-- `handle_udp` from its socket on, for a client whose stream holds whole frames.
use rust.Prelude.{ℕ, ◌≡◌, refl, sym, ap, ◌∙◌, Option, List, All}
use rust.Error.{Result, err, io, config, udp_bind_failed, IoError}
use rust.Bytes.{Str}
use rust.Exec.{IoResult, done, failed, ◌>>=◌}
use rust.Io.{AsyncRead}
use rust.Io.Finite.{IsFinite}
use rust.Protocol.Address.{SocketAddr}
use rust.Proxy.Net.{Net}
use rust.Proxy.Session.{Session}
use rust.Proxy.Udp.{UdpFrame, handle_udp}
use rust.Proxy.Udp.Frame.{IsFrame}
use rust.Proxy.Udp.Sending.{IsSending, Datagram, wires, taken_of}
use rust.Proxy.Udp.Order.{Outcome, udp_loop-Outcome}

module _ (net : Net) (sending : IsSending net) (r : AsyncRead) (fin : IsFinite r) (udp_timeout : ℕ)
    (udp_bind_addr : Str) where
  -- How an association ends: it gets no socket, or its socket has no address, and nothing was sent;
  -- or it ends as its loop does.
  pub data Associated (rounds : ℕ) (fs : List UdpFrame) (before : List Datagram)
      : Result (Option Session) × (r.Stream × net.World) → Type 0 where
    unbound :
        (e : IoError) (s : r.Stream) (w w' : net.World)
        → net.udp_bind udp_bind_addr w ≡ (failed e, w')
        → sending.log w' ≡ before
        → Associated rounds fs before (err (config (udp_bind_failed udp_bind_addr e)), (s, w'))
    nameless :
        (socket : net.Socket) (e : IoError) (s : r.Stream) (w w' : net.World)
        → net.local_addr socket w ≡ (failed e, w')
        → sending.log w' ≡ before
        → Associated rounds fs before (err (io e), (s, w'))
    looped :
        {result : Result (Option Session) × (r.Stream × net.World)}
        → Outcome net sending r fin udp_timeout rounds fs before result
        → Associated rounds fs before result

  module _ (quiet : (w : net.World) → taken_of (net.select udp_timeout w).0 ≡ 0) (rounds : ℕ)
      (fs : List UdpFrame) (frames : All IsFrame fs) (session : Session) (s : r.Stream)
      (pending : fin.pending s ≡ wires fs) where
    addressed :
        (before : List Datagram) (socket : net.Socket) (w w0 : net.World)
        → sending.log w ≡ before
        → net.udp_bind udp_bind_addr w0 ≡ (done socket, w)
        → (result : IoResult SocketAddr × net.World) → net.local_addr socket w ≡ result
        → Associated rounds fs before
            (handle_udp net r rounds session udp_timeout udp_bind_addr (s, w0))
    unfolding handle_udp ◌>>=◌
    addressed before socket w w0 log bound (failed e, w') q =
        rw (bound, q)
          (nameless socket e s w w' q
            (sym (ap (λ p. sending.log p.1) q) ∙ sending.addr_log socket w ∙ log))
    addressed before socket w w0 log bound (done addr, w') q =
        rw (bound, q)
          (looped (
            udp_loop-Outcome net sending r fin udp_timeout socket quiet rounds fs before session s
              w' frames pending
              (sym (ap (λ p. sending.log p.1) q) ∙ sending.addr_log socket w ∙ log)))

    -- A client sends whole frames, and no datagram comes while a frame is partly read. Then the
    -- association gets no socket, or its socket has no address, and no datagram was sent; or its
    -- loop has taken and sent what it is to take and send.
    pub handle_udp-Associated :
        (before : List Datagram) (w : net.World)
        → sending.log w ≡ before
        → (result : IoResult net.Socket × net.World) → net.udp_bind udp_bind_addr w ≡ result
        → Associated rounds fs before
            (handle_udp net r rounds session udp_timeout udp_bind_addr (s, w))
    unfolding handle_udp ◌>>=◌
    handle_udp-Associated before w log (failed e, w') q = rw q (
        unbound e s w w' q
          (sym (ap (λ p. sending.log p.1) q) ∙ sending.bind_log udp_bind_addr w ∙ log))
    handle_udp-Associated before w log (done socket, w') q =
        addressed before socket w' w
          (sym (ap (λ p. sending.log p.1) q) ∙ sending.bind_log udp_bind_addr w ∙ log) q _ refl
