-- ===== src/Proxy/Udp/Rounds/Remote.antt =====
-- The rounds in which a datagram or the end of the time comes first.
use rust.Prelude.{some, ℕ, ◌≡◌, refl, sym, ap, ◌∙◌, inr, List, arith}
use rust.Error.{Result, ok, err, panic}
use rust.Exec.{IoResult, done, failed, ◌>>=◌}
use rust.Io.{AsyncRead}
use rust.Io.Memory as Memory
use rust.Io.Finite.{IsFinite}
use rust.Protocol.Address.{SocketAddr}
use rust.Proxy.Net.{Net, Select, client, elapsed, remote}
use rust.Proxy.Session.{Session}
use rust.Proxy.Udp.{
  UdpFrame, build_udp_frame, on_datagram, round_of, event_of, on_event, remote_event, round,
  udp_buffer_size,
}
use rust.Proxy.Udp.Sending.{IsSending, Datagram, taken_of}
use rust.Proxy.Udp.Rounds.{Stands, Stands-log, Came, Rounded, answers, stops, fails}
use rust.Proxy.Udp.Rounds.Client.{client_round}

build_udp_frame-ne-panic :
    (source : SocketAddr) (payload : List ℕ) → build_udp_frame source payload ≡ panic → ⊥
unfolding build_udp_frame
build_udp_frame-ne-panic source payload e = ground arith

module _ (net : Net) (sending : IsSending net) (r : AsyncRead) (fin : IsFinite r)
    (udp_timeout : ℕ) where
  -- A read of no bytes.
  nothing_read : (s : r.Stream) → fin.pending (r.read_exact 0 s).1 ≡ fin.pending s
  unfolding Memory.read_exact
  nothing_read s = (fin.exact_lem 0).state s ∙ none_left (fin.pending s)
    where
      none_left : (l : List ℕ) → (Memory.read_exact 0 l).1 ≡ l
      none_left l = ground arith

  module _ (socket : net.Socket) (session : Session) (out : List Datagram) where
    -- The datagram's way to the client, from its end.
    written :
        (fs : List UdpFrame) (payload frame : List ℕ) (source : SocketAddr) (s : r.Stream)
        (w : net.World)
        → Came net sending r fin udp_timeout
        → Stands net sending r fin udp_timeout fs out (s, w)
        → build_udp_frame source payload ≡ ok frame
        → (result : IoResult (Unit {0}) × net.World) → net.write_client frame w ≡ result
        → Rounded net sending r fin udp_timeout fs out
            (on_datagram net r session (payload, source) (s, w))
    unfolding on_datagram ◌>>=◌
    written fs payload frame source s w came st b (done _, w') q =
        rw (b, q)
          (answers _ came (
            Stands-log net sending r fin udp_timeout w' st
              (λ l. sym (ap (λ p. sending.log p.1) q) ∙ sending.write_client_log frame w ∙ l)))
    written fs payload frame source s w came st b (failed x, w') q =
        rw (b, q)
          (fails _ came (
            Stands-log net sending r fin udp_timeout w' st
              (λ l. sym (ap (λ p. sending.log p.1) q) ∙ sending.write_client_log frame w ∙ l)))

    framed :
        (fs : List UdpFrame) (payload : List ℕ) (source : SocketAddr) (s : r.Stream) (w : net.World)
        → Came net sending r fin udp_timeout
        → Stands net sending r fin udp_timeout fs out (s, w)
        → (result : Result (List ℕ)) → build_udp_frame source payload ≡ result
        → Rounded net sending r fin udp_timeout fs out
            (on_datagram net r session (payload, source) (s, w))
    unfolding on_datagram ◌>>=◌
    framed fs payload source s w came st (ok frame) b =
        written fs payload frame source s w came st b _ refl
    framed fs payload source s w came st (err x) b = rw b (fails x came st)
    framed fs payload source s w came st panic b =
        absurd (build_udp_frame-ne-panic source payload b)

    received :
        (fs : List UdpFrame) (s : r.Stream) (w : net.World)
        → Came net sending r fin udp_timeout
        → Stands net sending r fin udp_timeout fs out (s, w)
        → (result : IoResult Datagram × net.World) → net.recv_from socket udp_buffer_size w ≡ result
        → Rounded net sending r fin udp_timeout fs out (
            let (result, w') = net.recv_from socket udp_buffer_size w in
            on_event net r socket session (some (remote_event result)) (s, w'))
    unfolding on_event ◌>>=◌
    received fs s w came st (done (payload, source), w') q = rw q (
        framed fs payload source s w' came
          (Stands-log net sending r fin udp_timeout w' st (λ l.
            sym (ap (λ p. sending.log p.1) q) ∙ sending.recv_log socket udp_buffer_size w ∙ l))
          _ refl)
    received fs s w came st (failed x, w') q = rw q (
        fails _ came (
          Stands-log net sending r fin udp_timeout w' st (λ l.
            sym (ap (λ p. sending.log p.1) q) ∙ sending.recv_log socket udp_buffer_size w ∙ l)))

    -- By the branch that came first; a read that is dropped had taken nothing.
    round_of-Rounded :
        (fs : List UdpFrame) (s : r.Stream) (w0 w : net.World) (first : Select)
        → Stands net sending r fin udp_timeout fs out (s, w)
        → (net.select udp_timeout w0).0 ≡ first
        → taken_of first ≡ 0
        → Rounded net sending r fin udp_timeout fs out (round_of net r socket session first (s, w))
    unfolding round_of event_of on_event ◌>>=◌
    round_of-Rounded fs s w0 w client st e t =
        client_round net sending r fin udp_timeout socket session out fs s w st
    round_of-Rounded fs s w0 w elapsed st e t = stops session st (inr (w0, e))
    round_of-Rounded fs s w0 w (remote taken) st e t = rw t (
        received fs (r.read_exact 0 s).1 w (w0, taken, e)
          (record { frames = st.frames; pending = nothing_read s ∙ st.pending; log = st.log }) _
          refl)

    pub round-Rounded :
        (fs : List UdpFrame) (s : r.Stream) (w : net.World)
        → Stands net sending r fin udp_timeout fs out (s, w)
        → taken_of (net.select udp_timeout w).0 ≡ 0
        → Rounded net sending r fin udp_timeout fs out
            (round net r socket udp_timeout session (s, w))
    unfolding round ◌>>=◌
    round-Rounded fs s w st quiet =
        round_of-Rounded fs s w (net.select udp_timeout w).1 (net.select udp_timeout w).0
          (Stands-log net sending r fin udp_timeout (net.select udp_timeout w).1 st
            (λ l. sending.select_log udp_timeout w ∙ l))
          refl quiet
