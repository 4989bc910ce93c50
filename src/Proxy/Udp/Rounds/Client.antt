-- ===== src/Proxy/Udp/Rounds/Client.antt =====
-- The rounds in which the client's frame comes first.
use rust.Prelude.{ℕ, ◌≡◌, refl, sym, ap, ◌∙◌, inl, inr, some, none, List, [], ◌∷◌, ◌++◌}
use rust.Error.{Result, ok, err, panic}
use rust.Exec.{IoResult, done, failed, ◌>>=◌}
use rust.Io.{AsyncRead}
use rust.Io.Memory as Memory
use rust.Io.Finite.{IsFinite}
use rust.Protocol.Address.{SocketAddr}
use rust.Proxy.Net.{Net, client}
use rust.Proxy.Session.{Session}
use rust.Proxy.Udp.{
  UdpFrame, read_udp_frame, resolve_target, sent, send_frame, on_frame, round_of, event_of,
  on_event,
}
use rust.Proxy.Udp.Frame.{IsFrame, read_udp_frame-wire, read_udp_frame-nil}
use rust.Proxy.Udp.Finite.{read_udp_frame-Simulates}
use rust.Proxy.Udp.Sending.{
  IsSending, Datagram, wires, IsTarget, resolve_target-ne-panic, resolve_target-log,
}
use rust.Proxy.Udp.Rounds.{Stands, Stands-log, Rounded, passes, drops, stops}

module _ (net : Net) (sending : IsSending net) (r : AsyncRead) (fin : IsFinite r)
    (udp_timeout : ℕ) where
  module _ (socket : net.Socket) (session : Session) (fs : List UdpFrame)
      (out : List Datagram) where
    -- The client's side, behind its frame.
    sent_round :
        (f : UdpFrame) (rest : List UdpFrame) (addr : SocketAddr) (s : r.Stream) (w : net.World)
        → fs ≡ f ∷ rest
        → IsTarget net f.address addr
        → Stands net sending r fin udp_timeout rest out (s, w)
        → (result : IoResult ℕ × net.World) → net.send_to socket f.payload addr w ≡ result
        → Rounded net sending r fin udp_timeout fs out
            (let (res, w') = send_frame net socket session f.payload (ok addr) w in (res, (s, w')))
    unfolding send_frame sent ◌>>=◌
    sent_round f rest addr s w e target st (done n, w') q = rw q (
        passes _ f rest addr e target (
          Stands-log net sending r fin udp_timeout w' st (λ l.
            sending.send_done socket f.payload addr w w' n q
            ∙ ap (λ out. out ++ (f.payload, addr) ∷ []) l)))
    sent_round f rest addr s w e target st (failed x, w') q = rw q (
        drops _ f rest e (inr (socket, addr, w, w', x, q)) (
          Stands-log net sending r fin udp_timeout w' st
            (λ l. sending.send_failed socket f.payload addr w w' x q ∙ l)))

    -- Resolving a name sends nothing.
    still :
        (f : UdpFrame) (w w' : net.World) {result : Result SocketAddr}
        → resolve_target net f.address w ≡ (result, w')
        → sending.log w' ≡ sending.log w
    still f w w' q = sym (ap (λ p. sending.log p.1) q) ∙ resolve_target-log net sending f.address w

    resolved :
        (f : UdpFrame) (rest : List UdpFrame) (s : r.Stream) (w : net.World)
        → fs ≡ f ∷ rest
        → Stands net sending r fin udp_timeout rest out (s, w)
        → (result : Result SocketAddr × net.World) → resolve_target net f.address w ≡ result
        → Rounded net sending r fin udp_timeout fs out
            (on_frame net r socket session (some f) (s, w))
    unfolding on_frame send_frame ◌>>=◌
    resolved f rest s w e st (ok addr, w') q = rw q (
        sent_round f rest addr s w' e (w, w', q)
          (Stands-log net sending r fin udp_timeout w' st (λ l. still f w w' q ∙ l)) _ refl)
    resolved f rest s w e st (err x, w') q = rw q (
        drops _ f rest e (inl (w, w', x, q))
          (Stands-log net sending r fin udp_timeout w' st (λ l. still f w w' q ∙ l)))
    resolved f rest s w e st (panic, w') q =
        absurd (resolve_target-ne-panic net f.address w (ap (λ p. p.0) q))

  -- What is read off the client's stream.
  frame_read :
      (f : UdpFrame) (rest : List UdpFrame) (s : r.Stream)
      → IsFrame f
      → fin.pending s ≡ wires (f ∷ rest)
      → ((read_udp_frame r s).0 ≡ ok (some f)) × (fin.pending (read_udp_frame r s).1 ≡ wires rest)
  unfolding wires
  frame_read f rest s h e =
      let sim = read_udp_frame-Simulates r fin in
      let found = ap (read_udp_frame Memory.memory) e ∙ read_udp_frame-wire f (wires rest) h in
      (sim.result s ∙ ap (λ p. p.0) found, sim.state s ∙ ap (λ p. p.1) found)

  end_read :
      (s : r.Stream)
      → fin.pending s ≡ []
      → ((read_udp_frame r s).0 ≡ ok none) × (fin.pending (read_udp_frame r s).1 ≡ [])
  end_read s e =
      let sim = read_udp_frame-Simulates r fin in
      let found = ap (read_udp_frame Memory.memory) e ∙ read_udp_frame-nil in
      (sim.result s ∙ ap (λ p. p.0) found, sim.state s ∙ ap (λ p. p.1) found)

  module _ (socket : net.Socket) (session : Session) (out : List Datagram) where
    pub client_round :
        (fs : List UdpFrame) (s : r.Stream) (w : net.World)
        → Stands net sending r fin udp_timeout fs out (s, w)
        → Rounded net sending r fin udp_timeout fs out (round_of net r socket session client (s, w))
    unfolding round_of event_of on_event on_frame wires ◌>>=◌
    client_round [] s w st =
        let (found, left) = end_read s st.pending in
        rw found
          (stops session (record { frames = st.frames; pending = left; log = st.log }) (inl refl))
    client_round (f ∷ rest) s w st =
        let (found, left) = frame_read f rest s st.frames.0 st.pending in
        rw found (
          resolved socket session (f ∷ rest) out f rest (read_udp_frame r s).1 w refl
            (record { frames = st.frames.1; pending = left; log = st.log }) _ refl)
