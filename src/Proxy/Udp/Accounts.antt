-- ===== src/Proxy/Udp/Accounts.antt =====
-- What a round of the association's loop sends, receives and counts, whatever the client sends.
pub mod Datagrams
use rust.Prelude.{
  ℕ, ◌≤◌, ◌≡◌, refl, sym, ap, ◌∙◌, ◌⊎◌, inl, inr, Option, some, none, List, [], ◌∷◌, ◌++◌, arith,
  length, append-nil,
}
use rust.Error.{Result, TrojanError, IoError, ok, err, panic, io}
use rust.Exec.{await_io, IoResult, done, failed, ◌>>=◌}
use rust.Io.{AsyncRead}
use rust.Io.Finite.{IsFinite}
use rust.Protocol.Address.{Address, SocketAddr, ipv4, ipv6, domain}
use rust.Proxy.Net.{on_world, Net, Select, client, elapsed, remote}
use rust.Proxy.Session.{Session, add_sent, add_received, fetch_add}
use rust.Proxy.Udp.{
  UdpFrame, Round, go_on, stop, read_udp_frame, resolve_target, send_frame, sent, on_frame,
  on_datagram, round_of, event_of, on_event, round, udp_buffer_size,
}
use rust.Proxy.Udp.Frame.{build_udp_frame-wire}
use rust.Proxy.Udp.Panics.{read_udp_frame-ne-panic}
use rust.Proxy.Udp.Sending.{IsSending, Datagram, resolve_target-ne-panic, resolve_target-log}
use rust.Proxy.Udp.Answering.{
  IsAnswering, IsIdle, IsIdle-after, after, answer, answers, total, Accounts, Accounts-nothing,
  Accounts-trans,
}

module _ (net : Net) (sending : IsSending net) (answering : IsAnswering net) (r : AsyncRead)
    (fin : IsFinite r) (udp_timeout : ℕ) (socket : net.Socket) where
  abbrev pub Counts : Session → net.World → Session → net.World → Type 0
  Counts = Accounts net sending answering

  abbrev pub Idle : net.World → net.World → Type 0
  Idle = IsIdle net sending answering

  -- Why a round ends the association without an error: it waited for a frame and met the end of the
  -- client's stream, or the time was over.
  pub data IsOver (s : r.Stream) (w : net.World) : r.Stream × net.World → Type 0 where
    closed :
        (s1 : r.Stream) (w1 : net.World)
        → net.select udp_timeout w ≡ (client, w1)
        → read_udp_frame r s ≡ (ok none, s1)
        → IsOver s w (s1, w1)
    late : (w1 : net.World) → net.select udp_timeout w ≡ (elapsed, w1) → IsOver s w (s, w1)

  -- Why it ends it with an error, and what it did: a frame could not be read, no datagram received,
  -- or one that came was written to the client in part.
  pub data Broken (s : r.Stream) (w : net.World) : TrojanError → r.Stream × net.World → Type 0 where
    unread :
        (e : TrojanError) (s1 : r.Stream) (w1 : net.World)
        → net.select udp_timeout w ≡ (client, w1)
        → read_udp_frame r s ≡ (err e, s1)
        → Idle w w1
        → Broken s w e (s1, w1)
    unreceived :
        (x : IoError) (taken : ℕ) (w1 w2 : net.World)
        → net.select udp_timeout w ≡ (remote taken, w1)
        → net.recv_from socket udp_buffer_size w1 ≡ (failed x, w2)
        → Idle w w2
        → Broken s w (io x) ((r.read_exact taken s).1, w2)
    unwritten :
        (x : IoError) (taken : ℕ) (d : Datagram) (w1 w2 w3 : net.World) (part rest : List ℕ)
        → net.select udp_timeout w ≡ (remote taken, w1)
        → net.recv_from socket udp_buffer_size w1 ≡ (done d, w2)
        → net.write_client (answer d) w2 ≡ (failed x, w3)
        → sending.log w3 ≡ sending.log w
        → answering.arrived w3 ≡ answering.arrived w ++ d ∷ []
        → answering.written w3 ≡ answering.written w ++ part
        → answer d ≡ part ++ rest
        → Broken s w (io x) ((r.read_exact taken s).1, w3)

  -- How a round ends.
  pub data Rounded (session : Session) (s : r.Stream) (w : net.World)
      : Result Round × (r.Stream × net.World) → Type 0 where
    goes :
        (session' : Session) {t : r.Stream × net.World}
        → Counts session w session' t.1
        → Rounded session s w (ok (go_on session'), t)
    stops :
        {t : r.Stream × net.World}
        → Idle w t.1
        → IsOver s w t
        → Rounded session s w (ok (stop session), t)
    breaks :
        (e : TrojanError) {t : r.Stream × net.World}
        → Broken s w e t
        → Rounded session s w (err e, t)

  resolve_target-same :
      (a : Address) (w : net.World)
      → (answering.arrived (resolve_target net a w).1 ≡ answering.arrived w)
        × (answering.written (resolve_target net a w).1 ≡ answering.written w)
  unfolding resolve_target ◌>>=◌
  resolve_target-same (ipv4 addr) w = (refl, refl)
  resolve_target-same (ipv6 addr) w = (refl, refl)
  resolve_target-same (domain name port) w = answering.lookup_same name port w

  resolve_target-Idle : (a : Address) (w : net.World) → Idle w (resolve_target net a w).1
  resolve_target-Idle a w =
      let (arrived, written) = resolve_target-same a w in
      (resolve_target-log net sending a w, arrived, written)

  module _ (session : Session) (s0 : r.Stream) (w0 : net.World) where
    -- The client's frame.
    sent_round :
        (f : UdpFrame) (addr : SocketAddr) (s : r.Stream) (w : net.World)
        → Idle w0 w
        → (result : IoResult ℕ × net.World) → net.send_to socket f.payload addr w ≡ result
        → Rounded session s0 w0
            (let (res, w') = send_frame net socket session f.payload (ok addr) w in (res, (s, w')))
    unfolding send_frame sent add_sent fetch_add answers total ◌>>=◌
    sent_round f addr s w idle (done n, w') q =
        let (arrived, written) = answering.send_same socket f.payload addr w in
        rw q (
          goes _ (
            Accounts-trans net sending answering
              (Accounts-nothing net sending answering session w0 w idle)
              (record {
                out = (f.payload, addr) ∷ [];
                sent = sending.send_done socket f.payload addr w w' n q;
                bytes_sent = omega arith;
                came = [];
                arrived = after answering.arrived q (arrived ∙ sym (append-nil _));
                written = after answering.written q (written ∙ sym (append-nil _));
                bytes_received = omega arith;
              })))
    sent_round f addr s w idle (failed x, w') q =
        let (arrived, written) = answering.send_same socket f.payload addr w in
        rw q (
          goes _ (
            Accounts-nothing net sending answering session w0 w' (
              IsIdle-after net sending answering q
                (
                  ap sending.log (ap (λ p. p.1) q)
                      ∙ sending.send_failed socket f.payload addr w w' x q,
                  arrived,
                  written,
                )
                idle)))

    resolved :
        (f : UdpFrame) (s : r.Stream) (w : net.World)
        → Idle w0 w
        → (result : Result SocketAddr × net.World) → resolve_target net f.address w ≡ result
        → Rounded session s0 w0 (on_frame net r socket session (some f) (s, w))
    unfolding on_frame send_frame ◌>>=◌
    resolved f s w idle (result, w') q =
        go result q (IsIdle-after net sending answering q (resolve_target-Idle f.address w) idle)
      where
        go :
            (result : Result SocketAddr)
            → resolve_target net f.address w ≡ (result, w')
            → Idle w0 w'
            → Rounded session s0 w0 (on_frame net r socket session (some f) (s, w))
        go (ok addr) q idle' = rw q (sent_round f addr s w' idle' _ refl)
        go (err x) q idle' =
            rw q (goes session (Accounts-nothing net sending answering session w0 w' idle'))
        go panic q idle' = absurd (resolve_target-ne-panic net f.address w (ap (λ p. p.0) q))

    pub client_round :
        (w : net.World)
        → net.select udp_timeout w0 ≡ (client, w)
        → Idle w0 w
        → (read : Result (Option UdpFrame) × r.Stream) → read_udp_frame r s0 ≡ read
        → Rounded session s0 w0 (round_of net r socket session client (s0, w))
    unfolding round_of event_of on_event on_frame ◌>>=◌
    client_round w first idle (ok none, s') q = rw q (stops idle (closed s' w first q))
    client_round w first idle (ok (some f), s') q = rw q (resolved f s' w idle _ refl)
    client_round w first idle (err e, s') q = rw q (breaks e (unread e s' w first q idle))
    client_round w first idle (panic, s') q =
        absurd (read_udp_frame-ne-panic r fin s0 (ap (λ p. p.0) q))
