-- ===== src/Proxy/Udp/Accounts/Datagrams.antt =====
-- The rounds in which a datagram comes first, and all rounds.
use rust.Prelude.{
  some, ℕ, ◌≤◌, ◌≡◌, refl, sym, ap, ◌∙◌, List, [], ◌∷◌, ◌++◌, arith, length, append-nil,
}
use rust.Error.{io}
use rust.Exec.{IoResult, done, failed, ◌>>=◌}
use rust.Io.{AsyncRead}
use rust.Io.Finite.{IsFinite}
use rust.Protocol.Address.{SocketAddr}
use rust.Proxy.Net.{Net, Select, client, elapsed, remote}
use rust.Proxy.Session.{Session, add_received, fetch_add}
use rust.Proxy.Udp.{on_datagram, round_of, event_of, on_event, remote_event, round, udp_buffer_size}
use rust.Proxy.Udp.Frame.{build_udp_frame-wire}
use rust.Proxy.Udp.Sending.{IsSending, Datagram}
use rust.Proxy.Udp.Answering.{IsAnswering, IsIdle, after, answer, answers, total}
use rust.Proxy.Udp.Accounts.{
  late, unreceived, unwritten, Rounded, goes, stops, breaks, client_round,
}

module _ (net : Net) (sending : IsSending net) (answering : IsAnswering net) (r : AsyncRead)
    (fin : IsFinite r) (udp_timeout : ℕ) (socket : net.Socket) where
  module _ (session : Session) (s : r.Stream) (w0 : net.World) (taken : ℕ) (w1 : net.World)
      (first : net.select udp_timeout w0 ≡ (remote taken, w1))
      (idle : IsIdle net sending answering w0 w1) where
    -- A datagram that came, on its way to the client.
    written_round :
        (payload : List ℕ) (source : SocketAddr) (w : net.World)
        → net.recv_from socket udp_buffer_size w1 ≡ (done (payload, source), w)
        → length payload ≤ 65535
        → sending.log w ≡ sending.log w0
        → answering.arrived w ≡ answering.arrived w0 ++ (payload, source) ∷ []
        → answering.written w ≡ answering.written w0
        → (result : IoResult (Unit {0}) × net.World)
        → net.write_client (answer (payload, source)) w ≡ result
        → Rounded net sending answering r fin udp_timeout socket session s w0
            (on_datagram net r session (payload, source) ((r.read_exact taken s).1, w))
    unfolding on_datagram add_received fetch_add answers total ◌>>=◌
    written_round payload source w got fits log arrived written (done u, w') q =
        rw (build_udp_frame-wire source payload fits, q)
          (goes _ (record {
            out = [];
            sent =
                after sending.log q (
                  sending.write_client_log (answer (payload, source)) w ∙ log ∙ sym (append-nil _));
            bytes_sent = omega arith;
            came = (payload, source) ∷ [];
            arrived =
                after answering.arrived q
                  (answering.write_arrived (answer (payload, source)) w ∙ arrived);
            written =
                answering.write_done (answer (payload, source)) w w' q
                ∙ rw (written, append-nil) refl;
            bytes_received = omega arith;
          }))
    written_round payload source w got fits log arrived written (failed x, w') q =
        let (part, rest, split, more) =
          answering.write_failed (answer (payload, source)) w w' x q in
        rw (build_udp_frame-wire source payload fits, q)
          (breaks (io x) (
            unwritten x taken (payload, source) w1 w w' part rest first got q
              (after sending.log q (sending.write_client_log (answer (payload, source)) w ∙ log))
              (after answering.arrived q
                (answering.write_arrived (answer (payload, source)) w ∙ arrived))
              (rw written at more) split))

    received :
        (result : IoResult Datagram × net.World)
        → net.recv_from socket udp_buffer_size w1 ≡ result
        → Rounded net sending answering r fin udp_timeout socket session s w0 (
            let (result, w') = net.recv_from socket udp_buffer_size w1 in
            on_event net r socket session
              (some (remote_event result))
              ((r.read_exact taken s).1, w'))
    unfolding on_event ◌>>=◌
    received (done (payload, source), w') q =
        let (log0, arrived0, written0) = idle in
        let (arrived, fits, written) =
          answering.recv_done socket udp_buffer_size w1 w' payload source q in
        rw q (
          written_round payload source w' q fits
            (after sending.log q (sending.recv_log socket udp_buffer_size w1 ∙ log0))
            (arrived ∙ ap (λ l. l ++ (payload, source) ∷ []) arrived0) (written ∙ written0) _ refl)
    received (failed x, w') q =
        let (log0, arrived0, written0) = idle in
        let (arrived, written) = answering.recv_failed socket udp_buffer_size w1 w' x q in
        rw q (
          breaks (io x) (
            unreceived x taken w1 w' first q (
              after sending.log q (sending.recv_log socket udp_buffer_size w1 ∙ log0),
              arrived ∙ arrived0,
              written ∙ written0,
            )))

  round_of-Rounded :
      (session : Session) (s : r.Stream) (w0 w : net.World) (first : Select)
      → net.select udp_timeout w0 ≡ (first, w)
      → IsIdle net sending answering w0 w
      → Rounded net sending answering r fin udp_timeout socket session s w0
          (round_of net r socket session first (s, w))
  unfolding round_of event_of on_event ◌>>=◌
  round_of-Rounded session s w0 w client e idle =
      client_round net sending answering r fin udp_timeout socket session s w0 w e idle _ refl
  round_of-Rounded session s w0 w elapsed e idle = stops idle (late w e)
  round_of-Rounded session s w0 w (remote taken) e idle =
      received session s w0 taken w e idle _ refl

  pub round-Rounded :
      (session : Session) (s : r.Stream) (w : net.World)
      → Rounded net sending answering r fin udp_timeout socket session s w
          (round net r socket udp_timeout session (s, w))
  unfolding round ◌>>=◌
  round-Rounded session s w =
      let (arrived, written) = answering.select_same udp_timeout w in
      round_of-Rounded session s w (net.select udp_timeout w).1 (net.select udp_timeout w).0 refl
        (sending.select_log udp_timeout w, arrived, written)
