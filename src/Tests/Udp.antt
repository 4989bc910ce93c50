-- ===== src/Tests/Udp.antt =====
-- The theorems on the UDP association, at a client with two frames.
use rust.Prelude.{refl, ap, none, List, [], ◌∷◌, ◌++◌, All, arith, length}
use rust.Error.{would_block}
use rust.Exec.{done, failed}
use rust.Io.Memory.{memory}
use rust.Io.Finite.{memory_finite}
use rust.Protocol.Address.{ipv4}
use rust.Proxy.Net.{Net, client}
use rust.Proxy.Udp.{UdpFrame, udp_loop}
use rust.Proxy.Udp.Frame.{IsFrame}
use rust.Proxy.Udp.Sending.{Datagram, wires, IsSending}
use rust.Proxy.Udp.Ending.{Ends, udp_loop-Ends}
use rust.Proxy.Udp.Order.{Outcome, udp_loop-Outcome}
use rust.Tests.Data.{localhost, example_com, request, example_com-IsWire, localhost-IsWire, session}

-- A network in which the world is the datagrams that were sent; no datagram comes, and the names are
-- those of this host.
abbrev pub udp_net : Net
udp_net = record {
  World = List Datagram;
  Remote = Unit {0};
  connect_socket = λ addr w. (failed would_block, w);
  connect_host = λ addr w. (failed would_block, w);
  write_all = λ remote b w. (failed would_block, w);
  timeout = λ seconds m w. (none, w);
  copy_bidirectional = λ r remote t. (failed would_block, t);
  Socket = Unit {0};
  udp_bind = λ addr w. (done tt, w);
  local_addr = λ socket w. (done localhost, w);
  send_to = λ socket b addr w. (done (length b), w ++ (b, addr) ∷ []);
  recv_from = λ socket n w. (failed would_block, w);
  lookup_host = λ name port w. (done (localhost ∷ []), w);
  write_client = λ b w. (done tt, w);
  select = λ seconds w. (client, w);
  now = λ w. (0, w);
}

unfoldable pub udp_net-IsSending : IsSending udp_net
udp_net-IsSending = record {
  log = λ w. w;
  bind_log = λ addr w. refl;
  addr_log = λ socket w. refl;
  now_log = λ w. refl;
  select_log = λ seconds w. refl;
  lookup_log = λ name port w. refl;
  recv_log = λ socket n w. refl;
  write_client_log = λ b w. refl;
  send_done = λ socket b addr w w' n e. cc (ap (λ p. p.1) e);
  send_failed = λ socket b addr w w' x e. cc (ap (λ p. p.0) e);
}

abbrev pub frames : List UdpFrame
frames =
    record { address = example_com; payload = request }
    ∷ record { address = ipv4 localhost; payload = [] }
    ∷ []

pub frames-IsFrame : All IsFrame frames
frames-IsFrame = (
  record { target = example_com-IsWire; host = omega arith; fits = omega arith },
  (record { target = localhost-IsWire; host = tt; fits = omega arith }, tt),
)

udp_loop-Outcome_example :
    Outcome udp_net udp_net-IsSending memory memory_finite 60 3 frames []
      (udp_loop udp_net memory 3 tt 60 session (wires frames, []))
unfolding memory_finite udp_net-IsSending
udp_loop-Outcome_example =
    udp_loop-Outcome udp_net udp_net-IsSending memory memory_finite 60 tt (λ w. refl) 3 frames []
      session (wires frames) [] frames-IsFrame refl refl

udp_loop-Ends_example :
    Ends udp_net udp_net-IsSending memory memory_finite 60 frames []
      (udp_loop udp_net memory 3 tt 60 session (wires frames, []))
unfolding memory_finite udp_net-IsSending
udp_loop-Ends_example =
    udp_loop-Ends udp_net udp_net-IsSending memory memory_finite 60 tt (λ w taken e. cc) 3 frames []
      session (wires frames) [] (omega arith) frames-IsFrame refl refl
