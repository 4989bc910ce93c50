-- ===== src/Tests/Datagrams.antt =====
-- The theorems on UDP from the header on, and on the datagrams that come back.
use rust.Prelude.{
  ℕ, ◌≤◌, ◌≡◌, refl, ap, sym, ◌∙◌, subst, none, true, List, [], ◌∷◌, ◌++◌, arith, length, take,
  length-take,
}
use rust.Bytes.{AreBytes}
use rust.Error.{would_block}
use rust.Exec.{done, failed}
use rust.Exec.Inversion.{done-injective}
use rust.Io.Memory.{memory}
use rust.Io.Finite.{memory_finite}
use rust.Protocol.Command.{udp_associate}
use rust.Protocol.Header.{Header, verify_password}
use rust.Protocol.Header.Wire as Wire
use rust.Protocol.Header.Wire.{IsHeader}
use rust.Bytes.{is_ascii_hexdigit, eq_ignore_ascii_case, to_ascii_lowercase}
use rust.Protocol.Address.Wire as AddressWire
use rust.Proxy.Net.{Net, Select, client, remote}
use rust.Proxy.Udp.Frame.{wire}
use rust.Proxy.Udp.Sending.{Datagram, wires, IsSending}
use rust.Proxy.Udp.Answering.{IsAnswering}
use rust.Server.Accounting.{Accounts, handle_connection-Accounts}
use rust.Server.{handle_connection}
use rust.Server.Datagrams.{Associates, handle_connection-Associates}
use rust.Tests.Ext.{ext, ext-IsExact}
use rust.Tests.Udp.{udp_net, udp_net-IsSending, frames, frames-IsFrame}
use rust.Tests.Data.{localhost, server, client_hash, example_com, example_com-IsWire}

abbrev udp_header : Header
udp_header = record { password_hash = client_hash; command = udp_associate; address = example_com }

udp_header-IsHeader : IsHeader udp_header
unfolding is_ascii_hexdigit
udp_header-IsHeader = record { size = refl; hex = refl; target = example_com-IsWire }

udp_user : verify_password udp_header server.passwords ≡ true
unfolding verify_password eq_ignore_ascii_case to_ascii_lowercase
udp_user = refl

frames-AreBytes : AreBytes (wires frames)
unfolding wires wire AddressWire.wire
frames-AreBytes = omega arith

handle_connection-Associates_example :
    Associates udp_net udp_net-IsSending ext ext-IsExact memory memory_finite server localhost 3
      frames [] 7
      (handle_connection udp_net ext memory server localhost 3
        (Wire.wire udp_header ++ wires frames)
        []
        7)
unfolding memory_finite udp_net-IsSending
handle_connection-Associates_example =
    handle_connection-Associates udp_net udp_net-IsSending ext ext-IsExact memory memory_finite
      server localhost 3 (Wire.wire udp_header ++ wires frames) [] 7 udp_header frames []
      udp_header-IsHeader udp_user refl frames-AreBytes frames-IsFrame (λ w. refl) refl refl

abbrev hello : List ℕ
hello = b'h' ∷ b'i' ∷ []

-- A network that knows what it did, and which events come next; then the client's come.
record Log : Type 0 where
  pub sent : List Datagram
  pub arrived : List Datagram
  pub written : List ℕ
  pub events : List Select

abbrev next_event : List Select → Select × List Select
next_event [] = (client, [])
next_event (e ∷ events) = (e, events)

abbrev busy_net : Net
busy_net = record {
  World = Log;
  Remote = Unit {0};
  connect_socket = λ addr w. (failed would_block, w);
  connect_host = λ addr w. (failed would_block, w);
  write_all = λ remote b w. (failed would_block, w);
  timeout = λ seconds m w. (none, w);
  copy_bidirectional = λ r remote t. (failed would_block, t);
  Socket = Unit {0};
  udp_bind = λ addr w. (done tt, w);
  local_addr = λ socket w. (done localhost, w);
  send_to = λ socket b addr w. (done (length b), record w { sent = w.sent ++ (b, addr) ∷ [] });
  recv_from = λ socket n w. (
    done (take n hello, localhost),
    record w { arrived = w.arrived ++ (take n hello, localhost) ∷ [] },
  );
  lookup_host = λ name port w. (done (localhost ∷ []), w);
  write_client = λ b w. (done tt, record w { written = w.written ++ b });
  select = λ seconds w. ((next_event w.events).0, record w { events = (next_event w.events).1 });
  now = λ w. (0, w);
}

busy_net-IsSending : IsSending busy_net
busy_net-IsSending = record {
  log = λ w. w.sent;
  bind_log = λ addr w. refl;
  addr_log = λ socket w. refl;
  now_log = λ w. refl;
  select_log = λ seconds w. refl;
  lookup_log = λ name port w. refl;
  recv_log = λ socket n w. refl;
  write_client_log = λ b w. refl;
  send_done = λ socket b addr w w' n e. sym (ap (λ p. p.1.sent) e);
  send_failed = λ socket b addr w w' x e. cc (ap (λ p. p.0) e);
}

busy_net-IsAnswering : IsAnswering busy_net
busy_net-IsAnswering = record {
  arrived = λ w. w.arrived;
  written = λ w. w.written;
  bind_same = λ addr w. (refl, refl);
  addr_same = λ socket w. (refl, refl);
  now_same = λ w. (refl, refl);
  select_same = λ seconds w. (refl, refl);
  lookup_same = λ name port w. (refl, refl);
  send_same = λ socket b addr w. (refl, refl);
  recv_done = λ socket n w w' b source e.
      let got = done-injective (ap (λ p. p.0) e) in
      (
        sym (ap (λ p. p.1.arrived) e) ∙ ap (λ d. w.arrived ++ d ∷ []) got,
        subst (λ d. length d.0 ≤ n) got (omega (arith, length-take n hello)),
        sym (ap (λ p. p.1.written) e),
      );
  recv_failed = λ socket n w w' x e. cc (ap (λ p. p.0) e);
  write_arrived = λ b w. refl;
  write_done = λ b w w' e. sym (ap (λ p. p.1.written) e);
  write_failed = λ b w w' x e. cc (ap (λ p. p.0) e);
}

abbrev busy : Log
busy = record { sent = []; arrived = []; written = []; events = client ∷ remote 0 ∷ [] }

-- The first frame, a datagram that comes, and the second frame.
handle_connection-Accounts_example :
    Accounts busy_net busy_net-IsSending busy_net-IsAnswering ext ext-IsExact memory memory_finite
      server localhost 4
      (wires frames)
      busy
      7
      (handle_connection busy_net ext memory server localhost 4
        (Wire.wire udp_header ++ wires frames)
        busy
        7)
unfolding memory_finite
handle_connection-Accounts_example =
    handle_connection-Accounts busy_net busy_net-IsSending busy_net-IsAnswering ext ext-IsExact
      memory memory_finite server localhost 4 (Wire.wire udp_header ++ wires frames) busy 7
      udp_header (wires frames) udp_header-IsHeader udp_user refl frames-AreBytes refl
