-- ===== src/Proxy/Tcp.antt =====
-- src/proxy/tcp.rs: a TCP connection to the target, and the relay to it.
pub mod Transparent
use rust.Prelude.{ℕ, Option, none, some, ◌∷◌, ◌++◌, refl, ◌≡◌}
use rust.Error.{remote_connect_failed, connect_failed, timeout}
use rust.Bytes.{Str, to_string}
use rust.Exec.{Io, IoResult, done, failed, Exec, pure, raise, perform, ◌>>=◌}
use rust.Io.{AsyncRead}
use rust.Protocol.Address.{Address, ipv4, ipv6, domain}
use rust.Proxy.Net.{Net, on_world}
use rust.Proxy.Relay.{relay}
use rust.Proxy.Session.{Session, add_sent, add_received}

-- `format!("{}:{}", domain, port)`
unfoldable pub host_port : Str → ℕ → Str
host_port name port = name ++ (b':' ∷ to_string port)

module _ (net : Net) where
  -- `TcpStream::connect` on the target.
  unfoldable pub connect_target : Address → Io net.World net.Remote
  connect_target (ipv4 addr) = net.connect_socket addr
  connect_target (ipv6 addr) = net.connect_socket addr
  connect_target (domain name port) = net.connect_host (host_port name port)

  -- The connection, or the error that the outcome of the timed attempt means.
  unfoldable pub connected :
      {S : Type 0} → Option (IoResult net.Remote) → Exec (S × net.World) net.Remote
  connected (some (done stream)) = pure stream
  connected (some (failed e)) = raise (remote_connect_failed (connect_failed e))
  connected none = raise timeout

  -- Returns the session with its counters, which the code logs before it drops it.
  unfoldable pub handle_tcp :
      (r : AsyncRead) → Address → Session → ℕ → Exec (r.Stream × net.World) Session
  handle_tcp r target session connect_timeout = do
    attempt ← perform (on_world (net.timeout connect_timeout (connect_target target)))
    remote ← connected attempt
    counts ← relay net r remote
    pure (add_received (add_sent session counts.0) counts.1)
