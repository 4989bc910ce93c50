-- ===== src/Proxy/Failure.antt =====
-- The failures of the network that end a relayed connection.
use rust.Prelude.{ℕ, ◌≡◌, none, List}
use rust.Error.{IoError}
use rust.Bytes.{Str}
use rust.Exec.{failed}
use rust.Io.{AsyncRead}
use rust.Protocol.Address.{Address}
use rust.Proxy.Net.{Net}
use rust.Proxy.Tcp.{connect_target}

-- A connect, a write or a copy that the network answered with an error, or a connect in no time.
pub data NetFailure (net : Net) (r : AsyncRead) : Type 0 where
  host_refused :
      (addr : Str) (e : IoError) (w w' : net.World)
      → net.connect_host addr w ≡ (failed e, w')
      → NetFailure net r
  target_refused :
      (target : Address) (e : IoError) (w w' : net.World)
      → connect_target net target w ≡ (failed e, w')
      → NetFailure net r
  target_late :
      (target : Address) (seconds : ℕ) (w w' : net.World)
      → net.timeout seconds (connect_target net target) w ≡ (none, w')
      → NetFailure net r
  write_failed :
      (remote : net.Remote) (b : List ℕ) (e : IoError) (w w' : net.World)
      → net.write_all remote b w ≡ (failed e, w')
      → NetFailure net r
  copy_failed :
      (remote : net.Remote) (e : IoError) (t t' : r.Stream × net.World)
      → net.copy_bidirectional r remote t ≡ (failed e, t')
      → NetFailure net r
