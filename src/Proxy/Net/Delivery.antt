-- ===== src/Proxy/Net/Delivery.antt =====
-- What the documentation of tokio promises of a TCP connection that the proxy opens: a finished
-- write has sent its bytes; a finished copy has sent what the client's stream still gave, has written
-- to the client what the other side sent, and counts both; and a timed operation that ends in time is
-- that operation.
use rust.Prelude.{ℕ, ◌≡◌, some, List, [], ◌++◌, length}
use rust.Bytes.{Str}
use rust.Exec.{Io, IoResult, done}
use rust.Io.{AsyncRead}
use rust.Io.Finite.{IsFinite}
use rust.Protocol.Address.{SocketAddr}
use rust.Proxy.Net.{Net}

pub record IsDelivering (net : Net) : Type 1 where
  -- What was sent over a connection.
  pub delivered : net.Remote → net.World → List ℕ
  -- What was received over it, and what was written to the client.
  pub returned : net.Remote → net.World → List ℕ
  pub answered : net.World → List ℕ
  pub now_lem : (w : net.World) → answered (net.now w).1 ≡ answered w
  pub connect_socket_lem :
      (addr : SocketAddr) (w w' : net.World) (remote : net.Remote)
      → net.connect_socket addr w ≡ (done remote, w')
      → (delivered remote w' ≡ []) × (returned remote w' ≡ []) × (answered w' ≡ answered w)
  pub connect_host_lem :
      (addr : Str) (w w' : net.World) (remote : net.Remote)
      → net.connect_host addr w ≡ (done remote, w')
      → (delivered remote w' ≡ []) × (returned remote w' ≡ []) × (answered w' ≡ answered w)
  pub write_all_lem :
      (remote : net.Remote) (b : List ℕ) (w w' : net.World)
      → net.write_all remote b w ≡ (done tt, w')
      → (delivered remote w' ≡ delivered remote w ++ b)
        × (returned remote w' ≡ returned remote w)
        × (answered w' ≡ answered w)
  pub copy_lem :
      (r : AsyncRead) (fin : IsFinite r) (remote : net.Remote) (s s' : r.Stream) (w w' : net.World)
      (counts : ℕ × ℕ)
      → net.copy_bidirectional r remote (s, w) ≡ (done counts, (s', w'))
      → (delivered remote w' ≡ delivered remote w ++ fin.pending s)
        × (counts.0 ≡ length (fin.pending s))
        × (down : List ℕ) × (returned remote w' ≡ returned remote w ++ down)
        × (answered w' ≡ answered w ++ down)
        × (counts.1 ≡ length down)
  pub timeout_lem :
      (A : Type 0) (seconds : ℕ) (m : Io net.World A) (w w' : net.World) (result : IoResult A)
      → net.timeout seconds m w ≡ (some result, w')
      → m w ≡ (result, w')
