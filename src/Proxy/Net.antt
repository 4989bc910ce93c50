-- ===== src/Proxy/Net.antt =====
-- tokio's network and timer, which the program calls and does not implement.
pub mod Delivery
use rust.Prelude.{ℕ, Option, List}
use rust.Bytes.{Str}
use rust.Exec.{Io, IoResult}
use rust.Io.{AsyncRead}
use rust.Protocol.Address.{SocketAddr}

-- Which branch of `tokio::select!` under a timeout came first: the client's frame, a datagram (and
-- how many bytes the read that was then dropped had taken from the client's stream), or neither.
pub data Select : Type 0 where
  client elapsed : Select
  remote : ℕ → Select

-- `World` is everything outside the process, `Remote` a TCP connection that the proxy opened.
-- `connect` takes a socket address or a text, as `ToSocketAddrs` does.
pub record Net : Type 1 where
  pub World : Type 0
  pub Remote : Type 0
  pub connect_socket : SocketAddr → Io World Remote
  pub connect_host : Str → Io World Remote
  pub write_all : Remote → List ℕ → Io World (Unit {0})
  -- The outcome of a future within so many seconds, or none.
  pub timeout : {A : Type 0} → ℕ → Io World A → World → Option (IoResult A) × World
  -- Copies both ways until both sides end, and counts the bytes each way.
  pub copy_bidirectional : (r : AsyncRead) → Remote → Io (r.Stream × World) (ℕ × ℕ)
  -- UDP sockets, name lookup and the writing half of the client's stream.
  pub Socket : Type 0
  pub udp_bind : Str → Io World Socket
  pub local_addr : Socket → Io World SocketAddr
  pub send_to : Socket → List ℕ → SocketAddr → Io World ℕ
  pub recv_from : Socket → ℕ → Io World (List ℕ × SocketAddr)
  pub lookup_host : Str → ℕ → Io World (List SocketAddr)
  pub write_client : List ℕ → Io World (Unit {0})
  pub select : ℕ → World → Select × World
  -- `Instant::now()`
  pub now : World → ℕ × World

-- An action on the world, beside the client's stream.
abbrev pub on_world : {S W A : Type 0} → (W → A × W) → S × W → A × (S × W)
on_world m (s, w) = let (a, w') = m w in (a, (s, w'))

-- An action on the client's stream, beside the world.
abbrev pub on_stream : {S W A : Type 0} → (S → A × S) → S × W → A × (S × W)
on_stream m (s, w) = let (a, s') = m s in (a, (s', w))
