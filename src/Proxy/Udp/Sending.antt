-- ===== src/Proxy/Udp/Sending.antt =====
-- What the association sends for the client's frames.
use rust.Prelude.{◌⊎◌, ℕ, ◌≡◌, refl, List, [], ◌∷◌, ◌++◌}
use rust.Error.{ok, panic}
use rust.Bytes.{Str}
use rust.Exec.{IoResult, done, failed, ◌>>=◌}
use rust.Error.{err, IoError, TrojanError}
use rust.Protocol.Address.{Address, SocketAddr, ipv4, ipv6, domain}
use rust.Proxy.Net.{Net, Select, client, elapsed, remote}
use rust.Proxy.Udp.{UdpFrame, resolve_target, first_of_lookup}
use rust.Proxy.Udp.Frame.{wire}

abbrev pub Datagram : Type 0
Datagram = List ℕ × SocketAddr

-- The bytes of frames, one after the other.
unfoldable pub wires : List UdpFrame → List ℕ
wires [] = []
wires (f ∷ fs) = wire f ++ wires fs

-- What the documentation of tokio promises of a socket: a finished send has sent one datagram, and
-- nothing else sends.
pub record IsSending (net : Net) : Type 0 where
  pub log : net.World → List Datagram
  pub bind_log : (addr : Str) (w : net.World) → log (net.udp_bind addr w).1 ≡ log w
  pub addr_log : (socket : net.Socket) (w : net.World) → log (net.local_addr socket w).1 ≡ log w
  pub now_log : (w : net.World) → log (net.now w).1 ≡ log w
  pub select_log : (seconds : ℕ) (w : net.World) → log (net.select seconds w).1 ≡ log w
  pub lookup_log :
      (name : Str) (port : ℕ) (w : net.World) → log (net.lookup_host name port w).1 ≡ log w
  pub recv_log :
      (socket : net.Socket) (n : ℕ) (w : net.World) → log (net.recv_from socket n w).1 ≡ log w
  pub write_client_log : (b : List ℕ) (w : net.World) → log (net.write_client b w).1 ≡ log w
  pub send_done :
      (socket : net.Socket) (b : List ℕ) (addr : SocketAddr) (w w' : net.World) (n : ℕ)
      → net.send_to socket b addr w ≡ (done n, w')
      → log w' ≡ log w ++ (b, addr) ∷ []
  pub send_failed :
      (socket : net.Socket) (b : List ℕ) (addr : SocketAddr) (w w' : net.World) (e : IoError)
      → net.send_to socket b addr w ≡ (failed e, w')
      → log w' ≡ log w

-- How many bytes of a frame the branch that lost the race had taken.
abbrev pub taken_of : Select → ℕ
taken_of client = 0
taken_of elapsed = 0
taken_of (remote taken) = taken

module _ (net : Net) where
  -- The address was resolved to this one at some time.
  abbrev pub IsTarget : Address → SocketAddr → Type 0
  IsTarget a addr = (w u : net.World) × (resolve_target net a w ≡ (ok addr, u))

  -- No datagram went out for the frame: its target was not resolved, or the send failed.
  abbrev pub IsDropped : UdpFrame → Type 0
  IsDropped f =
      ((w u : net.World) × (e : TrojanError) × (resolve_target net f.address w ≡ (err e, u)))
      ⊎ ((socket : net.Socket) × (addr : SocketAddr) × (w u : net.World) × (e : IoError)
          × (net.send_to socket f.payload addr w ≡ (failed e, u)))

  -- For these frames these datagrams: each frame gives one, with its payload and to its target,
  -- unless it was dropped.
  pub data Sent : List UdpFrame → List Datagram → Type 0 where
    nothing : Sent [] []
    passed :
        {f : UdpFrame} {fs : List UdpFrame} {out : List Datagram} (addr : SocketAddr)
        → IsTarget f.address addr
        → Sent fs out
        → Sent (f ∷ fs) ((f.payload, addr) ∷ out)
    lost :
        {f : UdpFrame} {fs : List UdpFrame} {out : List Datagram}
        → IsDropped f
        → Sent fs out
        → Sent (f ∷ fs) out

  first_of_lookup-ne-panic :
      (name : Str) (port : ℕ) (found : IoResult (List SocketAddr))
      → first_of_lookup net name port found ≡ panic
      → ⊥
  unfolding first_of_lookup
  first_of_lookup-ne-panic name port (failed e) q = cc
  first_of_lookup-ne-panic name port (done []) q = cc
  first_of_lookup-ne-panic name port (done (addr ∷ addrs)) q = cc

  pub resolve_target-ne-panic :
      (a : Address) (w : net.World) → (resolve_target net a w).0 ≡ panic → ⊥
  unfolding resolve_target ◌>>=◌
  resolve_target-ne-panic (ipv4 addr) w q = cc
  resolve_target-ne-panic (ipv6 addr) w q = cc
  resolve_target-ne-panic (domain name port) w q = first_of_lookup-ne-panic name port _ q

  pub resolve_target-log :
      (sending : IsSending net) (a : Address) (w : net.World)
      → sending.log (resolve_target net a w).1 ≡ sending.log w
  unfolding resolve_target ◌>>=◌
  resolve_target-log sending (ipv4 addr) w = refl
  resolve_target-log sending (ipv6 addr) w = refl
  resolve_target-log sending (domain name port) w = sending.lookup_log name port w
