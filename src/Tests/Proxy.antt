-- ===== src/Tests/Proxy.antt =====
-- The theorems on the proxies, at one client and one target.
use rust.Prelude.{ℕ, ◌≡◌, refl, some, List, [], ◌∷◌, ◌++◌, arith}
use rust.Error.{ok}
use rust.Io.Memory.{memory}
use rust.Io.Finite.{memory_finite}
use rust.Io.Extension.{IsChunked}
use rust.Protocol.Address.{ipv4}
use rust.Proxy.Fallback.{PrefixedStream, poll_read, handle_fallback}
use rust.Proxy.Fallback.Prefixed.{remaining, poll_read-IsChunked}
use rust.Proxy.Fallback.Transparent as FallbackTransparent
use rust.Proxy.Tcp.{handle_tcp}
use rust.Proxy.Tcp.Transparent as TcpTransparent
use rust.Proxy.Udp.{UdpFrame, read_udp_frame, build_udp_frame}
use rust.Proxy.Udp.Frame.{IsFrame, read_udp_frame-build_udp_frame}
use rust.Tests.Network.{idle, net, net-IsDelivering}
use rust.Tests.Data.{
  session, localhost, server, example_com, request, example_com-IsWire, localhost-IsWire,
}

-- A prefix of two bytes, of which one was read.
abbrev prefixed : PrefixedStream (List ℕ)
prefixed = record { prefix = b'a' ∷ b'b' ∷ []; position = 1; inner = request }

abbrev frame : UdpFrame
frame = record { address = example_com; payload = request }

frame-IsFrame : IsFrame frame
frame-IsFrame = record { target = example_com-IsWire; host = omega arith; fits = omega arith }

memory-IsChunked : IsChunked memory_finite.pending memory.read
memory-IsChunked = record { chunk = memory_finite.read_chunk }

handle_tcp-Outcome_example :
    TcpTransparent.Outcome net net-IsDelivering memory memory_finite example_com session 10 request
      idle
      (handle_tcp net memory example_com session 10 (request, idle))
handle_tcp-Outcome_example =
    TcpTransparent.handle_tcp-Outcome net net-IsDelivering memory memory_finite example_com session
      10 request idle

handle_fallback-Outcome_example :
    FallbackTransparent.Outcome net net-IsDelivering memory memory_finite
      (b'a' ∷ request)
      server.fallback_addr
      idle
      (handle_fallback net memory (b'a' ∷ []) server.fallback_addr (request, idle))
unfolding memory_finite
handle_fallback-Outcome_example =
    FallbackTransparent.handle_fallback-Outcome net net-IsDelivering memory memory_finite
      (b'a' ∷ request) server.fallback_addr idle request (b'a' ∷ []) refl

poll_read-IsChunked_example : IsChunked (remaining memory_finite.pending) (poll_read memory.read)
poll_read-IsChunked_example = poll_read-IsChunked memory.read memory_finite.pending memory-IsChunked

read_udp_frame-build_udp_frame_example :
    (bytes : List ℕ) × (build_udp_frame localhost request ≡ ok bytes)
    × (read_udp_frame memory (bytes ++ [])
        ≡ (ok (some (record { address = ipv4 localhost; payload = request })), []))
read_udp_frame-build_udp_frame_example =
    read_udp_frame-build_udp_frame localhost request [] localhost-IsWire (omega arith)
