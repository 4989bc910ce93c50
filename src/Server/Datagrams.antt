-- ===== src/Server/Datagrams.antt =====
-- A connection of a client that asks for UDP, from its header to the datagrams that were sent.
use rust.Prelude.{ℕ, ◌+◌, ◌%◌, ◌≡◌, refl, ◌∙◌, true, Option, List, ◌++◌, All}
use rust.Error.{Result}
use rust.Bytes.{AreBytes}
use rust.Io.{AsyncRead}
use rust.Io.Finite.{IsFinite}
use rust.Io.Extension.{AsyncReadExt, IsExact}
use rust.Config.{Config}
use rust.Protocol.Command.{udp_associate}
use rust.Protocol.Address.{SocketAddr}
use rust.Protocol.Header.{Header, verify_password}
use rust.Protocol.Header.Wire.{IsHeader, wire}
use rust.Proxy.Net.{Net}
use rust.Proxy.Fallback.{PrefixedStream}
use rust.Proxy.Session
use rust.Proxy.Session.{Session, u64_mod}
use rust.Proxy.Udp.{UdpFrame}
use rust.Proxy.Udp.Frame.{IsFrame}
use rust.Proxy.Udp.Sending.{IsSending, Datagram, wires, taken_of}
use rust.Proxy.Udp.Association.{Associated, handle_udp-Associated}
use rust.Server.{Ended, proxied, map_ok, prefixed, proxy, proxy_connection, handle_connection}
use rust.Server.Connection.{handle_connection-Proxies}
use rust.Server.Prefix.{prefixed-IsFinite}

module _ (net : Net) (sending : IsSending net) (ext : AsyncReadExt) (exact : IsExact ext)
    (r : AsyncRead) (fin : IsFinite r) (config : Config) (peer_addr : SocketAddr) (rounds : ℕ) where
  -- The connection ends as an association for these frames does, behind these datagrams.
  abbrev pub Associates : List UdpFrame → List Datagram → ℕ → Result Ended × net.World × ℕ → Type 0
  Associates fs before session_id run =
      (ended : Result (Option Session) × (PrefixedStream r.Stream × net.World)) × (run
        ≡ (map_ok proxied ended.0, ended.1.1, (session_id + 1) % u64_mod))
      × Associated net sending (prefixed net ext r config)
          (prefixed-IsFinite net ext exact r fin config).0 config.udp_timeout config.udp_bind_addr
          rounds fs before ended

  -- A client begins with a user's header for the command `udp_associate` and goes on with whole
  -- frames, and no datagram comes while a frame is partly read. Then the connection ends as an
  -- association for exactly these frames: without a socket, or without its address, and with no
  -- datagram sent; or as a loop that has taken some of the frames, in their order, and sent for each
  -- its payload to its target, once, unless that was not resolved or its send failed. The session
  -- counter goes up by one modulo 2^64. This holds for every network and every exact reads that keep
  -- tokio's promises.
  pub handle_connection-Associates :
      (s : r.Stream) (w : net.World) (session_id : ℕ) (h : Header) (fs : List UdpFrame)
      (before : List Datagram)
      → IsHeader h
      → verify_password h config.passwords ≡ true
      → h.command ≡ udp_associate
      → AreBytes (wires fs)
      → All IsFrame fs
      → ((w : net.World) → taken_of (net.select config.udp_timeout w).0 ≡ 0)
      → fin.pending s ≡ wire h ++ wires fs
      → sending.log w ≡ before
      → Associates fs before session_id
          (handle_connection net ext r config peer_addr rounds s w session_id)
  unfolding proxy_connection proxy Session.new Session.fetch_add
  handle_connection-Associates s w session_id h fs before good user udp b frames quiet e log =
      let (client, left, ran) =
        handle_connection-Proxies net ext r fin config peer_addr rounds s w session_id h (wires fs)
          good user b e in
      let (sub_finite, same) = prefixed-IsFinite net ext exact r fin config in
      (
        _,
        ran ∙ rw udp refl,
        handle_udp-Associated net sending (prefixed net ext r config) sub_finite config.udp_timeout
            config.udp_bind_addr quiet rounds fs frames
            (Session.new session_id (net.now w).0 peer_addr h.address udp_associate).0 client
            (same client ∙ left) before (net.now w).1 (sending.now_log w ∙ log) _ refl,
      )
