-- ===== src/Server/Accounting.antt =====
-- What a connection for UDP counts, from the header on, whatever the client sends behind it.
use rust.Prelude.{ℕ, ◌+◌, ◌%◌, ◌≡◌, refl, ◌∙◌, true, Option, List, ◌++◌}
use rust.Error.{Result}
use rust.Bytes.{AreBytes}
use rust.Io.{AsyncRead}
use rust.Io.Finite.{IsFinite}
use rust.Io.Extension.{AsyncReadExt, IsExact}
use rust.Config.{Config}
use rust.Protocol.Command.{udp_associate}
use rust.Protocol.Address.{SocketAddr}
use rust.Protocol.Header.{Header, verify_password}
use rust.Protocol.Header.Wire.{IsHeader, wire}
use rust.Proxy.Net.{Net}
use rust.Proxy.Fallback.{PrefixedStream}
use rust.Proxy.Session
use rust.Proxy.Session.{Session, u64_mod}
use rust.Proxy.Udp.Sending.{IsSending}
use rust.Proxy.Udp.Answering.{IsAnswering}
use rust.Proxy.Udp.Accounting.{Counts, handle_udp-Counts}
use rust.Server.{Ended, proxied, map_ok, prefixed, proxy, proxy_connection, handle_connection}
use rust.Server.Connection.{handle_connection-Proxies}
use rust.Server.Prefix.{prefixed-IsFinite}

module _ (net : Net) (sending : IsSending net) (answering : IsAnswering net) (ext : AsyncReadExt)
    (exact : IsExact ext) (r : AsyncRead) (fin : IsFinite r) (config : Config)
    (peer_addr : SocketAddr) (rounds : ℕ) where
  -- The connection ends as an association does that starts in this world with a new session of this
  -- number.
  abbrev pub Accounts : List ℕ → net.World → ℕ → Result Ended × net.World × ℕ → Type 0
  Accounts payload w session_id run =
      (session : Session) × (session.id ≡ session_id)
      × (session.bytes_sent ≡ 0)
      × (session.bytes_received ≡ 0)
      × (client : PrefixedStream r.Stream) × ((prefixed-IsFinite net ext exact r fin
              config).0.pending
            client
          ≡ payload)
      × (ended : Result (Option Session) × (PrefixedStream r.Stream × net.World)) × (run
          ≡ (map_ok proxied ended.0, ended.1.1, (session_id + 1) % u64_mod))
      × Counts net sending answering (prefixed net ext r config)
          (prefixed-IsFinite net ext exact r fin config).0 config.udp_timeout config.udp_bind_addr
          session client w ended

  -- A client begins with a user's header for the command `udp_associate` and goes on with any bytes.
  -- Then the connection never panics, the session counter goes up by one modulo 2^64, and there is an
  -- association with a new session of the counter's number and with
  -- a stream that gives exactly these bytes. It gets no socket, or no address of it,
  -- and nothing is sent, received or written. Or its loop runs: the client is written exactly the
  -- frames of the datagrams that came, in order; the session that the loop ends with counts, modulo
  -- 2^64, the payload bytes of the datagrams that were sent and of those that came; and the loop ends
  -- only in a round with a cause, in which it waits for a frame and the client's stream has ended, or
  -- the time is over, or a frame cannot be read, or a receive fails, or the write of the frame of one
  -- more datagram breaks off. An unresolved target or a failed send does not end it. This holds for
  -- every network and every exact reads that keep tokio's promises.
  pub handle_connection-Accounts :
      (s : r.Stream) (w : net.World) (session_id : ℕ) (h : Header) (payload : List ℕ)
      → IsHeader h
      → verify_password h config.passwords ≡ true
      → h.command ≡ udp_associate
      → AreBytes payload
      → fin.pending s ≡ wire h ++ payload
      → Accounts payload w session_id
          (handle_connection net ext r config peer_addr rounds s w session_id)
  unfolding proxy_connection proxy Session.new Session.fetch_add
  handle_connection-Accounts s w session_id h payload good user udp b e =
      let (client, left, ran) =
        handle_connection-Proxies net ext r fin config peer_addr rounds s w session_id h payload
          good user b e in
      let (arrived, written) = answering.now_same w in
      (
        (Session.new session_id (net.now w).0 peer_addr h.address udp_associate).0,
        refl,
        refl,
        refl,
        client,
        (prefixed-IsFinite net ext exact r fin config).1 client ∙ left,
        _,
        ran ∙ rw udp refl,
        handle_udp-Counts net sending answering (prefixed net ext r config)
            (prefixed-IsFinite net ext exact r fin config).0 config.udp_timeout config.udp_bind_addr
            (Session.new session_id (net.now w).0 peer_addr h.address udp_associate).0 client w
            rounds (net.now w).1 (sending.now_log w, arrived, written),
      )
