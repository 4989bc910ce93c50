-- ===== src/Server/Delivery.antt =====
-- A connection from end to end, over a network that keeps tokio's promises.
use rust.Prelude.{
  ℕ, ◌+◌, ◌%◌, ◌≡◌, ◌≢◌, ◌⊎◌, inl, inr, refl, arith, sym, ap, ◌∙◌, true, some, List, [], ◌++◌,
  length,
}
use rust.Error.{Result, TrojanError, ok, err, io, timeout, remote_connect_failed, connect_failed}
use rust.Bytes.{AreBytes}
use rust.Exec.{done, pure, ◌>>=◌}
use rust.Io.{AsyncRead}
use rust.Io.Finite.{IsFinite}
use rust.Io.Extension.{AsyncReadExt, IsExact}
use rust.Config.{Config}
use rust.Protocol.Command.{connect}
use rust.Protocol.Address.{SocketAddr}
use rust.Protocol.Header.{Header, verify_password}
use rust.Protocol.Header.Wire.{IsHeader, wire}
use rust.Proxy.Net.{Net}
use rust.Proxy.Net.Delivery.{IsDelivering}
use rust.Proxy.Failure.{NetFailure, host_refused, target_refused, target_late, copy_failed}
use rust.Proxy.Fallback.{PrefixedStream}
use rust.Proxy.Fallback.Prefixed.{remaining}
use rust.Proxy.Fallback.Transparent as Fallback
use rust.Proxy.Session
use rust.Proxy.Session.{Session, u64_mod}
use rust.Proxy.Tcp.{connect_target, handle_tcp}
use rust.Proxy.Tcp.Transparent as Tcp
use rust.Server.{
  Ended, fell_back, proxied, map_ok, prefixed, proxy, proxy_connection, handle_connection,
}
use rust.Server.Prefix.{prefixed-IsFinite}
use rust.Server.Peek.{BeginsWith}
use rust.Server.Connection.{handle_connection-FallsBack, handle_connection-Proxies}

module _ (net : Net) (del : IsDelivering net) (ext : AsyncReadExt) (exact : IsExact ext)
    (r : AsyncRead) (fin : IsFinite r) (config : Config) (peer_addr : SocketAddr) (rounds : ℕ) where
  -- The backend of the fallback got `all`, and the client all that the backend sent.
  abbrev pub Relays : List ℕ → net.World → Result Ended × net.World × ℕ → Type 0
  Relays all w run =
      (run.0 ≡ ok fell_back)
      × (remote : net.Remote) × (w1 : net.World) × (net.connect_host config.fallback_addr w
          ≡ (done remote, w1))
      × (del.delivered remote run.1 ≡ all)
      × (del.answered run.1 ≡ del.answered w ++ del.returned remote run.1)

  -- An error, with the failure of the network behind it.
  abbrev pub Fails : AsyncRead → Result Ended × net.World × ℕ → Type 0
  Fails read run = (e : TrojanError) × (run.0 ≡ err e) × NetFailure net read

  ended-Relays :
      (all : List ℕ) (w : net.World) (session_id : ℕ)
      (ended : Result (Unit {0}) × (r.Stream × net.World))
      → Fallback.Outcome net del r fin all config.fallback_addr w ended
      → Relays all w (map_ok (λ _. fell_back) ended.0, ended.1.1, session_id)
        ⊎ Fails r (map_ok (λ _. fell_back) ended.0, ended.1.1, session_id)
  ended-Relays all w session_id ended (Fallback.unreachable e s' w' c) =
      inr (_, refl, host_refused config.fallback_addr e w w' c)
  ended-Relays all w session_id ended (Fallback.broken e s' w' cause) = inr (_, refl, cause)
  ended-Relays all w session_id ended (Fallback.relayed remote s' w1 w' c e back) =
      inl (refl, remote, w1, c, e, back)

  -- A client whose bytes are not empty and do not begin with a user's header: either the backend of
  -- the fallback got all of these bytes, over the connection that was opened to it, and the client was
  -- written all that the backend sent; or the connection ends with an error that a failed connect,
  -- write or copy of the network is behind. This holds for every network that keeps tokio's promises.
  pub handle_connection-Relays :
      (s : r.Stream) (w : net.World) (session_id : ℕ)
      → AreBytes (fin.pending s)
      → fin.pending s ≢ []
      → ((h : Header) → ¬ BeginsWith config.passwords (fin.pending s) h)
      → Relays
          (fin.pending s)
          w
          (handle_connection net ext r config peer_addr rounds s w session_id)
        ⊎ Fails r (handle_connection net ext r config peer_addr rounds s w session_id)
  handle_connection-Relays s w session_id b given deny =
      let (peeked, stream, split, _, ran) =
        handle_connection-FallsBack net ext r fin config peer_addr rounds s w session_id b given
          deny in
      rw ran (
        ended-Relays (fin.pending s) w session_id _ (
          Fallback.handle_fallback-Outcome net del r fin (fin.pending s) config.fallback_addr w
            stream peeked (sym split)))

  -- The target got `payload` and the client what the target sent, which a session of this number
  -- counts.
  abbrev pub Delivers : Header → List ℕ → net.World → ℕ → Result Ended × net.World × ℕ → Type 0
  Delivers h payload w session_id run =
      (ended : Session) × (run.0 ≡ ok (proxied (some ended)))
      × (ended.id ≡ session_id)
      × (ended.bytes_sent ≡ length payload % u64_mod)
      × (remote : net.Remote) × (w1 : net.World) × (connect_target net h.address (net.now w).1
          ≡ (done remote, w1))
      × (del.delivered remote run.1 ≡ payload)
      × (del.answered run.1 ≡ del.answered w ++ del.returned remote run.1)
      × (ended.bytes_received ≡ length (del.returned remote run.1) % u64_mod)

  -- How the code ends the connection after `handle_tcp`.
  abbrev proxied_as :
      Header → Session → PrefixedStream r.Stream → net.World → ℕ → Result Ended × net.World × ℕ
  proxied_as h session client w session_id =
      let (ended, left) =
        (handle_tcp net (prefixed net ext r config) h.address session config.tcp_timeout
            >>= λ ended. pure (some ended))
          (client, w) in
      (map_ok proxied ended, left.1, session_id)

  ended-Delivers :
      (h : Header) (payload : List ℕ) (client : PrefixedStream r.Stream) (w : net.World)
      (session_id session_id' : ℕ) (session : Session)
      → session.id ≡ session_id
      → session.bytes_sent ≡ 0
      → session.bytes_received ≡ 0
      → remaining fin.pending client ≡ payload
      → (ended : Result Session × (PrefixedStream r.Stream × net.World))
      → handle_tcp net
          (prefixed net ext r config)
          h.address
          session
          config.tcp_timeout
          (client, (net.now w).1)
        ≡ ended
      → Tcp.Outcome net del
          (prefixed net ext r config)
          (prefixed-IsFinite net ext exact r fin config).0
          h.address
          session
          config.tcp_timeout
          client
          (net.now w).1
          ended
      → Delivers h payload w session_id (proxied_as h session client (net.now w).1 session_id')
        ⊎ Fails (prefixed net ext r config) (proxied_as h session client (net.now w).1 session_id')
  unfolding ◌>>=◌
  ended-Delivers h payload client w id id' session named zero_sent zero_received left ended ran
        (Tcp.timed_out w' c) =
      inr (timeout, rw ran refl, target_late h.address config.tcp_timeout (net.now w).1 w' c)
  ended-Delivers h payload client w id id' session named zero_sent zero_received left ended ran
        (Tcp.refused e w' c) =
      inr (
        remote_connect_failed (connect_failed e),
        rw ran refl,
        target_refused h.address e (net.now w).1 w' c,
      )
  ended-Delivers h payload client w id id' session named zero_sent zero_received left ended ran
        (Tcp.broken remote e s' w1 w' c copy) =
      inr (io e, rw ran refl, copy_failed remote e (client, w1) (s', w') copy)
  ended-Delivers h payload client w id id' session named zero_sent zero_received left ended ran
        (Tcp.relayed remote s' w1 w' last c all count back down same) =
      let given = (prefixed-IsFinite net ext exact r fin config).1 client ∙ left in
      inl (
        last,
        rw ran refl,
        same ∙ named,
        count ∙ rw (zero_sent, given) (ap (λ n. n % u64_mod) (omega arith)),
        remote,
        w1,
        c,
        rw (proxied_as, ran) (all ∙ given),
        rw (proxied_as, ran) (back ∙ rw (del.now_lem w) refl),
        rw (proxied_as, ran) (down ∙ rw zero_received (ap (λ n. n % u64_mod) (omega arith))),
      )

  -- A client that begins with a user's header for the command `connect` and goes on with `payload`:
  -- either the target of the header got exactly `payload`, the client was written exactly what the
  -- target sent, and the session, numbered by the counter, counts both modulo 2^64; or the connection
  -- ends with an error that a failed connect or copy of the network is behind. The counter goes up by
  -- one modulo 2^64. This holds for every network and every exact reads that keep tokio's promises.
  pub handle_connection-Delivers :
      (s : r.Stream) (w : net.World) (session_id : ℕ) (h : Header) (payload : List ℕ)
      → IsHeader h
      → verify_password h config.passwords ≡ true
      → h.command ≡ connect
      → AreBytes payload
      → fin.pending s ≡ wire h ++ payload
      → (Delivers h payload w session_id
            (handle_connection net ext r config peer_addr rounds s w session_id)
          ⊎ Fails
              (prefixed net ext r config)
              (handle_connection net ext r config peer_addr rounds s w session_id))
        × ((handle_connection net ext r config peer_addr rounds s w session_id).2
            ≡ (session_id + 1) % u64_mod)
  unfolding proxy_connection proxy Session.new
  handle_connection-Delivers s w session_id h payload good user tcp b e =
      let (client, left, ran) =
        handle_connection-Proxies net ext r fin config peer_addr rounds s w session_id h payload
          good user b e in
      rw (ran, tcp)
        (
          ended-Delivers h payload client w session_id
              (Session.new session_id (net.now w).0 peer_addr h.address connect).1
              (Session.new session_id (net.now w).0 peer_addr h.address connect).0 refl refl refl
              left _ refl
              (Tcp.handle_tcp-Outcome net del (prefixed net ext r config)
                (prefixed-IsFinite net ext exact r fin config).0 h.address _ config.tcp_timeout
                client (net.now w).1),
          refl,
        )
