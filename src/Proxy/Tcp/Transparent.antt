-- ===== src/Proxy/Tcp/Transparent.antt =====
-- The TCP proxy: the target gets what the client's stream gives, and the session counts it.
use rust.Prelude.{ℕ, ◌+◌, ◌%◌, ◌≡◌, refl, ◌∙◌, Option, some, none, [], ◌++◌, length}
use rust.Error.{Result, IoError, ok, err, io, remote_connect_failed, connect_failed, timeout}
use rust.Exec.{IoResult, done, failed, pure, ◌>>=◌}
use rust.Io.{AsyncRead}
use rust.Io.Finite.{IsFinite}
use rust.Protocol.Address.{Address, ipv4, ipv6, domain}
use rust.Proxy.Net.{Net}
use rust.Proxy.Net.Delivery.{IsDelivering}
use rust.Proxy.Relay.{relay}
use rust.Proxy.Session.{Session, u64_mod, add_sent, add_received}
use rust.Proxy.Tcp.{connect_target, connected, handle_tcp}

module _ (net : Net) (del : IsDelivering net) (r : AsyncRead) (fin : IsFinite r) where
  module _ (target : Address) (session : Session) (seconds : ℕ) (s : r.Stream) (w : net.World) where
    -- How the proxy ends: the target does not answer in time, or refuses; the connection breaks; or
    -- the target got all that the client's stream gave, the client all that the target sent, and the
    -- session counts both.
    pub data Outcome : Result Session × (r.Stream × net.World) → Type 0 where
      timed_out :
          (w' : net.World)
          → net.timeout seconds (connect_target net target) w ≡ (none, w')
          → Outcome (err timeout, (s, w'))
      refused :
          (e : IoError) (w' : net.World)
          → connect_target net target w ≡ (failed e, w')
          → Outcome (err (remote_connect_failed (connect_failed e)), (s, w'))
      broken :
          (remote : net.Remote) (e : IoError) (s' : r.Stream) (w1 w' : net.World)
          → connect_target net target w ≡ (done remote, w1)
          → net.copy_bidirectional r remote (s, w1) ≡ (failed e, (s', w'))
          → Outcome (err (io e), (s', w'))
      relayed :
          (remote : net.Remote) (s' : r.Stream) (w1 w' : net.World) (ended : Session)
          → connect_target net target w ≡ (done remote, w1)
          → del.delivered remote w' ≡ fin.pending s
          → ended.bytes_sent ≡ (session.bytes_sent + length (fin.pending s)) % u64_mod
          → del.answered w' ≡ del.answered w ++ del.returned remote w'
          → ended.bytes_received
            ≡ (session.bytes_received + length (del.returned remote w')) % u64_mod
          → ended.id ≡ session.id
          → Outcome (ok ended, (s', w'))

  pub connect_target_lem :
      (target : Address) (w w' : net.World) (remote : net.Remote)
      → connect_target net target w ≡ (done remote, w')
      → (del.delivered remote w' ≡ [])
        × (del.returned remote w' ≡ [])
        × (del.answered w' ≡ del.answered w)
  unfolding connect_target
  connect_target_lem (ipv4 addr) w w' remote e = del.connect_socket_lem addr w w' remote e
  connect_target_lem (ipv6 addr) w w' remote e = del.connect_socket_lem addr w w' remote e
  connect_target_lem (domain name port) w w' remote e = del.connect_host_lem _ w w' remote e

  module _ (target : Address) (session : Session) (seconds : ℕ) (s : r.Stream) (w : net.World) where
    copied :
        (remote : net.Remote) (w1 : net.World)
        → connect_target net target w ≡ (done remote, w1)
        → (result : IoResult (ℕ × ℕ) × (r.Stream × net.World))
        → net.copy_bidirectional r remote (s, w1) ≡ result
        → Outcome target session seconds s w (
            (relay net r remote >>= λ counts.
            pure (add_received (add_sent session counts.0) counts.1))
              (s, w1))
    unfolding ◌>>=◌ relay add_sent add_received
    copied remote w1 c (done counts, (s', w')) q =
        let (all, up, down, returned, answered, count) =
          del.copy_lem r fin remote s s' w1 w' counts q in
        let (fresh, silent, same) = connect_target_lem target w w1 remote c in
        let back : del.returned remote w' ≡ down = returned ∙ rw silent in
        rw q (
          relayed remote s' w1 w' _ c (all ∙ rw fresh) (rw up) (answered ∙ rw (same, back) refl)
            (rw (count, back)) refl)
    copied remote w1 c (failed x, (s', w')) q = rw q (broken remote x s' w1 w' c q)

    attempted :
        (attempt : Option (IoResult net.Remote) × net.World)
        → net.timeout seconds (connect_target net target) w ≡ attempt
        → Outcome target session seconds s w (handle_tcp net r target session seconds (s, w))
    unfolding ◌>>=◌ handle_tcp connected
    attempted (none, w') q = rw q (timed_out w' q)
    attempted (some (failed e), w') q = rw q (
        refused e w'
          (del.timeout_lem net.Remote seconds (connect_target net target) w w' (failed e) q))
    attempted (some (done remote), w') q = rw q (
        copied remote w'
          (del.timeout_lem net.Remote seconds (connect_target net target) w w' (done remote) q) _
          refl)

    -- Over a network that keeps tokio's promises the proxy ends in one of these four ways. It succeeds
    -- only if the target got all bytes of the client's stream and the client was written all that the
    -- target sent, and the session then counts both, modulo 2^64.
    pub handle_tcp-Outcome :
        Outcome target session seconds s w (handle_tcp net r target session seconds (s, w))
    handle_tcp-Outcome = attempted _ refl
