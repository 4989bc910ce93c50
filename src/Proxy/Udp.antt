-- ===== src/Proxy/Udp.antt =====
-- src/proxy/udp.rs: the UDP frames in the client's stream, and the association that relays them.
pub mod Frame
pub mod Finite
pub mod Panics
pub mod Sending
pub mod Rounds
pub mod Order
pub mod Ending
pub mod Association
pub mod Answering
pub mod Accounts
pub mod Totals
pub mod Accounting
use rust.Prelude.{
  ℕ, zero, suc, ◌%◌, Option, none, some, List, [], ◌∷◌, ◌++◌, ◌==◌, ltb, if◌then◌else◌, length,
}
use rust.Error.{
  Result, ok, err, io, protocol, unexpected_eof, would_block, other, invalid_utf8,
  invalid_address_type, udp_domain_length, udp_crlf, udp_payload_limit, ok_or, panic,
  remote_connect_failed, resolve_failed, no_addresses, config, udp_bind_failed,
}
use rust.Bytes.{Str, from_utf8, to_be16, bytes_eq}
use rust.Exec.{
  Exec, IoResult, done, failed, pure, raise, lift, await_io, await_or, await_result, attempt,
  perform, ◌>>=◌, ◌>>◌,
}
use rust.Io.{AsyncRead}
use rust.Protocol.Address.{
  Address, SocketAddr, ipv4, ipv6, domain, v4, v6, ipv4_at, ipv6_at, octets4, octets6, type_ipv4,
  type_domain, type_ipv6,
}
use rust.Proxy.Net.{Net, Select, client, elapsed, remote, on_world, on_stream}
use rust.Proxy.Session.{Session, add_sent, add_received}

abbrev pub udp_buffer_size : ℕ
udp_buffer_size = 65535

abbrev pub udp_max_payload_len : ℕ
udp_max_payload_len = 65535

abbrev pub crlf_bytes : List ℕ
crlf_bytes = 0x0d ∷ 0x0a ∷ []

pub record UdpFrame : Type 0 where
  pub address : Address
  pub payload : List ℕ

module _ (r : AsyncRead) where
  unfoldable pub read_ipv4 : Exec r.Stream Address
  read_ipv4 = do
    octets ← await_io (r.read_exact 4)
    port ← await_io r.read_u16
    ip ← lift (ipv4_at octets)
    pure (ipv4 (v4 ip port))

  unfoldable pub read_domain : Exec r.Stream Address
  read_domain = do
    len ← await_io r.read_u8
    if len == 0 then raise (protocol udp_domain_length) else do
      domain_buf ← await_io (r.read_exact len)
      name ← lift (ok_or (from_utf8 domain_buf) invalid_utf8)
      port ← await_io r.read_u16
      pure (domain name port)

  unfoldable pub read_ipv6 : Exec r.Stream Address
  read_ipv6 = do
    octets ← await_io (r.read_exact 16)
    port ← await_io r.read_u16
    ip ← lift (ipv6_at octets)
    pure (ipv6 (v6 ip port 0 0))

  unfoldable pub read_target_address : ℕ → Exec r.Stream Address
  read_target_address atyp =
      if atyp == type_ipv4
      then read_ipv4
      else if atyp == type_domain
      then read_domain
      else if atyp == type_ipv6
      then read_ipv6
      else raise (invalid_address_type atyp)

  unfoldable pub read_payload : Address → Exec r.Stream (Option UdpFrame)
  read_payload address = do
    payload_len ← await_io r.read_u16
    crlf ← await_io (r.read_exact 2)
    if bytes_eq crlf crlf_bytes
        then (do
          payload ← await_io (r.read_exact payload_len)
          pure (some (record { address = address; payload = payload })))
        else raise (protocol udp_crlf)

  -- By what the read of the type byte gave: an end of the stream here is no error.
  unfoldable pub read_frame_of : IoResult ℕ → Exec r.Stream (Option UdpFrame)
  read_frame_of (done atyp) = do address ← read_target_address atyp; read_payload address
  read_frame_of (failed unexpected_eof) = pure none
  read_frame_of (failed would_block) = raise (io would_block)
  read_frame_of (failed (other code)) = raise (io (other code))

  unfoldable pub read_udp_frame : Exec r.Stream (Option UdpFrame)
  read_udp_frame = do first ← await_result r.read_u8; read_frame_of first

-- The type, the address and the port of the sender.
unfoldable pub frame_head : SocketAddr → List ℕ
frame_head (v4 ip port) = type_ipv4 ∷ (octets4 ip ++ to_be16 port)
frame_head (v6 ip port flow scope) = type_ipv6 ∷ (octets6 ip ++ to_be16 port)

unfoldable pub build_udp_frame : SocketAddr → List ℕ → Result (List ℕ)
unfolding frame_head
build_udp_frame addr payload =
    if ltb udp_max_payload_len (length payload)
    then err (protocol udp_payload_limit)
    else ok (frame_head addr ++ (to_be16 (length payload % 65536) ++ (crlf_bytes ++ payload)))

-- What the loop waits for: a frame of the client, or a datagram with its sender.
pub data UdpEvent : Type 0 where
  client_event : Result (Option UdpFrame) → UdpEvent
  remote_event : IoResult (List ℕ × SocketAddr) → UdpEvent

-- What a round of the association's loop ends with.
pub data Round : Type 0 where
  go_on stop : Session → Round

module _ (net : Net) where
  -- The first address that a name has.
  unfoldable pub first_of_lookup : Str → ℕ → IoResult (List SocketAddr) → Result SocketAddr
  first_of_lookup name port (failed e) = err (remote_connect_failed (resolve_failed name port e))
  first_of_lookup name port (done []) = err (remote_connect_failed (no_addresses name port))
  first_of_lookup name port (done (addr ∷ addrs)) = ok addr

  unfoldable pub resolve_target : Address → Exec net.World SocketAddr
  unfolding first_of_lookup
  resolve_target (ipv4 addr) = pure addr
  resolve_target (ipv6 addr) = pure addr
  resolve_target (domain name port) = do
    found ← await_result (net.lookup_host name port)
    lift (first_of_lookup name port found)

  -- A frame of the client goes out; a target that does not resolve and a failed send are dropped.
  unfoldable pub sent : Session → List ℕ → IoResult ℕ → Round
  sent session payload (done n) = go_on (add_sent session (length payload))
  sent session payload (failed e) = go_on session

  unfoldable pub send_frame :
      net.Socket → Session → List ℕ → Result SocketAddr → Exec net.World Round
  unfolding sent
  send_frame socket session payload (ok target) = do
    result ← await_result (net.send_to socket payload target)
    pure (sent session payload result)
  send_frame socket session payload (err e) = pure (go_on session)
  send_frame socket session payload panic = lift panic

  module _ (r : AsyncRead) where
    -- The datagram that arrived goes to the client.
    unfoldable pub on_datagram : Session → List ℕ × SocketAddr → Exec (r.Stream × net.World) Round
    on_datagram session (payload, source) = do
      frame ← lift (build_udp_frame source payload)
      await_io (on_world (net.write_client frame))
      pure (go_on (add_received session (length payload)))

    unfoldable pub on_frame :
        net.Socket → Session → Option UdpFrame → Exec (r.Stream × net.World) Round
    unfolding resolve_target send_frame
    on_frame socket session none = pure (stop session)
    on_frame socket session (some frame) = do
      target ← perform (on_world (resolve_target frame.address))
      on_world (send_frame socket session frame.payload target)

    -- The branch of `select!` that came first, none if the time was over. A read that is dropped
    -- keeps what it had taken.
    unfoldable pub event_of : net.Socket → Select → Exec (r.Stream × net.World) (Option UdpEvent)
    event_of socket elapsed = pure none
    event_of socket client = do
      frame ← attempt (on_stream (read_udp_frame r))
      pure (some (client_event frame))
    event_of socket (remote taken) = do
      perform (on_stream (r.read_exact taken))
      datagram ← await_result (on_world (net.recv_from socket udp_buffer_size))
      pure (some (remote_event datagram))

    unfoldable pub on_event :
        net.Socket → Session → Option UdpEvent → Exec (r.Stream × net.World) Round
    unfolding on_frame on_datagram
    on_event socket session none = pure (stop session)
    on_event socket session (some (client_event (ok frame))) = on_frame socket session frame
    on_event socket session (some (client_event (err e))) = raise e
    on_event socket session (some (client_event panic)) = lift panic
    on_event socket session (some (remote_event (done datagram))) = on_datagram session datagram
    on_event socket session (some (remote_event (failed e))) = raise (io e)

    unfoldable pub round_of : net.Socket → Session → Select → Exec (r.Stream × net.World) Round
    unfolding event_of on_event
    round_of socket session first = do event ← event_of socket first; on_event socket session event

    unfoldable pub round : net.Socket → ℕ → Session → Exec (r.Stream × net.World) Round
    unfolding round_of
    round socket udp_timeout session = do
      first ← perform (on_world (net.select udp_timeout))
      round_of socket session first

    -- The loop, for so many rounds; none if it still runs then.
    unfoldable pub udp_loop :
        ℕ → net.Socket → ℕ → Session → Exec (r.Stream × net.World) (Option Session)
    unfolding round
    udp_loop zero socket udp_timeout session = pure none
    udp_loop (suc rounds) socket udp_timeout session = do
      ended ← round socket udp_timeout session
      elim ended [
        | stop session' ↦ pure (some session')
        | go_on session' ↦ udp_loop rounds socket udp_timeout session'
      ]

    unfoldable pub handle_udp : ℕ → Session → ℕ → Str → Exec (r.Stream × net.World) (Option Session)
    unfolding udp_loop
    handle_udp rounds session udp_timeout udp_bind_addr = do
      socket ←
          await_or (λ e. config (udp_bind_failed udp_bind_addr e))
            (on_world (net.udp_bind udp_bind_addr))
      local_addr ← await_io (on_world (net.local_addr socket))
      udp_loop rounds socket udp_timeout session
