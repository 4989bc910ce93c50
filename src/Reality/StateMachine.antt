-- ===== src/Reality/StateMachine.antt =====
-- src/reality/state_machine.rs: the states of a Vision connection. Its methods take the machine and
-- give it back, or drop it beside an error.
pub mod Invariant
pub mod Forwarding
pub mod Direct
use rust.Prelude.{ℕ, ◌≡◌, Option, none, some, List, ◌∷◌}
use rust.Error.{
  Result, ok, err, panic, protocol, timeout, io, invalid_transition, missing_stream,
  missing_authenticated_stream, not_authenticated, udp_not_supported,
}
use rust.Bytes.{Str}
use rust.Exec.{Io, IoResult, done, failed, Exec, pure, raise, lift, perform, from_io, ◌>>=◌}
use rust.Io.{AsyncRead}
use rust.Protocol.Command.{Command, connect, udp_associate}
use rust.Protocol.Address.{Address}
use rust.Proxy.Net.{Net, on_world}
use rust.Proxy.Tcp.{connect_target}
use rust.Reality.Splice.{Runtime, tcp_splice}
use rust.Reality.Vision.{VisionAuthRequest, VisionProtocol, authenticate}

pub data ConnectionState : Type 0 where
  handshake authenticating authenticated forwarding fallback closed : ConnectionState

pub record ConnectionStateMachine (S : Type 0) : Type 0 where
  pub stream : Option S
  pub state : ConnectionState
  pub auth_result : Option (Command × Address)
  pub fallback_address : Option Address

-- The state after a refused authentication.
unfoldable pub refused_state : Option Address → ConnectionState
refused_state (some _) = fallback
refused_state none = closed

module _ {S : Type 0} where
  unfoldable pub new : S → ConnectionStateMachine S
  new stream = record {
    stream = some stream;
    state = handshake;
    auth_result = none;
    fallback_address = none;
  }

  unfoldable pub set_fallback : Address → ConnectionStateMachine S → ConnectionStateMachine S
  set_fallback address m = record m { fallback_address = some address }

  unfoldable pub into_stream : ConnectionStateMachine S → Option S
  into_stream m = m.stream

  unfoldable pub get_auth_result : ConnectionStateMachine S → Option (Command × Address)
  get_auth_result m = m.auth_result

  -- The outcome of the authentication, which leaves `stream`: what the method returns, and the
  -- machine in its last state, which is returned or dropped.
  unfoldable pub on_authenticate :
      ConnectionStateMachine S
      → Result (Command × Address)
      → S
      → Result (ConnectionStateMachine S) × ConnectionStateMachine S
  unfolding refused_state
  on_authenticate m (ok target) stream =
      let m' : ConnectionStateMachine S = record m {
        stream = some stream;
        state = authenticated;
        auth_result = some target;
      } in
      (ok m', m')
  on_authenticate m (err e) stream =
      (err e, record m { stream = some stream; state = refused_state m.fallback_address })
  on_authenticate m panic stream = (panic, record m { stream = none })

  -- The method behind its test of the state, for a way to authenticate.
  unfoldable pub take_stream :
      Exec S (Command × Address)
      → ConnectionStateMachine S
      → Option S
      → Result (ConnectionStateMachine S) × ConnectionStateMachine S
  unfolding on_authenticate
  take_stream auth m none = (err (protocol missing_stream), m)
  take_stream auth m (some stream) =
      let (result, stream') = auth stream in on_authenticate m result stream'

  unfoldable pub from_state :
      Exec S (Command × Address)
      → ConnectionStateMachine S
      → ConnectionState
      → Result (ConnectionStateMachine S) × ConnectionStateMachine S
  unfolding take_stream
  from_state auth m handshake = take_stream auth m m.stream
  from_state auth m _ = (err (protocol invalid_transition), m)

module _ (compute_hash : List ℕ → List ℕ) (r : AsyncRead)
    (timeout_of : ℕ
      → Exec r.Stream VisionAuthRequest
      → r.Stream
      → Option (Result VisionAuthRequest) × r.Stream)
    (vision : VisionProtocol) (clock : Option ℕ) where
  unfoldable pub transition_to_authenticating :
      List Str
      → ConnectionStateMachine r.Stream
      → Result (ConnectionStateMachine r.Stream) × ConnectionStateMachine r.Stream
  unfolding from_state
  transition_to_authenticating passwords m =
      from_state (authenticate compute_hash r timeout_of vision clock passwords) m m.state

module _ (net : Net) where
  -- `timeout(.., TcpStream::connect(..)).await.map_err(..)??`
  unfoldable pub within_time : {A : Type 0} → Option (IoResult A) → Result A
  within_time none = err timeout
  within_time (some result) = from_io result

  unfoldable pub connect_within : Address → ℕ → Exec net.World net.Remote
  unfolding within_time
  connect_within target connect_timeout = do
    attempt ← perform (net.timeout connect_timeout (connect_target net target))
    lift (within_time attempt)

  unfoldable pub forward : {S : Type 0} → Address → ℕ → Option S → Exec net.World (S × net.Remote)
  forward target connect_timeout none = raise (protocol missing_authenticated_stream)
  forward target connect_timeout (some stream) = do
    remote ← connect_within target connect_timeout
    pure (stream, remote)

  unfoldable pub forward_from :
      {S : Type 0} → Address → ℕ → Option S → ConnectionState → Exec net.World (S × net.Remote)
  unfolding forward
  forward_from target connect_timeout stream authenticated = forward target connect_timeout stream
  forward_from target connect_timeout stream _ = raise (protocol not_authenticated)

  unfoldable pub transition_to_forwarding :
      {S : Type 0} → Address → ℕ → ConnectionStateMachine S → Exec net.World (S × net.Remote)
  unfolding forward_from
  transition_to_forwarding target connect_timeout m =
      forward_from target connect_timeout m.stream m.state

  -- A stream that is spliced: the client's, or the connection to the target.
  pub data End : Type 0 where
    client_end : End
    remote_end : net.Remote → End

  module _ (r : AsyncRead) (rt : Runtime (r.Stream × net.World) End) where
    unfoldable pub handle_authenticated_connection :
        Command → Address → ℕ → Exec (r.Stream × net.World) (Unit {0})
    unfolding connect_within
    handle_authenticated_connection connect address connect_timeout = do
      remote ← on_world (connect_within address connect_timeout)
      total_bytes ← tcp_splice rt client_end (remote_end remote)
      pure tt
    handle_authenticated_connection udp_associate address connect_timeout =
        raise (protocol udp_not_supported)
