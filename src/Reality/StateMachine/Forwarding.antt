-- ===== src/Reality/StateMachine/Forwarding.antt =====
-- What forwarding does: a target is connected to only behind an authentication.
use rust.Prelude.{ℕ, ◌≡◌, refl, sym, subst, Option, none, some}
use rust.Error.{Result, ok, err, protocol, timeout, io, not_authenticated, IoError}
use rust.Exec.{IoResult, done, failed, Exec, ◌>>=◌}
use rust.Protocol.Command.{Command}
use rust.Protocol.Address.{Address}
use rust.Proxy.Net.{Net}
use rust.Proxy.Net.Delivery.{IsDelivering}
use rust.Proxy.Tcp.{connect_target}
use rust.Reality.StateMachine.{
  ConnectionStateMachine, handshake, authenticated, transition_to_forwarding, forward_from,
  connect_within, within_time,
}
use rust.Reality.StateMachine.Invariant.{IsValid, waits, holds}

module _ (net : Net) (del : IsDelivering net) {S : Type 0} (auth : Exec S (Command × Address))
    (s0 : S) (m : ConnectionStateMachine S) (target : Address) (seconds : ℕ) (w : net.World) where
  -- How forwarding ends: the machine was not authenticated, and nothing is connected to; or its
  -- stream was, and the target does not answer in time, refuses, or is connected to.
  pub data Outcome : Result (S × net.Remote) × net.World → Type 0 where
    unauthenticated : m.state ≡ handshake → Outcome (err (protocol not_authenticated), w)
    timed_out :
        (w' : net.World)
        → m.state ≡ authenticated
        → net.timeout seconds (connect_target net target) w ≡ (none, w')
        → Outcome (err timeout, w')
    refused :
        (e : IoError) (w' : net.World)
        → m.state ≡ authenticated
        → connect_target net target w ≡ (failed e, w')
        → Outcome (err (io e), w')
    forwarded :
        (admitted : Command × Address) (s' : S) (remote : net.Remote) (w' : net.World)
        → auth s0 ≡ (ok admitted, s')
        → connect_target net target w ≡ (done remote, w')
        → Outcome (ok (s', remote), w')

  attempted :
      (admitted : Command × Address) (s' : S)
      → m.state ≡ authenticated
      → auth s0 ≡ (ok admitted, s')
      → (attempt : Option (IoResult net.Remote) × net.World)
      → net.timeout seconds (connect_target net target) w ≡ attempt
      → Outcome (forward_from net target seconds (some s') authenticated w)
  unfolding ◌>>=◌ forward_from connect_within within_time
  attempted admitted s' at proof (none, w') q = rw q (timed_out w' at q)
  attempted admitted s' at proof (some (failed e), w') q = rw q (
      refused e w' at
        (del.timeout_lem net.Remote seconds (connect_target net target) w w' (failed e) q))
  attempted admitted s' at proof (some (done remote), w') q = rw q (
      forwarded admitted s' remote w' proof
        (del.timeout_lem net.Remote seconds (connect_target net target) w w' (done remote) q))

  -- A valid machine forwards in one of these four ways: never does it miss its stream, and a target
  -- is connected to only behind an authentication of the stream that is then forwarded.
  pub transition_to_forwarding-Outcome :
      IsValid auth s0 m → Outcome (transition_to_forwarding net target seconds m w)
  unfolding transition_to_forwarding ◌>>=◌ forward_from
  transition_to_forwarding-Outcome (waits at full unset) =
      subst (λ state. Outcome (forward_from net target seconds m.stream state w)) (sym at)
        (unauthenticated at)
  transition_to_forwarding-Outcome (holds admitted s' at proof full result) =
      subst (λ state. Outcome (forward_from net target seconds m.stream state w)) (sym at)
        (subst (λ stream. Outcome (forward_from net target seconds stream authenticated w))
          (sym full) (attempted admitted s' at proof _ refl))
