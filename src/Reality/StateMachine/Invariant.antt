-- ===== src/Reality/StateMachine/Invariant.antt =====
-- Which states a machine comes to, and what it then holds.
use rust.Prelude.{ap, subst, ℕ, ◌≡◌, refl, Option, none, some, List}
use rust.Error.{Result, ok, err, panic}
use rust.Bytes.{Str}
use rust.Exec.{Exec}
use rust.Io.{AsyncRead}
use rust.Protocol.Command.{Command}
use rust.Protocol.Address.{Address}
use rust.Reality.Vision.{VisionAuthRequest, VisionProtocol, authenticate}
use rust.Reality.StateMachine.{
  ConnectionStateMachine, ConnectionState, handshake, authenticating, authenticated, forwarding,
  fallback, closed, new, set_fallback, on_authenticate, take_stream, from_state,
  transition_to_authenticating,
}

abbrev Machine : Type 0 → Type 0
Machine = ConnectionStateMachine

-- A machine for the stream `s0`: it waits with the stream untouched, or the stream was authenticated,
-- and the machine has the rest of it and what the authentication returned.
pub data IsValid {S : Type 0} (auth : Exec S (Command × Address)) (s0 : S)
    (m : ConnectionStateMachine S) : Type 0 where
  waits : m.state ≡ handshake → m.stream ≡ some s0 → m.auth_result ≡ none → IsValid auth s0 m
  holds :
      (target : Command × Address) (s' : S)
      → m.state ≡ authenticated
      → auth s0 ≡ (ok target, s')
      → m.stream ≡ some s'
      → m.auth_result ≡ some target
      → IsValid auth s0 m

module _ {S : Type 0} (auth : Exec S (Command × Address)) where
  on_authenticate-eq-ok :
      (m : Machine S) (result : Result (Command × Address)) (s' : S) (t : Machine S)
      → (on_authenticate m result s').0 ≡ ok t
      → (target : Command × Address) × (result ≡ ok target)
        × (t ≡ record m { stream = some s'; state = authenticated; auth_result = some target })
  unfolding on_authenticate
  on_authenticate-eq-ok m (ok target) s' t e = (target, refl, cc)
  on_authenticate-eq-ok m (err x) s' t e = cc
  on_authenticate-eq-ok m panic s' t e = cc

  authenticated-IsValid :
      (s0 : S) (m t : Machine S)
      → m.stream ≡ some s0
      → (take_stream auth m m.stream).0 ≡ ok t
      → IsValid auth s0 t
  unfolding take_stream
  authenticated-IsValid s0 m t full run =
      let run' = subst (λ stream. (take_stream auth m stream).0 ≡ ok t) full run in
      let (target, accepted, e) = on_authenticate-eq-ok m (auth s0).0 (auth s0).1 t run' in
      holds target (auth s0).1 (ap (λ u. u.state) e) (λ i. (accepted i, (auth s0).1))
        (ap (λ u. u.stream) e) (ap (λ u. u.auth_result) e)

  from_state-IsValid :
      (s0 : S) (m t : Machine S) (state : ConnectionState)
      → m.state ≡ state
      → (from_state auth m state).0 ≡ ok t
      → IsValid auth s0 m
      → IsValid auth s0 t
  unfolding from_state
  from_state-IsValid s0 m t handshake at run (waits e full unset) =
      authenticated-IsValid s0 m t full run
  from_state-IsValid s0 m t handshake at run (holds target s' e accepted full result) = cc (at, e)
  from_state-IsValid s0 m t authenticating at run v = cc
  from_state-IsValid s0 m t authenticated at run v = cc
  from_state-IsValid s0 m t forwarding at run v = cc
  from_state-IsValid s0 m t fallback at run v = cc
  from_state-IsValid s0 m t closed at run v = cc

  set_fallback-IsValid :
      (s0 : S) (m : Machine S) (a : Address)
      → IsValid auth s0 m
      → IsValid auth s0 (set_fallback a m)
  unfolding set_fallback
  set_fallback-IsValid s0 m a (waits e full unset) = waits e full unset
  set_fallback-IsValid s0 m a (holds target s' e accepted full result) =
      holds target s' e accepted full result

module _ (compute_hash : List ℕ → List ℕ) (r : AsyncRead)
    (timeout_of : ℕ
      → Exec r.Stream VisionAuthRequest
      → r.Stream
      → Option (Result VisionAuthRequest) × r.Stream)
    (vision : VisionProtocol) (clock : Option ℕ) (passwords : List Str) where
  abbrev pub Auth : Exec r.Stream (Command × Address)
  Auth = authenticate compute_hash r timeout_of vision clock passwords

  -- What the owner of a machine can do with it and still have one.
  pub data Step (m : ConnectionStateMachine r.Stream)
      : ConnectionStateMachine r.Stream → Type 0 where
    sets : (a : Address) → Step m (set_fallback a m)
    authenticates :
        {t : ConnectionStateMachine r.Stream}
        → (transition_to_authenticating compute_hash r timeout_of vision clock passwords m).0 ≡ ok t
        → Step m t

  pub data Reach (m : ConnectionStateMachine r.Stream)
      : ConnectionStateMachine r.Stream → Type 0 where
    here : Reach m m
    next : {t u : ConnectionStateMachine r.Stream} → Reach m t → Step t u → Reach m u

  Step-IsValid :
      (s0 : r.Stream) {m t : Machine r.Stream} → Step m t → IsValid Auth s0 m → IsValid Auth s0 t
  unfolding transition_to_authenticating
  Step-IsValid s0 {m} (sets a) v = set_fallback-IsValid Auth s0 m a v
  Step-IsValid s0 {m} (authenticates {t} run) v = from_state-IsValid Auth s0 m t m.state refl run v

  -- Whatever calls bring a machine about, from `new` on: it is in `Handshake` with its stream
  -- untouched and no result, or in `Authenticated` with the stream and the result that the
  -- authentication of that stream gave. No caller ever has a machine in another state.
  pub Reach-IsValid :
      (s0 : r.Stream) {m : ConnectionStateMachine r.Stream} → Reach (new s0) m → IsValid Auth s0 m
  unfolding new
  Reach-IsValid s0 here = waits refl refl refl
  Reach-IsValid s0 (next reached step) = Step-IsValid s0 step (Reach-IsValid s0 reached)
