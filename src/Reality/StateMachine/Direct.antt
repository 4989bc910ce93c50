-- ===== src/Reality/StateMachine/Direct.antt =====
-- What the splicing of an authenticated connection delivers.
use rust.Prelude.{List, ◌⊎◌, inl, inr, ℕ, ◌≡◌, ◌≢◌, refl, ◌∙◌, Option, none, some, ◌++◌, length}
use rust.Error.{
  Result, ok, err, protocol, timeout, io, join, join_error, udp_not_supported, IoError,
}
use rust.Exec.{IoResult, done, failed, ◌>>=◌}
use rust.Io.{AsyncRead}
use rust.Io.Finite.{IsFinite}
use rust.Protocol.Command.{Command, connect, udp_associate}
use rust.Protocol.Address.{Address}
use rust.Proxy.Net.{Net}
use rust.Proxy.Net.Delivery.{IsDelivering}
use rust.Proxy.Tcp.{connect_target}
use rust.Proxy.Tcp.Transparent.{connect_target_lem}
use rust.Reality.Splice.{Handle, Copy, Runtime, tcp_splice, joined}
use rust.Reality.StateMachine.{
  End, client_end, remote_end, handle_authenticated_connection, connect_within, within_time,
}

module _ (net : Net) (del : IsDelivering net) (r : AsyncRead) (fin : IsFinite r) where
  -- What an end was written.
  abbrev pub written : End net → r.Stream × net.World → List ℕ
  written client_end (s, w) = del.answered w
  written (remote_end remote) (s, w) = del.delivered remote w

  -- These bytes are all that an end gave from one point on, up to its own end, at another point.
  abbrev pub Gave : End net → r.Stream × net.World → List ℕ → r.Stream × net.World → Type 0
  Gave client_end (s, w) l (s', w') = fin.pending s ≡ l
  Gave (remote_end remote) (s, w) l (s', w') = del.returned remote w' ≡ del.returned remote w ++ l

-- What the documentation of tokio promises of two copies that ended without an error, between the
-- halves of any ends, of which they do not read or write one together: each wrote to its end all
-- that its other end gave.
pub record IsCopying (net : Net) (del : IsDelivering net) (r : AsyncRead) (fin : IsFinite r)
    (rt : Runtime (r.Stream × net.World) (End net)) : Type 0 where
  pub copies_lem :
      (x y x' y' : End net)
      → x ≢ x'
      → y ≢ y'
      → (t t' : r.Stream × net.World) (n n' : ℕ)
      → rt.spawn_both
          (record { reader = (rt.split x).0; writer = (rt.split y).1 })
          (record { reader = (rt.split x').0; writer = (rt.split y').1 })
          t
        ≡ ((some (done n), some (done n')), t')
      → (l : List ℕ) × (l' : List ℕ) × Gave net del r fin x t l t'
        × (written net del r fin y t' ≡ written net del r fin y t ++ l)
        × (n ≡ length l)
        × Gave net del r fin x' t l' t'
        × (written net del r fin y' t' ≡ written net del r fin y' t ++ l')
        × (n' ≡ length l')

module _ (net : Net) (del : IsDelivering net) (r : AsyncRead) (fin : IsFinite r)
    (rt : Runtime (r.Stream × net.World) (End net)) (copying : IsCopying net del r fin rt)
    (target : Address) (seconds : ℕ) (s : r.Stream) (w : net.World) where
  -- The copy from one end to another.
  abbrev pub from_to : End net → End net → Copy rt.ReadHalf rt.WriteHalf
  from_to x y = record { reader = (rt.split x).0; writer = (rt.split y).1 }

  -- The two tasks between the client and the target.
  abbrev pub copies : net.Remote → r.Stream × net.World → (Handle × Handle) × (r.Stream × net.World)
  copies remote =
      rt.spawn_both (from_to client_end (remote_end remote))
        (from_to (remote_end remote) client_end)

  -- How such a connection ends.
  pub data Outcome : Command → Result (Unit {0}) × (r.Stream × net.World) → Type 0 where
    unsupported : Outcome udp_associate (err (protocol udp_not_supported), (s, w))
    timed_out :
        (w' : net.World)
        → net.timeout seconds (connect_target net target) w ≡ (none, w')
        → Outcome connect (err timeout, (s, w'))
    refused :
        (e : IoError) (w' : net.World)
        → connect_target net target w ≡ (failed e, w')
        → Outcome connect (err (io e), (s, w'))
    stopped :
        (remote : net.Remote) (handles : Handle × Handle) (s' : r.Stream) (w1 w' : net.World)
        → connect_target net target w ≡ (done remote, w1)
        → copies remote (s, w1) ≡ (handles, (s', w'))
        → (handles.0 ≡ none) ⊎ (handles.1 ≡ none)
        → Outcome connect (err (join join_error), (s', w'))
    broken :
        (remote : net.Remote) (handles : Handle × Handle) (e : IoError) (s' : r.Stream)
        (w1 w' : net.World)
        → connect_target net target w ≡ (done remote, w1)
        → copies remote (s, w1) ≡ (handles, (s', w'))
        → (handles.0 ≡ some (failed e)) ⊎ (handles.1 ≡ some (failed e))
        → Outcome connect (err (io e), (s', w'))
    spliced :
        (remote : net.Remote) (s' : r.Stream) (w1 w' : net.World)
        → connect_target net target w ≡ (done remote, w1)
        → del.delivered remote w' ≡ fin.pending s
        → del.answered w' ≡ del.answered w ++ del.returned remote w'
        → Outcome connect (ok tt, (s', w'))

  copied :
      (remote : net.Remote) (w1 : net.World)
      → connect_target net target w ≡ (done remote, w1)
      → (result : (Handle × Handle) × (r.Stream × net.World)) → copies remote (s, w1) ≡ result
      → Outcome connect (
          (tcp_splice rt client_end (remote_end remote) >>= λ total. λ state. (ok tt, state))
            (s, w1))
  unfolding tcp_splice joined ◌>>=◌
  copied remote w1 c ((none, rx), (s', w')) q =
      rw q (stopped remote (none, rx) s' w1 w' c q (inl refl))
  copied remote w1 c ((some (done tx), none), (s', w')) q =
      rw q (stopped remote (some (done tx), none) s' w1 w' c q (inr refl))
  copied remote w1 c ((some (failed e), none), (s', w')) q =
      rw q (stopped remote (some (failed e), none) s' w1 w' c q (inr refl))
  copied remote w1 c ((some (failed e), some rx), (s', w')) q =
      rw q (broken remote (some (failed e), some rx) e s' w1 w' c q (inl refl))
  copied remote w1 c ((some (done tx), some (failed e)), (s', w')) q =
      rw q (broken remote (some (done tx), some (failed e)) e s' w1 w' c q (inr refl))
  copied remote w1 c ((some (done tx), some (done rx)), (s', w')) q =
      let (up, down, given, sent, _, returned, answered, _) =
        copying.copies_lem client_end (remote_end remote) (remote_end remote) client_end (λ e. cc)
          (λ e. cc) (s, w1) (s', w') tx rx q in
      let (fresh, silent, same) = connect_target_lem net del r fin target w w1 remote c in
      rw q (
        spliced remote s' w1 w' c (sent ∙ rw (fresh, given) refl)
          (answered ∙ rw (same, returned, silent) refl))

  attempted :
      (attempt : Option (IoResult net.Remote) × net.World)
      → net.timeout seconds (connect_target net target) w ≡ attempt
      → Outcome connect (handle_authenticated_connection net r rt connect target seconds (s, w))
  unfolding ◌>>=◌ handle_authenticated_connection connect_within within_time
  attempted (none, w') q = rw q (timed_out w' q)
  attempted (some (failed e), w') q = rw q (
      refused e w'
        (del.timeout_lem net.Remote seconds (connect_target net target) w w' (failed e) q))
  attempted (some (done remote), w') q = rw q (
      copied remote w'
        (del.timeout_lem net.Remote seconds (connect_target net target) w w' (done remote) q) _
        refl)

  -- Over a network and copies that keep tokio's promises, whichever ends the copies are between, an
  -- authenticated connection ends in one of these ways. For `udp_associate` it is refused with nothing
  -- done. For `connect` it times out, is refused, stops, breaks, or succeeds: then, by the halves that
  -- `tcp_splice` gives its two copies, the target got all bytes of the client's stream, and the client
  -- was written all that the target sent.
  pub handle_authenticated_connection-Outcome :
      (command : Command)
      → Outcome command (handle_authenticated_connection net r rt command target seconds (s, w))
  unfolding handle_authenticated_connection ◌>>=◌
  handle_authenticated_connection-Outcome connect = attempted _ refl
  handle_authenticated_connection-Outcome udp_associate = unsupported
