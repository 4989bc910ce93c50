-- ===== src/Tests/Accept.antt =====
-- The theorems on the accept loop, at a server that has taken one connection.
use rust.Prelude.{◌++◌, All-append, subst, ℕ, ◌+◌, ◌≤◌, ◌≡◌, refl, none, [], arith, length}
use rust.Exec.{done}
use rust.Config.{Config}
use rust.Io.Memory.{memory}
use rust.Server.Accept.{
  Server, ServerTask, accepting, with_permits, on_permit, on_accept, on_session, serve, Reach, here,
  next, acquires, accepts, opens,
}
use rust.Server.Accept.Permits.{IsCounted, Reach-IsCounted}
use rust.Server.Accept.Sessions.{uses, opened, Reach-once}
use rust.Server.Accept.Progress.{Reach-accepting}
use rust.Server.Accept.Service.{Served, serve-Served}
use rust.Protocol.Header.Wire.{wire, wire-AreBytes}
use rust.Io.Finite.{memory_finite}
use rust.Bytes.{IsByte, AreBytes}
use rust.Exec.Inversion.{done-injective}
use rust.Tests.Ext.{ext}
use rust.Tests.Network.{idle, net}
use rust.Tests.Data.{
  localhost, server, request, user_header, user_header-IsHeader, request-AreBytes,
}

abbrev task : ServerTask
task = record { peer_addr = localhost; session = none }

-- A connection was accepted.
abbrev busy : Server
busy = on_accept (done localhost) (on_permit (with_permits server 7))

busy-Reach : Reach (with_permits server 7) busy
unfolding with_permits on_permit
busy-Reach = next (next here (acquires refl (omega arith))) (accepts (done localhost) refl)

-- Its task has a session.
abbrev serving : Server
serving = on_session [] task [] busy

serving-Reach : Reach (with_permits server 7) serving
unfolding on_accept on_permit with_permits
serving-Reach = next busy-Reach (opens [] task [] refl refl)

-- No connection is allowed.
abbrev shut : Config
shut = record server { max_connections = 0 }

Reach-IsCounted_example : IsCounted 1024 serving × (length serving.tasks ≤ 1024)
Reach-IsCounted_example = Reach-IsCounted server 7 serving-Reach

Reach-accepting_example :
    (t : Server) × Reach serving t
    × (t.position ≡ accepting)
    × (length serving.tasks ≤ length t.tasks + 1)
Reach-accepting_example = Reach-accepting server 7 (omega arith) serving-Reach

Reach-once_example :
    (serving.session_id ≡ 7 + opened serving-Reach) × ((id : ℕ) → uses id serving.tasks ≤ 1)
unfolding opened serving-Reach busy-Reach
Reach-once_example = Reach-once server 7 serving-Reach (omega arith)

serve-Served_example :
    Served net ext memory memory_finite server localhost 1 busy [] task [] idle
      (done (wire user_header ++ request))
      (serve net ext memory server localhost 1
        (done (wire user_header ++ request))
        idle
        busy.session_id)
unfolding memory_finite
serve-Served_example =
    serve-Served net ext memory memory_finite server localhost 1 busy [] task [] idle
      (done (wire user_header ++ request))
      (λ s e. subst AreBytes (done-injective e) (
        All-append IsByte (wire user_header) request
          (wire-AreBytes user_header user_header-IsHeader) request-AreBytes))
