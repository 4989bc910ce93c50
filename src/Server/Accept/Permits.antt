-- ===== src/Server/Accept/Permits.antt =====
-- The semaphore's permits: who holds them, in whatever order the loop and its tasks run.
use rust.Prelude.{some, ap, ℕ, ◌+◌, ◌≤◌, ◌≡◌, ◌∷◌, arith, length, length-append}
use rust.Exec.{done, failed}
use rust.Config.{Config}
use rust.Server.Accept.{
  Server, Position, acquiring, accepting, Step, acquires, accepts, opens, ends, Reach, here, next,
  with_permits, on_permit, on_accept, on_session, on_end,
}

-- The permits that the loop itself holds.
abbrev pub held : Position → ℕ
held acquiring = 0
held accepting = 1

-- Each permit is free, with the loop or with one task.
pub record IsCounted (max_connections : ℕ) (s : Server) : Type 0 where
  pub permits : s.available_permits + held s.position + length s.tasks ≡ max_connections

Step-IsCounted : {n : ℕ} {s t : Server} → Step s t → IsCounted n s → IsCounted n t
unfolding on_permit on_accept on_session on_end
Step-IsCounted (acquires p free) c = record { permits = ground (arith, c.permits) }
Step-IsCounted (accepts (done a) p) c = record { permits = ground (arith, c.permits) }
Step-IsCounted (accepts (failed e) p) c = record { permits = ground (arith, c.permits) }
Step-IsCounted {s = s} (opens before task after e no_session) c = record {
  permits = omega (
    arith,
    c.permits,
    ap length e,
    length-append before (task ∷ after),
    length-append before (record task { session = some s.session_id } ∷ after),
  );
}
Step-IsCounted (ends before task after e) c = record {
  permits = omega (
    arith,
    c.permits,
    ap length e,
    length-append before (task ∷ after),
    length-append before after,
  );
}

pub Reach-IsCounted_from : {n : ℕ} {s t : Server} → IsCounted n s → Reach s t → IsCounted n t
Reach-IsCounted_from c here = c
Reach-IsCounted_from c (next r step) = Step-IsCounted step (Reach-IsCounted_from c r)

with_permits-IsCounted :
    (config : Config) (session_id : ℕ)
    → IsCounted config.max_connections (with_permits config session_id)
unfolding with_permits
with_permits-IsCounted config session_id = record { permits = omega arith }

-- From the start of the server on, in whatever order the accept loop and its tasks run, each of the
-- configured permits is free, with the loop or with exactly one running task; so there are never
-- more tasks than `max_connections`.
pub Reach-IsCounted :
    (config : Config) (session_id : ℕ) {s : Server}
    → Reach (with_permits config session_id) s
    → IsCounted config.max_connections s × (length s.tasks ≤ config.max_connections)
Reach-IsCounted config session_id r =
    let c = Reach-IsCounted_from (with_permits-IsCounted config session_id) r in
    (c, omega (arith, c.permits))
