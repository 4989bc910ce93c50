-- ===== src/Server/Accept/Progress.antt =====
-- What the accept loop can always do.
use rust.Prelude.{ℕ, ◌+◌, ◌≤◌, ◌<◌, ◌≡◌, refl, ap, List, [], ◌∷◌, arith, length}
use rust.Config.{Config}
use rust.Server.Accept.{
  Server, ServerTask, Position, acquiring, accepting, acquires, ends, Reach, here, next,
  with_permits, on_permit, on_end,
}
use rust.Server.Accept.Permits.{IsCounted, held, Reach-IsCounted}

Reach-trans : {s t u : Server} → Reach s t → Reach t u → Reach s u
Reach-trans r here = r
Reach-trans r (next q step) = next (Reach-trans r q) step

-- A free permit takes the loop to where it accepts.
with_permit :
    (s : Server)
    → 0 < s.available_permits
    → (position : Position) → s.position ≡ position
    → (t : Server) × Reach s t × (t.position ≡ accepting) × (t.tasks ≡ s.tasks)
unfolding on_permit
with_permit s free acquiring e = (on_permit s, next here (acquires e free), refl, refl)
with_permit s free accepting e = (s, here, e, refl)

ready :
    (n : ℕ) (s : Server) (position : Position) (tasks : List ServerTask)
    → 0 < n
    → IsCounted n s
    → s.position ≡ position
    → s.tasks ≡ tasks
    → (t : Server) × Reach s t × (t.position ≡ accepting) × (length s.tasks ≤ length t.tasks + 1)
unfolding on_end
ready n s accepting tasks some_permit c p e = (s, here, p, omega arith)
ready n s acquiring [] some_permit c p e =
    let (t, r, at, same) =
      with_permit s (omega (arith, c.permits, ap held p, ap length e)) acquiring p in
    (t, r, at, omega (arith, ap length same))
ready n s acquiring (task ∷ tasks) some_permit c p e =
    let freed = on_end [] tasks s in
    let (t, r, at, same) = with_permit freed (omega arith) acquiring p in
    (
      t,
      Reach-trans (next here (ends [] task tasks e)) r,
      at,
      omega (arith, ap length same, ap length e),
    )

-- From every state that a server with a permit at least comes to, it can come to the point where
-- it accepts a connection, with one running task less at most.
pub Reach-accepting :
    (config : Config) (session_id : ℕ) {s : Server}
    → 0 < config.max_connections
    → Reach (with_permits config session_id) s
    → (t : Server) × Reach s t × (t.position ≡ accepting) × (length s.tasks ≤ length t.tasks + 1)
Reach-accepting config session_id {s} some_permit r =
    ready config.max_connections s s.position s.tasks some_permit
      (Reach-IsCounted config session_id r).0 refl refl

-- A server that is configured for no connections never accepts one.
pub Reach-idle :
    (config : Config) (session_id : ℕ) {s : Server}
    → config.max_connections ≡ 0
    → Reach (with_permits config session_id) s
    → (s.position ≡ acquiring) × (s.tasks ≡ [])
Reach-idle config session_id {s} no_permit r = go s.position s.tasks refl refl
  where
    go :
        (position : Position) (tasks : List ServerTask)
        → s.position ≡ position
        → s.tasks ≡ tasks
        → (s.position ≡ acquiring) × (s.tasks ≡ [])
    go acquiring [] p e = (p, e)
    go acquiring (task ∷ tasks) p e =
        absurd (omega (arith, (Reach-IsCounted config session_id r).0.permits, ap length e))
    go accepting tasks p e =
        absurd (omega (arith, (Reach-IsCounted config session_id r).0.permits, ap held p))
