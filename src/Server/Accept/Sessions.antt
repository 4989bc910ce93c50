-- ===== src/Server/Accept/Sessions.antt =====
-- The numbers of the sessions: no two tasks have the same.
use rust.Prelude.{
  ℕ, ◌+◌, ◌^◌, ◌≤◌, ◌<◌, ◌≡◌, refl, ap, Option, none, some, List, [], ◌∷◌, ◌++◌, arith, ◌==◌,
  if◌then◌else◌, suc,
}
use rust.Exec.{done, failed}
use rust.Config.{Config}
use rust.Server.Accept.{
  Server, ServerTask, acquires, accepts, opens, ends, Reach, here, next, with_permits, on_permit,
  on_accept, on_session, on_end,
}

-- 1 if the session has this number.
abbrev has_id : ℕ → Option ℕ → ℕ
has_id id none = 0
has_id id (some session) = if session == id then 1 else 0

-- How many of the tasks have the session of this number.
pub uses : ℕ → List ServerTask → ℕ
uses id [] = 0
uses id (task ∷ tasks) = has_id id task.session + uses id tasks

uses-append : (id : ℕ) (xs ys : List ServerTask) → uses id (xs ++ ys) ≡ uses id xs + uses id ys
unfolding uses
uses-append id [] ys = omega arith
uses-append id (x ∷ xs) ys = omega (arith, uses-append id xs ys)

-- How many sessions were opened on the way.
unfoldable pub opened : {s t : Server} → Reach s t → ℕ
opened here = 0
opened (next r (acquires p free)) = opened r
opened (next r (accepts result p)) = opened r
opened (next r (opens before task after e fresh)) = suc (opened r)
opened (next r (ends before task after e)) = opened r

-- The numbers in use are drawn from the counter, each by one task.
record AreFresh (s : Server) : Type 0 where
  once : (id : ℕ) → uses id s.tasks ≤ 1
  drawn : (id : ℕ) → s.session_id ≤ id → uses id s.tasks ≡ 0

-- The uses of a number after a task without a session has come to one.
uses-on_session :
    (id n : ℕ) (before : List ServerTask) (task : ServerTask) (after : List ServerTask)
    → task.session ≡ none
    → uses id (before ++ record task { session = some n } ∷ after)
      ≡ (if n == id then 1 else 0) + uses id (before ++ task ∷ after)
unfolding uses
uses-on_session id n before task after fresh = omega (
  arith,
  uses-append id before (record task { session = some n } ∷ after),
  uses-append id before (task ∷ after),
  ap (has_id id) fresh,
)

on_session-AreFresh :
    (s : Server) (before : List ServerTask) (task : ServerTask) (after : List ServerTask)
    → s.tasks ≡ before ++ task ∷ after
    → task.session ≡ none
    → (on_session before task after s).session_id ≡ s.session_id + 1
    → AreFresh s
    → AreFresh (on_session before task after s)
unfolding on_session
on_session-AreFresh s before task after e fresh room f = record {
  once = λ id. ground (
    arith,
    f.once id,
    f.drawn id,
    ap (uses id) e,
    uses-on_session id s.session_id before task after fresh,
  );
  drawn = λ id h.
      ground (
        arith,
        f.drawn id,
        ap (uses id) e,
        uses-on_session id s.session_id before task after fresh,
      );
}

uses-on_end :
    (id : ℕ) (before : List ServerTask) (task : ServerTask) (after : List ServerTask)
    → uses id (before ++ after) ≤ uses id (before ++ task ∷ after)
unfolding uses
uses-on_end id before task after =
    omega (arith, uses-append id before (task ∷ after), uses-append id before after)

on_end-AreFresh :
    (s : Server) (before : List ServerTask) (task : ServerTask) (after : List ServerTask)
    → s.tasks ≡ before ++ task ∷ after
    → AreFresh s
    → AreFresh (on_end before after s)
unfolding on_end
on_end-AreFresh s before task after e f = record {
  once = λ id. omega (arith, f.once id, ap (uses id) e, uses-on_end id before task after);
  drawn = λ id h. omega (arith, f.drawn id h, ap (uses id) e, uses-on_end id before task after);
}

-- `n` sessions were opened since the counter stood at `first`.
record IsDrawn (first n : ℕ) (s : Server) : Type 0 where
  counter : s.session_id ≡ first + n
  fresh : AreFresh s

session_count :
    (first n : ℕ) (s : Server) (before : List ServerTask) (task : ServerTask)
    (after : List ServerTask)
    → s.session_id ≡ first + n
    → first + suc n < 2 ^ 64
    → ((on_session before task after s).session_id ≡ first + suc n)
      × ((on_session before task after s).session_id ≡ s.session_id + 1)
unfolding on_session
session_count first n s before task after e room = ground arith

opened-IsDrawn :
    (first : ℕ) {s t : Server}
    → IsDrawn first 0 s
    → (r : Reach s t) → first + opened r < 2 ^ 64
    → IsDrawn first (opened r) t
unfolding opened on_permit on_accept on_end uses
opened-IsDrawn first d here room = d
opened-IsDrawn first d (next r (acquires p free)) room =
    let i = opened-IsDrawn first d r room in
    record { counter = i.counter; fresh = record { once = i.fresh.once; drawn = i.fresh.drawn } }
opened-IsDrawn first d (next r (accepts (done a) p)) room =
    let i = opened-IsDrawn first d r room in
    record {
      counter = i.counter;
      fresh = record {
        once = λ id. omega (arith, i.fresh.once id);
        drawn = λ id h. omega (arith, i.fresh.drawn id h);
      };
    }
opened-IsDrawn first d (next r (accepts (failed x) p)) room =
    let i = opened-IsDrawn first d r room in
    record { counter = i.counter; fresh = record { once = i.fresh.once; drawn = i.fresh.drawn } }
opened-IsDrawn first d (next {t} r (opens before task after e none_yet)) room =
    let i = opened-IsDrawn first d r (omega arith) in
    let (count, up) = session_count first (opened r) t before task after i.counter room in
    record {
      counter = count;
      fresh = on_session-AreFresh t before task after e none_yet up i.fresh;
    }
opened-IsDrawn first d (next {t} r (ends before task after e)) room =
    let i = opened-IsDrawn first d r room in
    record { counter = i.counter; fresh = on_end-AreFresh t before task after e i.fresh }

new-IsDrawn : (config : Config) (first : ℕ) → IsDrawn first 0 (with_permits config first)
unfolding with_permits uses
new-IsDrawn config first = record {
  counter = omega arith;
  fresh = record { once = λ id. omega arith; drawn = λ id h. refl };
}

-- While the process has opened so few sessions that its counter has not wrapped, the counter is their
-- number above its start, and no two running tasks have a session of the same number.
pub Reach-once :
    (config : Config) (first : ℕ) {s : Server} (r : Reach (with_permits config first) s)
    → first + opened r < 2 ^ 64
    → (s.session_id ≡ first + opened r) × ((id : ℕ) → uses id s.tasks ≤ 1)
Reach-once config first r room =
    let i = opened-IsDrawn first (new-IsDrawn config first) r room in (i.counter, i.fresh.once)
