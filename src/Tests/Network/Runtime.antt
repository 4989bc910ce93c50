-- ===== src/Tests/Network/Runtime.antt =====
-- A runtime whose copies read all of an end and write it to another, over the network of the tests.
use rust.Prelude.{ℕ, ◌≡◌, ◌≢◌, refl, sym, ap, some, List, [], ◌++◌, length}
use rust.Exec.{done}
use rust.Io.Finite.{memory_finite}
use rust.Io.Memory.{memory}
use rust.Reality.Splice.{Handle, Copy, Runtime}
use rust.Reality.StateMachine.Direct.{IsCopying, Gave, written}
use rust.Reality.StateMachine.{End, client_end, remote_end}
use rust.Tests.Network.{Line, answer, net, net-IsDelivering}

-- What an end gives, and the state behind it.
abbrev give : End net → List ℕ × Line → List ℕ × (List ℕ × Line)
give client_end (s, w) = (s, ([], w))
give (remote_end remote) (s, w) = (answer, (s, record w { back = w.back ++ answer }))

-- The state once an end was written.
abbrev put : End net → List ℕ → List ℕ × Line → List ℕ × Line
put client_end l (s, w) = (s, record w { out = w.out ++ l })
put (remote_end remote) l (s, w) = (s, record w { sent = w.sent ++ l })

-- One copy, and then the other; a half is its end.
abbrev both :
    Copy (End net) (End net)
    → Copy (End net) (End net)
    → List ℕ × Line
    → (Handle × Handle) × (List ℕ × Line)
both c c' t =
    let (l, t1) = give c.reader t in
    let (l', t2) = give c'.reader (put c.writer l t1) in
    ((some (done (length l)), some (done (length l'))), put c'.writer l' t2)

abbrev pub runtime : Runtime (List ℕ × Line) (End net)
runtime = record { ReadHalf = End net; WriteHalf = End net; split = λ x. (x, x); spawn_both = both }

-- Whichever ends the two copies are between.
copied_both :
    (x y x' y' : End net)
    → x ≢ x'
    → y ≢ y'
    → (t t' : List ℕ × Line) (n n' : ℕ)
    → both (record { reader = x; writer = y }) (record { reader = x'; writer = y' }) t
      ≡ ((some (done n), some (done n')), t')
    → (l : List ℕ) × (l' : List ℕ) × Gave net net-IsDelivering memory memory_finite x t l t'
      × (written net net-IsDelivering memory memory_finite y t'
          ≡ written net net-IsDelivering memory memory_finite y t ++ l)
      × (n ≡ length l)
      × Gave net net-IsDelivering memory memory_finite x' t l' t'
      × (written net net-IsDelivering memory memory_finite y' t'
          ≡ written net net-IsDelivering memory memory_finite y' t ++ l')
      × (n' ≡ length l')
unfolding net-IsDelivering memory_finite
copied_both client_end y client_end y' p q t t' n n' e = absurd (p refl)
copied_both (remote_end u) y (remote_end v) y' p q t t' n n' e = absurd (p refl)
copied_both x client_end x' client_end p q t t' n n' e = absurd (q refl)
copied_both x (remote_end u) x' (remote_end v) p q t t' n n' e = absurd (q refl)
copied_both client_end (remote_end v) (remote_end u) client_end p q (s, w) t' n n' e = (
  s,
  answer,
  refl,
  sym (ap (λ p. p.1.1.sent) e),
  cc (ap (λ p. p.0.0) e),
  sym (ap (λ p. p.1.1.back) e),
  sym (ap (λ p. p.1.1.out) e),
  cc (ap (λ p. p.0.1) e),
)
copied_both client_end client_end (remote_end u) (remote_end v) p q (s, w) t' n n' e = (
  s,
  answer,
  refl,
  sym (ap (λ p. p.1.1.out) e),
  cc (ap (λ p. p.0.0) e),
  sym (ap (λ p. p.1.1.back) e),
  sym (ap (λ p. p.1.1.sent) e),
  cc (ap (λ p. p.0.1) e),
)
copied_both (remote_end u) (remote_end v) client_end client_end p q (s, w) t' n n' e = (
  answer,
  s,
  sym (ap (λ p. p.1.1.back) e),
  sym (ap (λ p. p.1.1.sent) e),
  cc (ap (λ p. p.0.0) e),
  refl,
  sym (ap (λ p. p.1.1.out) e),
  cc (ap (λ p. p.0.1) e),
)
copied_both (remote_end u) client_end client_end (remote_end v) p q (s, w) t' n n' e = (
  answer,
  s,
  sym (ap (λ p. p.1.1.back) e),
  sym (ap (λ p. p.1.1.out) e),
  cc (ap (λ p. p.0.0) e),
  refl,
  sym (ap (λ p. p.1.1.sent) e),
  cc (ap (λ p. p.0.1) e),
)

pub runtime-IsCopying : IsCopying net net-IsDelivering memory memory_finite runtime
unfolding net-IsDelivering memory_finite
runtime-IsCopying = record { copies_lem = copied_both }
