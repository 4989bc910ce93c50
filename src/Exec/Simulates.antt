-- ===== src/Exec/Simulates.antt =====
-- When an action over one state does what another does over a view of that state.
use rust.Prelude.{◌≡◌, refl, ap, ◌∙◌, Bool, true, false, if◌then◌else◌}
use rust.Error.{TrojanError, Result, ok, err, panic}
use rust.Exec.{Io, Exec, from_io, pure, raise, lift, await_io, await_result, continue, ◌>>=◌}

-- `m` returns what `p` returns at the view, and leaves a state with the view that `p` leaves.
pub record Simulates {S T A : Type 0} (view : S → T) (m : Exec S A) (p : Exec T A) : Type 0 where
  pub result : (s : S) → (m s).0 ≡ (p (view s)).0
  pub state : (s : S) → view (m s).1 ≡ (p (view s)).1

pub record SimulatesIo {S T A : Type 0} (view : S → T) (m : Io S A) (p : Io T A) : Type 0 where
  pub result : (s : S) → (m s).0 ≡ (p (view s)).0
  pub state : (s : S) → view (m s).1 ≡ (p (view s)).1

module _ {S T A : Type 0} {view : S → T} where
  pub Simulates-pure : (a : A) → Simulates view (pure a) (pure a)
  unfolding pure
  Simulates-pure a = record { result = λ s. refl; state = λ s. refl }

  pub Simulates-raise : (e : TrojanError) → Simulates {A = A} view (raise e) (raise e)
  unfolding raise
  Simulates-raise e = record { result = λ s. refl; state = λ s. refl }

  pub Simulates-lift : (r : Result A) → Simulates view (lift r) (lift r)
  unfolding lift
  Simulates-lift r = record { result = λ s. refl; state = λ s. refl }

  pub Simulates-await_io :
      {m : Io S A} {p : Io T A} → SimulatesIo view m p → Simulates view (await_io m) (await_io p)
  unfolding await_io
  Simulates-await_io h = record { result = λ s. ap from_io (h.result s); state = h.state }

  pub Simulates-await_result :
      {m : Io S A} {p : Io T A}
      → SimulatesIo view m p
      → Simulates view (await_result m) (await_result p)
  unfolding await_result
  Simulates-await_result h = record { result = λ s. ap ok (h.result s); state = h.state }

  pub Simulates-if :
      (b : Bool) {m n : Exec S A} {p q : Exec T A}
      → Simulates view m p
      → Simulates view n q
      → Simulates view (if b then m else n) (if b then p else q)
  Simulates-if true hm hn = hm
  Simulates-if false hm hn = hn

module _ {S T A B : Type 0} {view : S → T} where
  Simulates-continue :
      (r : Result A) {f : A → Exec S B} {g : A → Exec T B}
      → ((a : A) → Simulates view (f a) (g a))
      → Simulates view (continue r f) (continue r g)
  Simulates-continue (ok a) h = record { result = (h a).result; state = (h a).state }
  Simulates-continue (err e) h = record { result = λ s. refl; state = λ s. refl }
  Simulates-continue panic h = record { result = λ s. refl; state = λ s. refl }

  pub Simulates-bind :
      {m : Exec S A} {p : Exec T A} {f : A → Exec S B} {g : A → Exec T B}
      → Simulates view m p
      → ((a : A) → Simulates view (f a) (g a))
      → Simulates view (m >>= f) (p >>= g)
  unfolding ◌>>=◌
  Simulates-bind {m} {p} {f} {g} hm hf = record {
    result = λ s. rw (hm.result s) (
        (Simulates-continue (p (view s)).0 hf).result (m s).1
        ∙ ap (λ t. (continue (p (view s)).0 g t).0) (hm.state s));
    state = λ s. rw (hm.result s) (
        (Simulates-continue (p (view s)).0 hf).state (m s).1
        ∙ ap (λ t. (continue (p (view s)).0 g t).1) (hm.state s));
  }

  -- The steps of a reader: await a read, or check a value.
  pub Simulates-await :
      {m : Io S A} {p : Io T A} {f : A → Exec S B} {g : A → Exec T B}
      → SimulatesIo view m p
      → ((a : A) → Simulates view (f a) (g a))
      → Simulates view (await_io m >>= f) (await_io p >>= g)
  Simulates-await hm hf = Simulates-bind (Simulates-await_io hm) hf

  pub Simulates-check :
      (r : Result A) {f : A → Exec S B} {g : A → Exec T B}
      → ((a : A) → Simulates view (f a) (g a))
      → Simulates view (lift r >>= f) (lift r >>= g)
  Simulates-check r hf = Simulates-bind (Simulates-lift r) hf
