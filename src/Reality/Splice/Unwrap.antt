-- ===== src/Reality/Splice/Unwrap.antt =====
-- src/reality/splice.rs: `UnwrapStream`, a stream with a mark.
use rust.Prelude.{ℕ, Bool, true, false, List}
use rust.Exec.{Io}

pub record UnwrapStream (S : Type 0) : Type 0 where
  pub inner : S
  pub decrypted : Bool

module _ {S : Type 0} where
  unfoldable pub new : S → UnwrapStream S
  new inner = record { inner = inner; decrypted = false }

  unfoldable pub into_inner : UnwrapStream S → S
  into_inner u = u.inner

  unfoldable pub is_decrypted : UnwrapStream S → Bool
  is_decrypted u = u.decrypted

  unfoldable pub mark_decrypted : UnwrapStream S → UnwrapStream S
  mark_decrypted u = record u { decrypted = true }

  -- A poll of the inner stream, passed on.
  unfoldable poll_inner : {A : Type 0} → (S → A × S) → UnwrapStream S → A × UnwrapStream S
  poll_inner poll u = let (a, inner) = poll u.inner in (a, record u { inner = inner })

  unfoldable pub poll_read : (ℕ → Io S (List ℕ)) → ℕ → Io (UnwrapStream S) (List ℕ)
  unfolding poll_inner
  poll_read read n = poll_inner (read n)

  unfoldable pub poll_write : (List ℕ → Io S ℕ) → List ℕ → Io (UnwrapStream S) ℕ
  unfolding poll_inner
  poll_write write b = poll_inner (write b)

  unfoldable pub poll_flush : Io S (Unit {0}) → Io (UnwrapStream S) (Unit {0})
  unfolding poll_inner
  poll_flush flush = poll_inner flush

  unfoldable pub poll_shutdown : Io S (Unit {0}) → Io (UnwrapStream S) (Unit {0})
  unfolding poll_inner
  poll_shutdown shutdown = poll_inner shutdown
