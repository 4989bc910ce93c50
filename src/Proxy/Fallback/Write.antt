-- ===== src/Proxy/Fallback/Write.antt =====
-- src/proxy/fallback.rs: the writing half of a prefixed stream, which passes each call on to the
-- inner stream.
use rust.Prelude.{ℕ, List}
use rust.Exec.{Io}
use rust.Proxy.Fallback.{PrefixedStream}

module _ {S : Type 0} where
  unfoldable on_inner : {A : Type 0} → Io S A → Io (PrefixedStream S) A
  on_inner poll s = let (result, inner) = poll s.inner in (result, record s { inner = inner })

  unfoldable pub poll_write : (List ℕ → Io S ℕ) → List ℕ → Io (PrefixedStream S) ℕ
  unfolding on_inner
  poll_write write buf = on_inner (write buf)

  unfoldable pub poll_flush : Io S (Unit {0}) → Io (PrefixedStream S) (Unit {0})
  unfolding on_inner
  poll_flush flush = on_inner flush

  unfoldable pub poll_shutdown : Io S (Unit {0}) → Io (PrefixedStream S) (Unit {0})
  unfolding on_inner
  poll_shutdown shutdown = on_inner shutdown
