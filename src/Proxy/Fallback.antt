-- ===== src/Proxy/Fallback.antt =====
-- src/proxy/fallback.rs: peeking at the client, the stream that gives back peeked bytes, and the
-- transparent fallback.
pub mod Prefixed
pub mod Transparent
pub mod Write
use rust.Prelude.{
  is_empty, ℕ, ◌+◌, ◌-◌, min, List, [], ◌∷◌, ltb, if◌then◌else◌, length, take, drop, Bool, true,
  false, not, Option,
}
use rust.Error.{remote_connect_failed, fallback_failed, ok}
use rust.Bytes.{Str}
use rust.Exec.{Io, done, Exec, pure, await_io, await_or, ◌>>=◌, ◌>>◌}
use rust.Io.{AsyncRead}
use rust.Proxy.Net.{Net, on_world}

-- `prefix` is a cursor: the bytes and the position in them.
pub record PrefixedStream (S : Type 0) : Type 0 where
  pub prefix : List ℕ
  pub position : ℕ
  pub inner : S

module _ {S : Type 0} where
  unfoldable pub new : List ℕ → S → PrefixedStream S
  new prefix inner = record { prefix = prefix; position = 0; inner = inner }

  -- `Cursor::poll_read`
  cursor_read : ℕ → PrefixedStream S → List ℕ
  cursor_read n s = take n (drop s.position s.prefix)

  -- `PrefixedStream::poll_read`, with a buffer of `n` bytes.
  unfoldable pub poll_read : (ℕ → Io S (List ℕ)) → ℕ → Io (PrefixedStream S) (List ℕ)
  unfolding cursor_read
  poll_read read n s =
      if ltb 0 (length s.prefix - s.position)
      then (done (cursor_read n s), record s { position = s.position + length (cursor_read n s) })
      else (let (b, inner) = read n s.inner in (b, record s { inner = inner }))

unfoldable pub peek_client_data : (r : AsyncRead) → ℕ → Exec r.Stream (List ℕ)
peek_client_data r capacity = await_io (r.read capacity)

module _ (net : Net) where
  -- The replay of the peeked bytes, if there are any.
  unfoldable pub replay : {S : Type 0} → net.Remote → List ℕ → Exec (S × net.World) (Unit {0})
  replay remote peeked_buf =
      if is_empty peeked_buf then pure tt else await_io (on_world (net.write_all remote peeked_buf))

  unfoldable pub handle_fallback :
      (r : AsyncRead) → List ℕ → Str → Exec (r.Stream × net.World) (Unit {0})
  unfolding replay
  handle_fallback r peeked_buf fallback_addr = do
    remote ←
        await_or (λ e. remote_connect_failed (fallback_failed fallback_addr e))
          (on_world (net.connect_host fallback_addr))
    replay remote peeked_buf
    counts ← await_io (net.copy_bidirectional r remote)
    pure tt
