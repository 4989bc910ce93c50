-- ===== src/Proxy/Relay.antt =====
-- src/proxy/relay.rs
use rust.Prelude.{ℕ}
use rust.Exec.{Exec, await_io, pure, ◌>>=◌}
use rust.Io.{AsyncRead}
use rust.Proxy.Net.{Net}

unfoldable pub relay :
    (net : Net) (r : AsyncRead) → net.Remote → Exec (r.Stream × net.World) (ℕ × ℕ)
relay net r remote = do counts ← await_io (net.copy_bidirectional r remote); pure counts
