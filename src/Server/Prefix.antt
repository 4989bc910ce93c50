-- ===== src/Server/Prefix.antt =====
-- The client's stream behind the header, which the proxies read.
use rust.Prelude.{◌≡◌}
use rust.Io.{AsyncRead}
use rust.Io.Finite.{IsFinite}
use rust.Io.Extension.{AsyncReadExt, IsExact, IsChunked}
use rust.Config.{Config}
use rust.Proxy.Net.{Net}
use rust.Proxy.Fallback.{PrefixedStream}
use rust.Proxy.Fallback.Prefixed.{remaining, poll_read-IsChunked}
use rust.Server.{prefixed}

-- Plain reads of a finite stream are parts of it.
finite-IsChunked : (r : AsyncRead) (fin : IsFinite r) → IsChunked fin.pending r.read
finite-IsChunked r fin = record { chunk = fin.read_chunk }

module _ (net : Net) (ext : AsyncReadExt) (exact : IsExact ext) (r : AsyncRead) (fin : IsFinite r)
    (config : Config) where
  -- The stream behind the header reads as a finite stream.
  pub prefixed-IsFinite :
      (f : IsFinite (prefixed net ext r config)) × ((s : PrefixedStream r.Stream)
        → f.pending s ≡ remaining fin.pending s)
  prefixed-IsFinite =
      exact.finite _ _ (remaining fin.pending)
        (poll_read-IsChunked r.read fin.pending (finite-IsChunked r fin))
