-- ===== src/Server.antt =====
-- src/server.rs: the decision on a client's first bytes, and what is then done with the connection.
pub mod Peek
pub mod HeaderEnd
pub mod Connection
pub mod Prefix
pub mod Delivery
pub mod Datagrams
pub mod Accounting
pub mod Accept
use rust.Prelude.{
  is_empty, ℕ, zero, suc, ◌+◌, ◌-◌, Option, none, some, List, [], ◌∷◌, ◌++◌, leb, if◌then◌else◌,
  length,
}
use rust.Error
use rust.Error.{Result, ok, err, panic}
use rust.Bytes.{Str, slice_from}
use rust.Exec.{Exec, pure, raise, lift, ◌>>=◌}
use rust.Io.{AsyncRead}
use rust.Io.Extension.{AsyncReadExt, reader}
use rust.Config.{Config}
use rust.Protocol.Command.{Command, connect, udp_associate}
use rust.Protocol.Address.{Address, SocketAddr, parse_from_buf}
use rust.Protocol.Header.{Header, peek_size, password_hex_len, try_parse_from_buf, verify_password}
use rust.Proxy.Net.{Net}
use rust.Proxy.Fallback
use rust.Proxy.Fallback.{PrefixedStream, peek_client_data, poll_read, handle_fallback}
use rust.Proxy.Session
use rust.Proxy.Session.{Session}
use rust.Proxy.Tcp.{handle_tcp}
use rust.Proxy.Udp.{handle_udp}

-- What the peek loop ends with: nothing was sent, the bytes go to the fallback, or a user's header
-- stands in them. `out_of_rounds` is no outcome of the code: the model's fuel ended.
pub data Decision : Type 0 where
  dropped out_of_rounds : Decision
  fallback : List ℕ → Decision
  accepted : Header → List ℕ → Decision

-- The end of the stream: silence if it gave nothing.
unfoldable pub at_end : List ℕ → Decision
at_end peeked = if is_empty peeked then dropped else fallback peeked

-- The match on what the parser says of the peeked bytes; `rest` goes on reading.
unfoldable pub decide :
    {S : Type 0} → List Str → List ℕ → Result (Option Header) → Exec S Decision → Exec S Decision
decide passwords peeked (ok (some h)) rest =
    if verify_password h passwords then pure (accepted h peeked) else pure (fallback peeked)
decide passwords peeked (ok none) rest = rest
decide passwords peeked (err e) rest = pure (fallback peeked)
decide passwords peeked panic rest = lift panic

module _ (r : AsyncRead) (passwords : List Str) where
  -- Step 1 and 2 of `handle_connection`. Each round that goes on has read a byte at least, so that
  -- `peek_size + 1` rounds are enough.
  unfoldable pub peek_loop : ℕ → List ℕ → Exec r.Stream Decision
  peek_loop zero peeked = pure out_of_rounds
  peek_loop (suc rounds) peeked =
      if leb peek_size (length peeked) then pure (fallback peeked) else do
        chunk ← peek_client_data r (peek_size - length peeked)
        if is_empty chunk
            then pure (at_end peeked)
            else (let peeked' = peeked ++ chunk in
                decide passwords peeked' (try_parse_from_buf peeked') (peek_loop rounds peeked'))

-- Where the header ends in the peeked bytes.
abbrev pub header_end_of : List ℕ → ℕ → Result (Address × Option ℕ) → Result ℕ
header_end_of buf addr_start (ok (_, some addr_len)) = ok (addr_start + addr_len + 2)
header_end_of buf addr_start (ok (_, none)) = ok (length buf)
header_end_of buf addr_start (err e) = ok (length buf)
header_end_of buf addr_start panic = panic

unfoldable pub compute_header_end : Header → List ℕ → Result ℕ
compute_header_end header buf =
    let addr_start = password_hex_len + 2 + 1 in
    if leb (length buf) addr_start
    then ok (length buf)
    else Error.◌>>=◌ (slice_from buf addr_start)
        (λ rest. header_end_of buf addr_start (parse_from_buf rest))

-- Step 4: the proxy for the command. The clock is read for the session's start.
module _ (net : Net) (ext : AsyncReadExt) (r : AsyncRead) (config : Config) where
  -- The client's stream behind the header.
  abbrev pub prefixed : AsyncRead
  prefixed = reader ext (PrefixedStream r.Stream) (poll_read r.read)

  -- By the command. The UDP association is run for so many rounds; no session as its result means
  -- that it still runs then.
  unfoldable pub proxy :
      ℕ → Header → Session → Command → Exec (PrefixedStream r.Stream × net.World) (Option Session)
  proxy rounds header session connect = do
    ended ← handle_tcp net prefixed header.address session config.tcp_timeout
    pure (some ended)
  proxy rounds header session udp_associate =
      handle_udp net prefixed rounds session config.udp_timeout config.udp_bind_addr

-- How a connection ended without an error: dropped, relayed to the fallback, or proxied.
pub data Ended : Type 0 where
  silent fell_back : Ended
  proxied : Option Session → Ended

abbrev pub map_ok : {A B : Type 0} → (A → B) → Result A → Result B
map_ok f (ok a) = ok (f a)
map_ok f (err e) = err e
map_ok f panic = panic

module _ (net : Net) (ext : AsyncReadExt) (r : AsyncRead) (config : Config)
    (peer_addr : SocketAddr) where
  -- Steps 3 and 4 for an accepted header. `session_id` is the counter of the process.
  unfoldable pub proxy_connection :
      ℕ → Header → PrefixedStream r.Stream → net.World → ℕ → Result Ended × net.World × ℕ
  proxy_connection rounds header client_stream w session_id =
      let (now, w1) = net.now w in
      let (session, session_id') =
        Session.new session_id now peer_addr header.address header.command in
      let (ended, s2) =
        proxy net ext r config rounds header session header.command (client_stream, w1) in
      (map_ok proxied ended, s2.1, session_id')

  -- Behind the header stands what the client's stream begins with.
  unfoldable pub proxy_leftover :
      ℕ → Header → Result (List ℕ) → r.Stream → net.World → ℕ → Result Ended × net.World × ℕ
  proxy_leftover rounds header (ok leftover) stream w session_id =
      proxy_connection rounds header (Fallback.new leftover stream) w session_id
  proxy_leftover rounds header (err e) stream w session_id = (err e, w, session_id)
  proxy_leftover rounds header panic stream w session_id = (panic, w, session_id)

  -- What follows the decision.
  unfoldable pub act_on :
      ℕ → Result Decision → r.Stream → net.World → ℕ → Result Ended × net.World × ℕ
  unfolding proxy_leftover
  act_on rounds (ok dropped) stream w session_id = (ok silent, w, session_id)
  act_on rounds (ok out_of_rounds) stream w session_id = (panic, w, session_id)
  act_on rounds (ok (fallback peeked)) stream w session_id =
      let (ended, s1) = handle_fallback net r peeked config.fallback_addr (stream, w) in
      (map_ok (λ _. fell_back) ended, s1.1, session_id)
  act_on rounds (ok (accepted header peeked)) stream w session_id =
      proxy_leftover rounds header
        (Error.◌>>=◌ (compute_header_end header peeked) (slice_from peeked)) stream w session_id
  act_on rounds (err e) stream w session_id = (err e, w, session_id)
  act_on rounds panic stream w session_id = (panic, w, session_id)

  unfoldable pub handle_connection : ℕ → r.Stream → net.World → ℕ → Result Ended × net.World × ℕ
  unfolding act_on
  handle_connection rounds stream w session_id =
      let (decision, stream') = peek_loop r config.passwords (peek_size + 1) [] stream in
      act_on rounds decision stream' w session_id
