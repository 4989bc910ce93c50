-- ===== src/Proxy/Session.antt =====
-- src/proxy/session.rs: the record of one proxied connection. Its counters are u64 atomics, which
-- wrap; the clock enters as the time that the caller read.
use rust.Prelude.{ℕ, ◌+◌, ◌-◌, ◌%◌, ◌^◌}
use rust.Protocol.Address.{Address, SocketAddr}
use rust.Protocol.Command.{Command}

abbrev pub u64_mod : ℕ
u64_mod = 2 ^ 64

-- The first value of `SESSION_ID`.
abbrev pub session_id_start : ℕ
session_id_start = 1

-- `AtomicU64::fetch_add`
unfoldable pub fetch_add : ℕ → ℕ → ℕ
fetch_add counter n = (counter + n) % u64_mod

pub record Session : Type 0 where
  pub id : ℕ
  pub client_addr : SocketAddr
  pub target : Address
  pub command : Command
  pub start_time : ℕ
  pub bytes_sent : ℕ
  pub bytes_received : ℕ

-- The session, and the global `SESSION_ID` behind it.
unfoldable pub new : ℕ → ℕ → SocketAddr → Address → Command → Session × ℕ
unfolding fetch_add
new session_id now client_addr target command = (
  record {
    id = session_id;
    client_addr = client_addr;
    target = target;
    command = command;
    start_time = now;
    bytes_sent = 0;
    bytes_received = 0;
  },
  fetch_add session_id 1,
)

unfoldable pub duration : Session → ℕ → ℕ
duration s now = now - s.start_time

unfoldable pub add_sent : Session → ℕ → Session
unfolding fetch_add
add_sent s bytes = record s { bytes_sent = fetch_add s.bytes_sent bytes }

unfoldable pub add_received : Session → ℕ → Session
unfolding fetch_add
add_received s bytes = record s { bytes_received = fetch_add s.bytes_received bytes }
