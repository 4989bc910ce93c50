-- ===== src/Lib.antt =====
-- A trojan proxy server: what it decides about a connection, and what it then delivers.
--
-- A client sends a header (a password's hash, CRLF, a command, an address, CRLF) and then its
-- payload. `handle_connection` peeks at the first bytes until the parser knows whether a user's
-- header stands in front. A user's payload goes to the TCP or the UDP proxy; all other clients are
-- relayed to a fallback server, which must see each byte as if it were alone. Vision is another
-- request format, with a timestamp and an integrity hash.
--
-- The parts, and the files that model them:
--   Protocol/Command    src/protocol/command.rs
--   Protocol/Address    src/protocol/address.rs: `parse_from_buf`, `encode`, `port`; Read for
--                       `read_from`, Text for `host` and `Display`
--   Protocol/Header     src/protocol/header.rs: `try_parse_from_buf`, `verify_password`,
--                       `hash_password`; Read for `read_from` and `expect_crlf`
--   Proxy/Fallback      src/proxy/fallback.rs: `PrefixedStream`, `handle_fallback`,
--                       `peek_client_data`
--   Proxy/Tcp, Proxy/Relay, Proxy/Session, Proxy/Udp
--                       src/proxy/tcp.rs, relay.rs, session.rs, udp.rs
--   Server              src/server.rs: `handle_connection` and `compute_header_end`
--   Server/Accept       src/server.rs: `Server::new`, the accept loop of `Server::run` and its tasks
--   Reality/Vision      src/reality/vision.rs: the authentication request and `authenticate`
--   Reality/StateMachine
--                       src/reality/state_machine.rs: the machine of a Vision connection, and
--                       `handle_authenticated_connection`
--   Reality/Splice      src/reality/splice.rs: `DirectSplice`, `tcp_splice`, `UnwrapStream`
--   Reality/Handshake   src/reality/handshake.rs: certificates, configurations and the resolver
--   Tls                 src/tls.rs: certificates, the key and the settings of the acceptor
--   Main                src/main.rs: from the arguments to the running server
--   Config              src/config.rs: the settings, `validate` and `validate_host_port`
--   Error               src/error.rs
--   Bytes               what the code uses of the standard library on bytes and strings
--   Exec                async functions: a state, which stays as it is on an error, and a result
--   Io, Proxy/Net       tokio's streams and network, which are parameters; Proxy/Failure lists
--                       the failures of the network that can end a relayed connection
-- The files Wire are descriptions of the layouts that do not use the parsers. Tests has concrete
-- instances of the parameters, and the theorems applied to them.
--
-- `Result` has a third outcome, a panic: an index or a slice out of range gives it. Logging is left
-- out. A stream is any type with a plain read that gives some of its bytes; `IsFinite`, `IsExact`,
-- `IsDelivering`, `IsSending`, `IsAnswering` and `IsCopying` state what the documentation of tokio
-- promises. The world of a network is passed from call to call. `select!` is an answer of the
-- network, which says how much the read that is dropped had taken. A spawned copy is the two halves
-- that it is given; what becomes of two of them is an answer of the runtime.
--
-- Bounds: the peek loop runs on `peek_size + 1` rounds, since each round that goes on has read a
-- byte at least. The UDP loop runs without end in the code; here it runs for a given number of
-- rounds. The splicing loop runs on a given order in which the reads of its `select!` are ready. The
-- counters of sessions and of bytes are 64 bits wide and wrap.
--
-- The accept loop and the tasks that it spawns are steps of one state, in any order: the semaphore is
-- the number of its free permits, and a task holds one until it ends. A machine of `StateMachine` is
-- given to a transition, which gives it back or drops it; its owner's calls are steps too.
--
-- Parameters beside tokio: SHA-224, the hex encoding and the clock; rustls, its PEM files and
-- tokio_rustls; the parser and the texts of IP and socket addresses, the file system and the TOML
-- reader; the outcome of a task's TLS handshake; the arguments as clap reads them, and the filters of
-- the logger; the limit of permits above which `Semaphore::new` panics.
--
-- Not modelled: what rustls does with a configuration and the listener's socket, which are not this
-- repository's code; what the logger writes, which is output only. Arithmetic is that of a build
-- without overflow checks.
pub mod Prelude
pub mod Error
pub mod Bytes
pub mod Exec
pub mod Io
pub mod Protocol
pub mod Config
pub mod Proxy
pub mod Tls
pub mod Server
pub mod Main
pub mod Reality
pub mod Tests
