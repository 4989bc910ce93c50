-- ===== src/Server/Accept.antt =====
-- src/server.rs: `Server::new` and the accept loop of `Server::run`, with the tasks that it spawns.
-- The loop and the tasks run in any order: a step is one of theirs, between two points where it
-- waits. The semaphore is the number of its free permits, and is never closed.
pub mod Permits
pub mod Sessions
pub mod Progress
pub mod Service
use rust.Prelude.{
  ℕ, ◌+◌, ◌-◌, ◌<◌, ◌≡◌, ltb, if◌then◌else◌, Option, none, some, List, [], ◌∷◌, ◌++◌,
}
use rust.Error
use rust.Error.{Result, ok, panic, io}
use rust.Bytes.{Str}
use rust.Exec.{IoResult, done, failed, map_err}
use rust.Io.{AsyncRead}
use rust.Io.Extension.{AsyncReadExt}
use rust.Config.{Config}
use rust.Protocol.Address.{SocketAddr}
use rust.Proxy.Net.{Net}
use rust.Proxy.Session.{fetch_add}
use rust.Server.{handle_connection}

-- Where the loop waits: for a permit, or with one for a connection.
pub data Position : Type 0 where
  acquiring accepting : Position

-- A spawned task, which holds a permit, and its session, once it has one.
pub record ServerTask : Type 0 where
  pub peer_addr : SocketAddr
  pub session : Option ℕ

pub record Server : Type 0 where
  pub available_permits : ℕ
  pub position : Position
  pub tasks : List ServerTask
  pub session_id : ℕ

-- The server that `Server::new` builds, at the head of the loop of `run`; `session_id` is the counter
-- of the process.
unfoldable pub with_permits : Config → ℕ → Server
with_permits config session_id = record {
  available_permits = config.max_connections;
  position = acquiring;
  tasks = [];
  session_id = session_id;
}

-- `Server::new`: `Semaphore::new` panics above tokio's limit `max_permits`.
unfoldable pub new : ℕ → Config → ℕ → Result Server
new max_permits config session_id =
    if ltb max_permits config.max_connections then panic else ok (with_permits config session_id)

-- `Server::run` before its loop: the listener is bound.
unfoldable pub run :
    {Listener : Type 0} → (Str → IoResult Listener) → Config → Server → Result (Listener × Server)
run bind config s = Error.◌>>=◌ (map_err io (bind config.bind_addr)) λ listener. ok (listener, s)

-- `acquire_owned().await`
unfoldable pub on_permit : Server → Server
on_permit s = record s { available_permits = s.available_permits - 1; position = accepting }

-- `listener.accept().await`: a task gets the permit, or an error drops it and the loop goes on.
unfoldable pub on_accept : IoResult SocketAddr → Server → Server
on_accept (done peer_addr) s = record s {
  position = acquiring;
  tasks = record { peer_addr = peer_addr; session = none } ∷ s.tasks;
}
on_accept (failed e) s = record s {
  available_permits = s.available_permits + 1;
  position = acquiring;
}

-- A task of these comes to its session: `Session::new` draws the counter.
unfoldable pub on_session : List ServerTask → ServerTask → List ServerTask → Server → Server
unfolding fetch_add
on_session before task after s = record s {
  tasks = before ++ record task { session = some s.session_id } ∷ after;
  session_id = fetch_add s.session_id 1;
}

-- A task of these ends, in whatever way, and drops its permit.
unfoldable pub on_end : List ServerTask → List ServerTask → Server → Server
on_end before after s = record s {
  available_permits = s.available_permits + 1;
  tasks = before ++ after;
}

pub data Step (s : Server) : Server → Type 0 where
  acquires : s.position ≡ acquiring → 0 < s.available_permits → Step s (on_permit s)
  accepts : (result : IoResult SocketAddr) → s.position ≡ accepting → Step s (on_accept result s)
  opens :
      (before : List ServerTask) (task : ServerTask) (after : List ServerTask)
      → s.tasks ≡ before ++ task ∷ after
      → task.session ≡ none
      → Step s (on_session before task after s)
  ends :
      (before : List ServerTask) (task : ServerTask) (after : List ServerTask)
      → s.tasks ≡ before ++ task ∷ after
      → Step s (on_end before after s)

-- The states that a server comes to from `s`.
pub data Reach (s : Server) : Server → Type 0 where
  here : Reach s s
  next : {t u : Server} → Reach s t → Step t u → Reach s u

module _ (net : Net) (ext : AsyncReadExt) (r : AsyncRead) (config : Config) (peer_addr : SocketAddr)
    (rounds : ℕ) where
  -- The body of a task: the TLS handshake, whose outcome is given, and the connection. Its result is
  -- only logged.
  unfoldable pub serve : IoResult r.Stream → net.World → ℕ → net.World × ℕ
  serve (failed e) w session_id = (w, session_id)
  serve (done tls_stream) w session_id =
      let (ended, w', session_id') =
        handle_connection net ext r config peer_addr rounds tls_stream w session_id in
      (w', session_id')
