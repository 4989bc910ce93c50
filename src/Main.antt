-- ===== src/Main.antt =====
-- src/main.rs: the start of the program, from its arguments to the running server. clap, the logger,
-- the file system, the TOML reader and the listener are parameters.
pub mod Panics
pub mod Starts
use rust.Prelude.{ℕ, Bool, Option, none, some, [], ◌∷◌}
use rust.Error
use rust.Error.{TrojanError, Result, ok, err, panic}
use rust.Bytes.{Str}
use rust.Exec.{IoResult}
use rust.Config.{Config, from_file}
use rust.Tls.{Rustls, TlsConfig}
use rust.Tls as Tls
use rust.Server.Accept.{Server}
use rust.Server.Accept as Accept

-- What the program calls at its start.
pub record System : Type 1 where
  pub is_socket_addr : Str → Bool
  pub exists : Str → Bool
  pub read_to_string : Str → IoResult Str
  pub from_str : Str → Option Config
  -- The filter of the logger: the one of the environment, if it has one, and one of a text.
  pub EnvFilter : Type 0
  pub try_from_default_env : Option EnvFilter
  pub filter_of : Str → EnvFilter
  -- `TcpListener::bind`
  pub Listener : Type 0
  pub bind : Str → IoResult Listener
  -- `Semaphore::MAX_PERMITS`
  pub max_permits : ℕ

pub record Args : Type 0 where
  pub config : Str

abbrev pub default_config : Str
default_config =
    b'c' ∷ b'o' ∷ b'n' ∷ b'f' ∷ b'i' ∷ b'g' ∷ b'/' ∷ b'c' ∷ b'o' ∷ b'n' ∷ b'f' ∷ b'i' ∷ b'g' ∷ b'.'
    ∷ b't' ∷ b'o' ∷ b'm' ∷ b'l' ∷ []

-- `Args::parse`, by the value that the command line has for `--config`, if it has one.
unfoldable pub parse : Option Str → Args
parse none = record { config = default_config }
parse (some path) = record { config = path }

module _ (sys : System) where
  abbrev pub filter_or : Str → Option sys.EnvFilter → sys.EnvFilter
  filter_or log_level none = sys.filter_of log_level
  filter_or log_level (some filter) = filter

  -- The filter that the logger gets.
  unfoldable pub init_tracing : Str → sys.EnvFilter
  init_tracing log_level = filter_or log_level sys.try_from_default_env

-- How the start ends: with an exit, after an error, or with a running server. A panic ends it too.
pub data Started (sys : System) (tls_lib : Rustls) : Type 0 where
  exits : TrojanError → Started sys tls_lib
  panics : Started sys tls_lib
  running : Config → sys.EnvFilter → TlsConfig tls_lib → sys.Listener → Server → Started sys tls_lib

module _ (sys : System) (tls_lib : Rustls) where
  -- What `server.run()` comes to: its loop, or the error of its listener.
  unfoldable pub run_server :
      Config
      → sys.EnvFilter
      → TlsConfig tls_lib
      → Result (sys.Listener × Server)
      → Started sys tls_lib
  run_server config filter tls_config (ok (listener, server)) =
      running config filter tls_config listener server
  run_server config filter tls_config (err e) = exits e
  run_server config filter tls_config panic = panics

  unfoldable pub run_with :
      Config → sys.EnvFilter → ℕ → Result (TlsConfig tls_lib) → Started sys tls_lib
  unfolding run_server
  run_with config filter session_id (ok tls_config) =
      let server = Accept.new sys.max_permits config session_id in
      run_server config filter tls_config
        (Error.◌>>=◌ server λ server. Accept.run sys.bind config server)
  run_with config filter session_id (err e) = exits e
  run_with config filter session_id panic = panics

  unfoldable pub configured : ℕ → Result Config → Started sys tls_lib
  unfolding run_with
  configured session_id (ok config) =
      run_with config (init_tracing sys config.log_level) session_id
        (Tls.new tls_lib config.tls_cert config.tls_key)
  configured session_id (err e) = exits e
  configured session_id panic = panics

  -- `session_id` is the value of the session counter.
  unfoldable pub main : Args → ℕ → Started sys tls_lib
  unfolding configured
  main args session_id =
      configured session_id
        (from_file sys.is_socket_addr sys.exists (sys.read_to_string args.config) sys.from_str)
