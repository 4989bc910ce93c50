-- ===== src/Main/Starts.antt =====
-- What a start that comes to a running server has checked.
use rust.Prelude.{
  ℕ, ◌≤◌, ◌<◌, ltb, ltb→lt, ltb→le, ◌≡◌, ◌≢◌, refl, true, Bool-cases, inl, inr, List, [], ◌∷◌,
  if◌then◌else◌, subst,
}
use rust.Error
use rust.Error.{TrojanError, IoError, Result, ok, err, panic, io}
use rust.Bytes.{Str}
use rust.Exec.Inversion.{ok-injective}
use rust.Exec.{IoResult, done, failed, map_err}
use rust.Config.{Config, from_file, validate}
use rust.Config.Laws.{IsValid, validate_iff}
use rust.Tls.{Rustls, TlsConfig, load_certs, load_key, collect}
use rust.Tls as Tls
use rust.Server.Accept.{Server, Reach, here}
use rust.Server.Accept as Accept
use rust.Server.Accept.Permits.{IsCounted, Reach-IsCounted}
use rust.Main.Panics.{from_file-ne-panic, new-ne-panic}
use rust.Main.{
  System, Args, init_tracing, main, configured, run_with, run_server, Started, running, exits,
  panics,
}

-- The parts of a success.
bind-eq-ok :
    {A B : Type 0} (m : Result A) (f : A → Result B) {b : B}
    → Error.◌>>=◌ m f ≡ ok b
    → (a : A) × (m ≡ ok a) × (f a ≡ ok b)
bind-eq-ok (ok a) f e = (a, refl, e)
bind-eq-ok (err x) f e = cc
bind-eq-ok panic f e = cc

module _ (sys : System) (tls_lib : Rustls) where
  -- The configuration file, as it is read and checked.
  abbrev pub Loaded : Str → Result Config
  Loaded path = from_file sys.is_socket_addr sys.exists (sys.read_to_string path) sys.from_str

  -- A running server: its configuration is valid, it has a certificate and a key that rustls takes
  -- together, it listens on the configured address, and it starts with all its permits, which are not
  -- more than tokio allows.
  pub record IsStarted (config : Config) (tls_config : TlsConfig tls_lib) (listener : sys.Listener)
      (server : Server) : Type 0 where
    pub valid : IsValid sys.is_socket_addr sys.exists config
    pub certs : load_certs tls_lib config.tls_cert ≡ ok tls_config.certs
    pub some_cert : tls_config.certs ≢ []
    pub key : load_key tls_lib config.tls_key ≡ ok tls_config.key
    pub pair : tls_lib.with_single_cert tls_config.certs tls_config.key ≡ true
    pub permits : config.max_connections ≤ sys.max_permits
    pub bound : sys.bind config.bind_addr ≡ done listener
    pub counted : IsCounted config.max_connections server

  some_cert_of :
      (path : Str) (l : List tls_lib.Certificate) → load_certs tls_lib path ≡ ok l → l ≢ []
  unfolding load_certs
  some_cert_of path l e =
      let chain = λ (file : tls_lib.File).
        map_err (λ x. Error.tls (Error.chain_malformed x)) (collect (tls_lib.certs file)) in
      let (file, opened, e1) =
        bind-eq-ok (map_err (λ x. Error.tls (Error.cert_unreadable x)) (tls_lib.open_file path))
          (λ file. Error.◌>>=◌ (chain file) (λ certs. Tls.or_none tls_lib certs)) e in
      let (certs, collected, e2) =
        bind-eq-ok (chain file) (λ certs. Tls.or_none tls_lib certs) e1 in
      go certs e2
    where
      go : (certs : List tls_lib.Certificate) → Tls.or_none tls_lib certs ≡ ok l → l ≢ []
      go [] e = cc
      go (c ∷ cs) e = λ q. cc (e, q)

  from_file-IsValid :
      (content : IoResult Str) (config : Config)
      → from_file sys.is_socket_addr sys.exists content sys.from_str ≡ ok config
      → IsValid sys.is_socket_addr sys.exists config
  unfolding from_file
  from_file-IsValid content config e =
      let checked =
        λ (c : Config). Error.◌>>=◌ (validate sys.is_socket_addr sys.exists c) (λ _. ok c) in
      let parse =
        λ (text : Str). Error.ok_or (sys.from_str text) (Error.config Error.config_malformed) in
      let (text, read, e1) =
        bind-eq-ok (map_err (λ x. Error.config (Error.config_unreadable x)) content)
          (λ text. Error.◌>>=◌ (parse text) checked) e in
      let (c, parsed, e2) = bind-eq-ok (parse text) checked e1 in
      let (_, validated, e3) =
        bind-eq-ok (validate sys.is_socket_addr sys.exists c) (λ _. ok c) e2 in
      subst (IsValid sys.is_socket_addr sys.exists) (ok-injective e3)
        ((validate_iff sys.is_socket_addr sys.exists c).0 validated)

  new-IsStarted :
      (config : Config) (tls_config : TlsConfig tls_lib) (listener : sys.Listener) (server : Server)
      → IsValid sys.is_socket_addr sys.exists config
      → Tls.new tls_lib config.tls_cert config.tls_key ≡ ok tls_config
      → sys.bind config.bind_addr ≡ done listener
      → config.max_connections ≤ sys.max_permits
      → IsCounted config.max_connections server
      → IsStarted config tls_config listener server
  unfolding Tls.new
  new-IsStarted config tls_config listener server valid e bound permits counted =
      let made = λ (certs : List tls_lib.Certificate) (key : tls_lib.PrivateKey).
        if tls_lib.with_single_cert certs key
        then ok (Tls.settings tls_lib certs key)
        else err (Error.tls Error.tls_rejected) in
      let (certs, loaded, e1) =
        bind-eq-ok (load_certs tls_lib config.tls_cert)
          (λ certs. Error.◌>>=◌ (load_key tls_lib config.tls_key) (made certs)) e in
      let (key, found, e2) = bind-eq-ok (load_key tls_lib config.tls_key) (made certs) e1 in
      elim (Bool-cases (tls_lib.with_single_cert certs key)) [
        | inl taken ↦
            let same = ok-injective (rw taken at e2) in
            subst (λ t. IsStarted config t listener server) same
              (record {
                valid = valid;
                certs = loaded;
                some_cert = some_cert_of config.tls_cert certs loaded;
                key = found;
                pair = taken;
                permits = permits;
                bound = bound;
                counted = counted;
              })
        | inr refused ↦ cc (rw refused at e2)
      ]

  -- How a start ends: with a server, or with the error of the configuration, of TLS or of the
  -- listener.
  pub data Outcome (path : Str) (session_id : ℕ) : Started sys tls_lib → Type 0 where
    started :
        (config : Config) (tls_config : TlsConfig tls_lib) (listener : sys.Listener)
        → Loaded path ≡ ok config
        → IsStarted config tls_config listener (Accept.with_permits config session_id)
        → Outcome path session_id (
            running config
              (init_tracing sys config.log_level)
              tls_config
              listener
              (Accept.with_permits config session_id))
    config_refused : (e : TrojanError) → Loaded path ≡ err e → Outcome path session_id (exits e)
    tls_refused :
        (config : Config) (e : TrojanError)
        → IsValid sys.is_socket_addr sys.exists config
        → Tls.new tls_lib config.tls_cert config.tls_key ≡ err e
        → Outcome path session_id (exits e)
    limit_exceeded :
        (config : Config) (tls_config : TlsConfig tls_lib)
        → IsValid sys.is_socket_addr sys.exists config
        → Tls.new tls_lib config.tls_cert config.tls_key ≡ ok tls_config
        → sys.max_permits < config.max_connections
        → Outcome path session_id panics
    bind_refused :
        (config : Config) (e : IoError)
        → IsValid sys.is_socket_addr sys.exists config
        → config.max_connections ≤ sys.max_permits
        → sys.bind config.bind_addr ≡ failed e
        → Outcome path session_id (exits (io e))

  -- Behind a limit that the configuration keeps.
  run_server-Outcome :
      (path : Str) (session_id : ℕ) (config : Config) (t : TlsConfig tls_lib)
      (result : IoResult sys.Listener)
      → Loaded path ≡ ok config
      → Tls.new tls_lib config.tls_cert config.tls_key ≡ ok t
      → config.max_connections ≤ sys.max_permits
      → sys.bind config.bind_addr ≡ result
      → Outcome path session_id (
          run_server sys tls_lib config
            (init_tracing sys config.log_level)
            t
            (Accept.run sys.bind config (Accept.with_permits config session_id)))
  unfolding run_server Accept.run
  run_server-Outcome path session_id config t (done listener) read made permits q = rw q (
      started config t listener read (
        new-IsStarted config t listener (Accept.with_permits config session_id)
          (from_file-IsValid _ config read) made q permits
          (Reach-IsCounted config session_id here).0))
  run_server-Outcome path session_id config t (failed e) read made permits q =
      rw q (bind_refused config e (from_file-IsValid _ config read) permits q)

  run_with-Outcome :
      (path : Str) (session_id : ℕ) (config : Config) (result : Result (TlsConfig tls_lib))
      → Loaded path ≡ ok config
      → Tls.new tls_lib config.tls_cert config.tls_key ≡ result
      → Outcome path session_id
          (run_with sys tls_lib config (init_tracing sys config.log_level) session_id result)
  unfolding run_with run_server Accept.new
  run_with-Outcome path session_id config (ok t) read q =
      elim (Bool-cases (ltb sys.max_permits config.max_connections)) [
        | inl over ↦
            rw over (limit_exceeded config t (from_file-IsValid _ config read) q (ltb→lt _ _ over))
        | inr within ↦
            rw within
              (run_server-Outcome path session_id config t _ read q (ltb→le _ _ within) refl)
      ]
  run_with-Outcome path session_id config (err e) read q =
      tls_refused config e (from_file-IsValid _ config read) q
  run_with-Outcome path session_id config panic read q = absurd (new-ne-panic tls_lib _ _ q)

  configured-Outcome :
      (path : Str) (session_id : ℕ) (result : Result Config)
      → Loaded path ≡ result
      → Outcome path session_id (configured sys tls_lib session_id result)
  unfolding configured
  configured-Outcome path session_id (ok config) q =
      run_with-Outcome path session_id config _ q refl
  configured-Outcome path session_id (err e) q = config_refused e q
  configured-Outcome path session_id panic q =
      absurd (from_file-ne-panic sys.is_socket_addr sys.exists (sys.read_to_string path) _ q)

  -- A start panics only behind a valid configuration and its TLS settings, where the configured
  -- connections are more than the permits that tokio allows. It comes to a running server only with a
  -- valid configuration within that limit, a chain of certificates that is not empty with a key that
  -- rustls takes with it, a listener on the configured address, and all permits in place; the
  -- logger's filter is then that of the environment, or else that of the configured level. Or it
  -- exits with the error of the configuration, or, behind a valid one, of TLS or of the listener.
  pub main-Outcome :
      (args : Args) (session_id : ℕ)
      → Outcome args.config session_id (main sys tls_lib args session_id)
  unfolding main
  main-Outcome args session_id = configured-Outcome args.config session_id _ refl
