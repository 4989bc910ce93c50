-- ===== src/Server/Accept/Service.antt =====
-- What the body of a task does, and which number its session takes from the accept loop's server.
use rust.Prelude.{
  ℕ, ◌≡◌, ◌≢◌, refl, sym, All-append_right, ◌∙◌, subst, List, [], ◌∷◌, ◌++◌, append_assoc,
}
use rust.Error.{Result}
use rust.Bytes.{IsByte, AreBytes}
use rust.Exec.{IoResult, done, failed}
use rust.Io.{AsyncRead}
use rust.Io.Finite.{IsFinite}
use rust.Io.Extension.{AsyncReadExt}
use rust.Config.{Config}
use rust.Protocol.Address.{SocketAddr}
use rust.Protocol.Header.{Header}
use rust.Protocol.Header.Wire.{wire}
use rust.Proxy.Net.{Net}
use rust.Proxy.Session as Session
use rust.Proxy.Fallback.{PrefixedStream, handle_fallback}
use rust.Proxy.Fallback.Prefixed.{remaining}
use rust.Server.{Decision, handle_connection, proxy_connection, Ended}
use rust.Server.Peek.{BeginsWith, IsRight, silent, falls_back, admits, peek_loop-IsRight}
use rust.Server.Connection.{
  handle_connection-Proxies, handle_connection-FallsBack, handle_connection_silent,
}
use rust.Server.Accept.{Server, ServerTask, on_session, serve}

module _ (net : Net) (ext : AsyncReadExt) (r : AsyncRead) (fin : IsFinite r) (config : Config)
    (peer_addr : SocketAddr) (rounds : ℕ) (server : Server) (before : List ServerTask)
    (task : ServerTask) (after : List ServerTask) (w : net.World) where
  -- What the body of this task of the server leaves, by its TLS handshake: a world and a counter.
  pub data Served : IoResult r.Stream → net.World × ℕ → Type 0 where
    no_handshake : {e : _} → Served (failed e) (w, server.session_id)
    nothing_sent : (s : r.Stream) → fin.pending s ≡ [] → Served (done s) (w, server.session_id)
    relayed :
        (s : r.Stream) (peeked : List ℕ) (stream : r.Stream)
        → fin.pending s ≡ peeked ++ fin.pending stream
        → peeked ≢ []
        → ((h : Header) → ¬ BeginsWith config.passwords (fin.pending s) h)
        → Served
            (done s)
            ((handle_fallback net r peeked config.fallback_addr (stream, w)).1.1, server.session_id)
    proxied :
        (s : r.Stream) (h : Header) (user : BeginsWith config.passwords (fin.pending s) h)
        (client : PrefixedStream r.Stream)
        → remaining fin.pending client ≡ user.rest
        → Served (done s) (
          (proxy_connection net ext r config peer_addr rounds h client w server.session_id).1,
          (on_session before task after server).session_id,
        )

  -- The run of `handle_connection` for this task.
  abbrev Run : r.Stream → Result Ended × net.World × ℕ
  Run s = handle_connection net ext r config peer_addr rounds s w server.session_id

  user-Served :
      (s : r.Stream) (h : Header) (user : BeginsWith config.passwords (fin.pending s) h)
      → AreBytes (fin.pending s)
      → Served (done s) ((Run s).1, (Run s).2)
  unfolding on_session proxy_connection Session.new
  user-Served s h user b =
      let (client, left, ran) =
        handle_connection-Proxies net ext r fin config peer_addr rounds s w server.session_id h
          user.rest user.header user.user
          (All-append_right IsByte (wire h) user.rest (subst AreBytes user.split b)) user.split in
      subst (λ run. Served (done s) (run.1, run.2)) (sym ran) (proxied s h user client left)

  stranger-Served :
      (s : r.Stream)
      → AreBytes (fin.pending s)
      → fin.pending s ≢ []
      → ((h : Header) → ¬ BeginsWith config.passwords (fin.pending s) h)
      → Served (done s) ((Run s).1, (Run s).2)
  stranger-Served s b given deny =
      let (peeked, stream, split, some_bytes, ran) =
        handle_connection-FallsBack net ext r fin config peer_addr rounds s w server.session_id b
          given deny in
      subst (λ run. Served (done s) (run.1, run.2)) (sym ran)
        (relayed s peeked stream split some_bytes deny)

  decided-Served :
      (s : r.Stream) (left : List ℕ)
      → AreBytes (fin.pending s)
      → (d : Decision) → IsRight config.passwords (fin.pending s) left d
      → Served (done s) ((Run s).1, (Run s).2)
  decided-Served s left b d (silent none_sent) =
      subst (λ run. Served (done s) (run.1, run.2))
        (sym (
          handle_connection_silent net ext r fin config peer_addr rounds s w server.session_id
            none_sent))
        (nothing_sent s none_sent)
  decided-Served s left b d (falls_back [] p q deny) = absurd (q refl)
  decided-Served s left b d (falls_back (x ∷ l) p q deny) =
      stranger-Served s b (λ e. cc (e, p)) deny
  decided-Served s left b d (admits h peeked p user) =
      user-Served s h
        (record {
          header = user.header;
          user = user.user;
          rest = user.rest ++ left;
          split = p ∙ rw (user.split, append_assoc);
        })
        b

  -- The body of a task, from its TLS handshake on. Where the handshake fails, or the client sends
  -- nothing, the world and the counter stay as they are. Where its bytes begin with a user's header,
  -- the proxy runs on what follows it, and the counter is the one that the task's step `on_session`
  -- leaves. Else the fallback gets all bytes, and the counter stays.
  pub serve-Served :
      (handshake : IoResult r.Stream)
      → ((s : r.Stream) → handshake ≡ done s → AreBytes (fin.pending s))
      → Served handshake (serve net ext r config peer_addr rounds handshake w server.session_id)
  unfolding serve
  serve-Served (failed e) bytes = no_handshake
  serve-Served (done s) bytes =
      let (d, _, right) = peek_loop-IsRight r fin config.passwords s (bytes s refl) in
      decided-Served s _ (bytes s refl) d right
