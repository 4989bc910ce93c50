-- ===== src/Server/Connection.antt =====
-- The connection as a whole: what the proxy and the fallback get is what the client sent.
use rust.Prelude.{
  ℕ, ◌≡◌, ◌≢◌, refl, sym, ap, ◌∙◌, subst, true, List, [], ◌∷◌, ◌++◌, arith, length, length-append,
  append_assoc, All-append,
}
use rust.Error.{Result, ok}
use rust.Bytes.{AreBytes, IsByte}
use rust.Protocol.Header.{Header}
use rust.Protocol.Header.Wire.{IsHeader, wire, length-wire, wire-AreBytes}
use rust.Config.{Config}
use rust.Io.{AsyncRead}
use rust.Io.Finite.{IsFinite}
use rust.Io.Extension.{AsyncReadExt}
use rust.Protocol.Address.{SocketAddr}
use rust.Protocol.Header.{try_parse_from_buf, verify_password}
use rust.Protocol.Header.Laws.{try_parse_from_buf-wire}
use rust.Proxy.Net.{Net}
use rust.Proxy.Fallback
use rust.Proxy.Fallback.{PrefixedStream, handle_fallback}
use rust.Proxy.Fallback.Prefixed.{remaining}
use rust.Server.{
  handle_connection, proxy_connection, act_on, Ended, silent, fell_back, map_ok, accepted, Decision,
}
use rust.Server.Peek as Peek
use rust.Server.Peek.{BeginsWith, IsRight, falls_back, admits, peek_loop-IsRight}
use rust.Server.HeaderEnd.{leftover-wire}

-- Only one header stands at the beginning of the bytes.
header_unique :
    (h h' : Header) (rest rest' : List ℕ)
    → IsHeader h
    → IsHeader h'
    → wire h ++ rest ≡ wire h' ++ rest'
    → h ≡ h'
header_unique h h' rest rest' w w' e =
    cc (
      try_parse_from_buf-wire h rest w,
      ap try_parse_from_buf e,
      try_parse_from_buf-wire h' rest' w',
    )

append-injective : (l : List ℕ) {m n : List ℕ} → l ++ m ≡ l ++ n → m ≡ n
append-injective [] e = e
append-injective (x ∷ l) e = append-injective l (cc e)

module _ (net : Net) (ext : AsyncReadExt) (r : AsyncRead) (fin : IsFinite r) (config : Config)
    (peer_addr : SocketAddr) (rounds : ℕ) where
  -- The run of `handle_connection` for this client.
  abbrev Run : r.Stream → net.World → ℕ → Result Ended × net.World × ℕ
  Run = handle_connection net ext r config peer_addr rounds

  -- The proxy runs on a stream that gives what stands behind the header.
  abbrev pub Proxies : Header → List ℕ → Result Ended × net.World × ℕ → net.World → ℕ → Type 0
  Proxies h payload ended w session_id =
      (client : PrefixedStream r.Stream) × (remaining fin.pending client ≡ payload)
      × (ended ≡ proxy_connection net ext r config peer_addr rounds h client w session_id)

  -- The fallback runs on bytes and a stream that are together what the client sends.
  abbrev pub FallsBack : List ℕ → Result Ended × net.World × ℕ → net.World → ℕ → Type 0
  FallsBack all ended w session_id =
      (peeked : List ℕ) × (stream : r.Stream) × (all ≡ peeked ++ fin.pending stream)
      × (peeked ≢ [])
      × (ended ≡ (
          let (relayed, left) = handle_fallback net r peeked config.fallback_addr (stream, w) in
          (map_ok (λ _. fell_back) relayed, left.1, session_id)))

  accepted-Proxies :
      (h : Header) (payload peeked : List ℕ) (stream : r.Stream) (w : net.World) (session_id : ℕ)
      → IsHeader h
      → wire h ++ payload ≡ peeked ++ fin.pending stream
      → (h' : Header) → BeginsWith config.passwords peeked h'
      → Proxies h payload
          (act_on net ext r config peer_addr rounds (ok (accepted h' peeked)) stream w session_id)
          w
          session_id
  unfolding act_on Fallback.new
  accepted-Proxies h payload peeked stream w session_id good split h' user =
      let split' : wire h ++ payload ≡ wire h' ++ (user.rest ++ fin.pending stream) =
        split ∙ rw (user.split, append_assoc) in
      let same : h ≡ h' = header_unique h h' payload _ good user.header split' in
      let here : peeked ≡ wire h ++ user.rest = rw same user.split in
      (
        Fallback.new user.rest stream,
        append-injective (wire h) (rw split' (rw same)),
        rw (here, ← same, leftover-wire h user.rest good),
      )

  decided-Proxies :
      (h : Header) (all payload : List ℕ) (stream : r.Stream) (w : net.World) (session_id : ℕ)
      → IsHeader h
      → verify_password h config.passwords ≡ true
      → all ≡ wire h ++ payload
      → (d : Decision) → IsRight config.passwords all (fin.pending stream) d
      → Proxies h payload
          (act_on net ext r config peer_addr rounds (ok d) stream w session_id)
          w
          session_id
  decided-Proxies h all payload stream w session_id good user e d (Peek.silent none) =
      absurd (
        omega (arith, ap length (sym e ∙ none), length-append (wire h) payload, length-wire h good))
  decided-Proxies h all payload stream w session_id good user e d (falls_back peeked p q deny) =
      absurd (deny h (record { header = good; user = user; rest = payload; split = e }))
  decided-Proxies h all payload stream w session_id good user e d (admits h' peeked p user') =
      accepted-Proxies h payload peeked stream w session_id good (sym e ∙ p) h' user'

  decided-FallsBack :
      (all : List ℕ) (stream : r.Stream) (w : net.World) (session_id : ℕ)
      → all ≢ []
      → ((h : Header) → ¬ BeginsWith config.passwords all h)
      → (d : Decision) → IsRight config.passwords all (fin.pending stream) d
      → FallsBack all
          (act_on net ext r config peer_addr rounds (ok d) stream w session_id)
          w
          session_id
  unfolding act_on
  decided-FallsBack all stream w session_id given deny d (Peek.silent none) = absurd (given none)
  decided-FallsBack all stream w session_id given deny d (falls_back peeked p q deny') =
      (peeked, stream, p, q, refl)
  decided-FallsBack all stream w session_id given deny d (admits h peeked p user) = absurd (
      deny h (record {
        header = user.header;
        user = user.user;
        rest = user.rest ++ fin.pending stream;
        split = p ∙ rw (user.split, append_assoc);
      }))

  decided-silent :
      (all : List ℕ) (stream : r.Stream) (w : net.World) (session_id : ℕ)
      → all ≡ []
      → (d : Decision) → IsRight config.passwords all (fin.pending stream) d
      → act_on net ext r config peer_addr rounds (ok d) stream w session_id
        ≡ (ok silent, w, session_id)
  unfolding act_on
  decided-silent all stream w session_id none d (Peek.silent e) = refl
  decided-silent all stream w session_id none d (falls_back [] p q deny) = absurd (q refl)
  decided-silent all stream w session_id none d (falls_back (x ∷ l) p q deny) = cc
  decided-silent all stream w session_id none d (admits h peeked p user) = absurd (
      omega (
        arith,
        ap length (sym none ∙ p ∙ ap (λ l. l ++ fin.pending stream) user.split),
        length-append (wire h ++ user.rest) (fin.pending stream),
        length-append (wire h) user.rest,
        length-wire h user.header,
      ))

  -- A client that begins with a user's header and goes on with bytes `payload` reaches the proxy of its
  -- command, in whatever pieces its bytes come: exactly `payload` is left for the proxy to read,
  -- some of it peeked already, and the session takes the counter's number.
  pub handle_connection-Proxies :
      (s : r.Stream) (w : net.World) (session_id : ℕ) (h : Header) (payload : List ℕ)
      → IsHeader h
      → verify_password h config.passwords ≡ true
      → AreBytes payload
      → fin.pending s ≡ wire h ++ payload
      → Proxies h payload (Run s w session_id) w session_id
  unfolding handle_connection
  handle_connection-Proxies s w session_id h payload good user b e =
      let bytes = All-append IsByte (wire h) payload (wire-AreBytes h good) b in
      let (d, decided, right) =
        peek_loop-IsRight r fin config.passwords s (subst AreBytes (sym e) bytes) in
      rw decided (decided-Proxies h (fin.pending s) payload _ w session_id good user e d right)

  -- A client that sends some bytes which do not begin with a user's header goes to the fallback with the bytes that
  -- were peeked, and with a stream that gives all others; no session is counted.
  pub handle_connection-FallsBack :
      (s : r.Stream) (w : net.World) (session_id : ℕ)
      → AreBytes (fin.pending s)
      → fin.pending s ≢ []
      → ((h : Header) → ¬ BeginsWith config.passwords (fin.pending s) h)
      → FallsBack (fin.pending s) (Run s w session_id) w session_id
  unfolding handle_connection
  handle_connection-FallsBack s w session_id b given deny =
      let (d, decided, right) = peek_loop-IsRight r fin config.passwords s b in
      rw decided (decided-FallsBack (fin.pending s) _ w session_id given deny d right)

  -- A client that sends nothing is dropped: the world and the session counter stay as they are.
  pub handle_connection_silent :
      (s : r.Stream) (w : net.World) (session_id : ℕ)
      → fin.pending s ≡ []
      → Run s w session_id ≡ (ok silent, w, session_id)
  unfolding handle_connection
  handle_connection_silent s w session_id e =
      let (d, decided, right) =
        peek_loop-IsRight r fin config.passwords s (subst AreBytes (sym e) tt) in
      rw decided (decided-silent (fin.pending s) _ w session_id e d right)
