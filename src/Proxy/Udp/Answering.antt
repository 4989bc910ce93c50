-- ===== src/Proxy/Udp/Answering.antt =====
-- What the association gives the client, and how its session counts both ways.
use rust.Prelude.{
  ℕ, ◌+◌, ◌%◌, ◌≤◌, ◌≡◌, refl, sym, ap, ◌∙◌, arith, List, [], ◌∷◌, ◌++◌, length, append_assoc,
  append-nil,
}
use rust.Bytes.{Str}
use rust.Exec.{done, failed}
use rust.Error.{IoError}
use rust.Protocol.Address.{SocketAddr}
use rust.Proxy.Net.{Net}
use rust.Proxy.Session.{Session, u64_mod}
use rust.Proxy.Udp.Frame.{wire, sender}
use rust.Proxy.Udp.Sending.{IsSending, Datagram}

-- What the documentation of tokio promises of the other direction: a finished receive has taken one
-- datagram that fits the buffer, a finished write has written its bytes, a failed one a part of them,
-- and nothing else does either.
pub record IsAnswering (net : Net) : Type 0 where
  pub arrived : net.World → List Datagram
  pub written : net.World → List ℕ
  pub bind_same :
      (addr : Str) (w : net.World)
      → (arrived (net.udp_bind addr w).1 ≡ arrived w)
        × (written (net.udp_bind addr w).1 ≡ written w)
  pub addr_same :
      (socket : net.Socket) (w : net.World)
      → (arrived (net.local_addr socket w).1 ≡ arrived w)
        × (written (net.local_addr socket w).1 ≡ written w)
  pub now_same :
      (w : net.World) → (arrived (net.now w).1 ≡ arrived w) × (written (net.now w).1 ≡ written w)
  pub select_same :
      (seconds : ℕ) (w : net.World)
      → (arrived (net.select seconds w).1 ≡ arrived w)
        × (written (net.select seconds w).1 ≡ written w)
  pub lookup_same :
      (name : Str) (port : ℕ) (w : net.World)
      → (arrived (net.lookup_host name port w).1 ≡ arrived w)
        × (written (net.lookup_host name port w).1 ≡ written w)
  pub send_same :
      (socket : net.Socket) (b : List ℕ) (addr : SocketAddr) (w : net.World)
      → (arrived (net.send_to socket b addr w).1 ≡ arrived w)
        × (written (net.send_to socket b addr w).1 ≡ written w)
  pub recv_done :
      (socket : net.Socket) (n : ℕ) (w w' : net.World) (b : List ℕ) (source : SocketAddr)
      → net.recv_from socket n w ≡ (done (b, source), w')
      → (arrived w' ≡ arrived w ++ (b, source) ∷ []) × (length b ≤ n) × (written w' ≡ written w)
  pub recv_failed :
      (socket : net.Socket) (n : ℕ) (w w' : net.World) (e : IoError)
      → net.recv_from socket n w ≡ (failed e, w')
      → (arrived w' ≡ arrived w) × (written w' ≡ written w)
  pub write_arrived : (b : List ℕ) (w : net.World) → arrived (net.write_client b w).1 ≡ arrived w
  pub write_done :
      (b : List ℕ) (w w' : net.World)
      → net.write_client b w ≡ (done tt, w')
      → written w' ≡ written w ++ b
  pub write_failed :
      (b : List ℕ) (w w' : net.World) (e : IoError)
      → net.write_client b w ≡ (failed e, w')
      → (part : List ℕ) × (rest : List ℕ) × (b ≡ part ++ rest) × (written w' ≡ written w ++ part)

-- What an action that ended in `w'` did to a view of the world.
pub after :
    {W A B : Type 0} {l : B} (view : W → B) {p : A × W} {a : A} {w' : W}
    → p ≡ (a, w')
    → view p.1 ≡ l
    → view w' ≡ l
after view q e = sym (ap (λ p. view p.1) q) ∙ e

-- The frame that the client gets for a datagram.
abbrev pub answer : Datagram → List ℕ
answer (payload, source) = wire (record { address = sender source; payload = payload })

-- The frames of datagrams, one after the other.
unfoldable pub answers : List Datagram → List ℕ
answers [] = []
answers (d ∷ ds) = answer d ++ answers ds

pub answers-append : (ds es : List Datagram) → answers (ds ++ es) ≡ answers ds ++ answers es
unfolding answers
answers-append [] es = refl
answers-append (d ∷ ds) es = rw (answers-append ds es, append_assoc)

-- The bytes of the payloads.
unfoldable pub total : List Datagram → ℕ
total [] = 0
total ((payload, addr) ∷ ds) = length payload + total ds

pub total-append : (ds es : List Datagram) → total (ds ++ es) ≡ total ds + total es
unfolding total
total-append [] es = omega arith
total-append (d ∷ ds) es = omega (arith, total-append ds es)

module _ (net : Net) (sending : IsSending net) (answering : IsAnswering net) where
  -- From one point to another nothing was sent, received or written.
  abbrev pub IsIdle : net.World → net.World → Type 0
  IsIdle w w' =
      (sending.log w' ≡ sending.log w)
      × (answering.arrived w' ≡ answering.arrived w)
      × (answering.written w' ≡ answering.written w)

  -- One idle action more, which ended in `w'`.
  pub IsIdle-after :
      {A : Type 0} {p : A × net.World} {a : A} {w w1 w' : net.World}
      → p ≡ (a, w')
      → IsIdle w1 p.1
      → IsIdle w w1
      → IsIdle w w'
  IsIdle-after q (log1, arrived1, written1) (log, arrived, written) = (
    after sending.log q (log1 ∙ log),
    after answering.arrived q (arrived1 ∙ arrived),
    after answering.written q (written1 ∙ written),
  )

  -- Between two points of the association: these datagrams went out and these came, the client was
  -- written the frames of the latter, and the session counted both, modulo 2^64.
  pub record Accounts (session : Session) (w : net.World) (session' : Session) (w' : net.World)
      : Type 0 where
    pub out : List Datagram
    pub sent : sending.log w' ≡ sending.log w ++ out
    pub bytes_sent : session'.bytes_sent % u64_mod ≡ (session.bytes_sent + total out) % u64_mod
    pub came : List Datagram
    pub arrived : answering.arrived w' ≡ answering.arrived w ++ came
    pub written : answering.written w' ≡ answering.written w ++ answers came
    pub bytes_received :
        session'.bytes_received % u64_mod ≡ (session.bytes_received + total came) % u64_mod

  -- Nothing went out or came.
  pub Accounts-nothing :
      (session : Session) (w w' : net.World) → IsIdle w w' → Accounts session w session w'
  unfolding answers total
  Accounts-nothing session w w' (log, arrived, written) = record {
    out = [];
    sent = rw append-nil log;
    bytes_sent = omega arith;
    came = [];
    arrived = rw append-nil arrived;
    written = rw append-nil written;
    bytes_received = omega arith;
  }

  -- One stretch behind the other.
  pub Accounts-trans :
      {s0 s1 s2 : Session} {w0 w1 w2 : net.World}
      → Accounts s0 w0 s1 w1
      → Accounts s1 w1 s2 w2
      → Accounts s0 w0 s2 w2
  Accounts-trans a b = record {
    out = a.out ++ b.out;
    sent = rw (b.sent, a.sent, append_assoc) refl;
    bytes_sent = omega (arith, a.bytes_sent, b.bytes_sent, total-append a.out b.out);
    came = a.came ++ b.came;
    arrived = rw (b.arrived, a.arrived, append_assoc) refl;
    written = rw (b.written, a.written, answers-append, append_assoc) refl;
    bytes_received = omega (arith, a.bytes_received, b.bytes_received, total-append a.came b.came);
  }
