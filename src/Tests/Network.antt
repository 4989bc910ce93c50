-- ===== src/Tests/Network.antt =====
-- A network in which the world is what was sent and received over the last connection, and what the
-- client was written: an instance of tokio's operations that keeps their promises. The other side
-- answers each copy.
pub mod Runtime
use rust.Prelude.{
  ℕ, zero, suc, ◌+◌, ◌≡◌, refl, sym, ap, ◌∙◌, some, List, [], ◌∷◌, ◌++◌, arith, length,
  append_assoc, append-nil, length-append,
}
use rust.Error.{would_block}
use rust.Exec.Inversion.{done-injective}
use rust.Exec.{Io, IoResult, done, failed}
use rust.Io.{AsyncRead}
use rust.Io.Finite.{IsFinite}
use rust.Protocol.Address.{SocketAddr, v4}
use rust.Proxy.Net.{Net, client}
use rust.Proxy.Net.Delivery.{IsDelivering}

-- What was sent, what came back, and what was written to the client.
pub record Line : Type 0 where
  pub sent : List ℕ
  pub back : List ℕ
  pub out : List ℕ

abbrev pub idle : Line
idle = record { sent = []; back = []; out = [] }

-- What the other side answers.
abbrev pub answer : List ℕ
answer = b'o' ∷ b'k' ∷ []

abbrev localhost : SocketAddr
localhost = v4 (record { a = 127; b = 0; c = 0; d = 1 }) 8080

-- What a copy does with a chunk: the end, or the rest of the copy, with the chunk counted.
abbrev counted : {S : Type 0} → ℕ → IoResult (ℕ × ℕ) × S → IoResult (ℕ × ℕ) × S
counted n (done (up, down), s) = (done (n + up, down), s)
counted n (failed e, s) = (failed e, s)

-- One chunk; `go` is the copy behind it.
abbrev copy_chunk :
    {S : Type 0}
    → IoResult (List ℕ)
    → S
    → Line
    → (Line → IoResult (ℕ × ℕ) × (S × Line))
    → IoResult (ℕ × ℕ) × (S × Line)
copy_chunk (done []) s w go =
    (done (0, 2), (s, record w { back = w.back ++ answer; out = w.out ++ answer }))
copy_chunk (done (x ∷ b)) s w go =
    counted (length (x ∷ b)) (go (record w { sent = w.sent ++ x ∷ b }))
copy_chunk (failed e) s w go = (failed e, (s, w))

-- Reads of one byte until the stream ends, at most so many.
abbrev copy : ℕ → (r : AsyncRead) → Io (r.Stream × Line) (ℕ × ℕ)
copy zero r (s, w) = (failed would_block, (s, w))
copy (suc n) r (s, w) =
    copy_chunk (r.read 1 s).0 (r.read 1 s).1 w (λ w'. copy n r ((r.read 1 s).1, w'))

abbrev pub net : Net
net = record {
  World = Line;
  Remote = Unit {0};
  connect_socket = λ addr w. (done tt, record w { sent = []; back = [] });
  connect_host = λ addr w. (done tt, record w { sent = []; back = [] });
  write_all = λ remote b w. (done tt, record w { sent = w.sent ++ b });
  timeout = λ seconds m w. (some (m w).0, (m w).1);
  copy_bidirectional = λ r remote. copy 4096 r;
  Socket = Unit {0};
  udp_bind = λ addr w. (done tt, w);
  local_addr = λ socket w. (done localhost, w);
  send_to = λ socket b addr w. (done (length b), w);
  recv_from = λ socket n w. (failed would_block, w);
  lookup_host = λ name port w. (done (localhost ∷ []), w);
  write_client = λ b w. (done tt, w);
  select = λ seconds w. (client, w);
  now = λ w. (0, w);
}

module _ (r : AsyncRead) (fin : IsFinite r) where
  abbrev Copies : Line → List ℕ → ℕ × ℕ → Line → Type 0
  Copies w before counts w' =
      (w'.sent ≡ w.sent ++ before)
      × (counts.0 ≡ length before)
      × (w'.back ≡ w.back ++ answer)
      × (w'.out ≡ w.out ++ answer)
      × (counts.1 ≡ 2)

  abbrev AreCopied : ℕ → Type 0
  AreCopied n =
      (s s' : r.Stream) (w w' : Line) (counts : ℕ × ℕ)
      → copy n r (s, w) ≡ (done counts, (s', w'))
      → Copies w (fin.pending s) counts w'

  copied : (n : ℕ) → AreCopied n
  copied zero s s' w w' counts e = cc (ap (λ t. t.0) e)
  copied (suc n) s s' w w' counts e =
      let (b, got, part) = fin.read_chunk 1 s in
      go b (fin.pending s) part.split (part.progress (omega arith)) (rw got at e) (copied n)
    where
      tail :
          (x : ℕ) (b : List ℕ) (result : IoResult (ℕ × ℕ) × (r.Stream × Line))
          → copy n r ((r.read 1 s).1, record w { sent = w.sent ++ x ∷ b }) ≡ result
          → counted (length (x ∷ b)) result ≡ (done counts, (s', w'))
          → AreCopied n
          → Copies w (x ∷ b ++ fin.pending (r.read 1 s).1) counts w'
      tail x b (done (up, down), (s2, w2)) p q ih =
          let here : w2 ≡ w' = ap (λ t. t.1.1) q in
          let count : (length (x ∷ b) + up, down) ≡ counts = done-injective (ap (λ t. t.0) q) in
          let (all, sum, back, out, two) =
            ih (r.read 1 s).1 s2 (record w { sent = w.sent ++ x ∷ b }) w2 (up, down) p in
          (
            ap (λ u. u.sent) (sym here)
                ∙ all
                ∙ append_assoc w.sent (x ∷ b) (fin.pending (r.read 1 s).1),
            rw (← count) (omega (arith, sum, length-append (x ∷ b) (fin.pending (r.read 1 s).1))),
            ap (λ u. u.back) (sym here) ∙ back,
            ap (λ u. u.out) (sym here) ∙ out,
            rw (← count) two,
          )
      tail x b (failed y, (s2, w2)) p q ih = cc (ap (λ t. t.0) q)

      go :
          (b before : List ℕ)
          → before ≡ b ++ fin.pending (r.read 1 s).1
          → (b ≡ [] → before ≡ [])
          → copy_chunk (done b) (r.read 1 s).1 w (λ w'. copy n r ((r.read 1 s).1, w'))
            ≡ (done counts, (s', w'))
          → AreCopied n
          → Copies w before counts w'
      go [] before split stop e' ih =
          let here : record w { back = w.back ++ answer; out = w.out ++ answer } ≡ w' =
            ap (λ t. t.1.1) e' in
          let count : (0, 2) ≡ counts = done-injective (ap (λ t. t.0) e') in
          rw (stop refl) (
            ap (λ u. u.sent) (sym here) ∙ sym (append-nil w.sent),
            rw (← count) refl,
            ap (λ u. u.back) (sym here),
            ap (λ u. u.out) (sym here),
            rw (← count) refl,
          )
      go (x ∷ b) before split stop e' ih = rw split (tail x b _ refl e' ih)

pub net-IsDelivering : IsDelivering net
net-IsDelivering = record {
  delivered = λ remote w. w.sent;
  returned = λ remote w. w.back;
  answered = λ w. w.out;
  now_lem = λ w. refl;
  connect_socket_lem = λ addr w w' remote e. opened w w' e;
  connect_host_lem = λ addr w w' remote e. opened w w' e;
  write_all_lem = λ remote b w w' e.
      (sym (ap (λ t. t.1.sent) e), sym (ap (λ t. t.1.back) e), sym (ap (λ t. t.1.out) e));
  copy_lem = λ r fin remote s s' w w' counts e.
      let (all, up, back, out, two) = copied r fin 4096 s s' w w' counts e in
      (all, up, answer, back, out, two);
  timeout_lem =
      λ A seconds m w w' result e. λ i. (some-injective (ap (λ t. t.0) e) i, ap (λ t. t.1) e i);
}
  where
    opened :
        {t : Unit {0}} (w w' : Line)
        → ◌≡◌ {A = IoResult (Unit {0}) × Line}
            (done tt, record w { sent = []; back = [] })
            (done t, w')
        → (w'.sent ≡ []) × (w'.back ≡ []) × (w'.out ≡ w.out)
    opened w w' e =
        (sym (ap (λ t. t.1.sent) e), sym (ap (λ t. t.1.back) e), sym (ap (λ t. t.1.out) e))

    some-injective : {A : Type 0} {a b : A} → some a ≡ some b → a ≡ b
    some-injective e = cc
