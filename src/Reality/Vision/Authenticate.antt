-- ===== src/Reality/Vision/Authenticate.antt =====
-- Whom `VisionProtocol::authenticate` lets in.
use rust.Prelude.{
  ℕ, ◌<◌, ◌^◌, ◌≡◌, ◌⊎◌, inl, inr, refl, sym, ap, ◌∙◌, true, Bool-cases, Option, none, some, List,
  [], ◌∷◌, arith, any, map,
}
use rust.Error.{Result, ok}
use rust.Bytes.{AreBytes, Str, eq_ignore_ascii_case, to_ascii_lowercase, from_utf8}
use rust.Bytes.Laws.{eq_ignore_ascii_case_iff}
use rust.Exec.{Exec, lift, perform}
use rust.Io.{AsyncRead}
use rust.Protocol.Command.{Command}
use rust.Protocol.Address.{Address}
use rust.Exec.Inversion.{>>=-cases, lift-eq-ok, perform-eq-ok}
use rust.Prelude.{subst}
use rust.Reality.Vision.{
  VisionProtocol, VisionAuthRequest, authenticate, admit, in_time, read_auth_request,
}
use rust.Reality.Vision.Sound.{IsReceived, read_auth_request_sound, read_auth_request_no_clock}
use rust.Reality.Vision.Finite.{read_auth_request-Simulates}
use rust.Exec.Simulates.{Simulates}
use rust.Io.Finite.{IsFinite}
use rust.Io.Memory.{memory}

-- One of the passwords is this one, but for the case of letters.
abbrev pub IsPassword : Str → List Str → Type 0
IsPassword hash [] = ⊥
IsPassword hash (candidate ∷ rest) =
    (map to_ascii_lowercase candidate ≡ map to_ascii_lowercase hash) ⊎ IsPassword hash rest

any-IsPassword :
    (hash : Str) (passwords : List Str)
    → any (λ candidate. eq_ignore_ascii_case candidate hash) passwords ≡ true
    → IsPassword hash passwords
any-IsPassword hash [] e = cc
any-IsPassword hash (candidate ∷ rest) e =
    ground (arith, eq_ignore_ascii_case_iff candidate hash, any-IsPassword hash rest)

-- What tokio's documentation promises of a timed action that ends in time.
pub record IsTimely {S A : Type 0} (timeout_of : ℕ → Exec S A → S → Option (Result A) × S)
    : Type 0 where
  pub in_time_lem :
      (seconds : ℕ) (m : Exec S A) (s s' : S) (result : Result A)
      → timeout_of seconds m s ≡ (some result, s')
      → m s ≡ (result, s')

module _ (compute_hash : List ℕ → List ℕ) (r : AsyncRead) (fin : IsFinite r)
    (timeout_of : ℕ
      → Exec r.Stream VisionAuthRequest
      → r.Stream
      → Option (Result VisionAuthRequest) × r.Stream)
    (timely : IsTimely timeout_of) where
  -- What a successful authentication found on the stream: a genuine request of a configured password.
  pub record Authenticates (clock : Option ℕ) (passwords : List Str) (s : r.Stream)
      (target : Command × Address) (s' : r.Stream) : Type 0 where
    pub request : VisionAuthRequest
    pub now : ℕ
    pub at : clock ≡ some now
    pub received : IsReceived compute_hash now (fin.pending s) (fin.pending s') request
    pub password : IsPassword request.password_hash passwords
    pub asked : target ≡ (request.command, request.address)

  in_time-eq-ok :
      (attempt : Option (Result VisionAuthRequest)) (q : VisionAuthRequest)
      → in_time attempt ≡ ok q
      → attempt ≡ some (ok q)
  unfolding in_time
  in_time-eq-ok none q e = cc
  in_time-eq-ok (some result) q e = ap some e

  admit-eq-ok :
      (passwords : List Str) (q : VisionAuthRequest) (text : Option Str)
      (target : Command × Address)
      → admit passwords q text ≡ ok target
      → (hash : Str) × (text ≡ some hash)
        × IsPassword hash passwords
        × (target ≡ (q.command, q.address))
  unfolding admit
  admit-eq-ok passwords q none target e = cc
  admit-eq-ok passwords q (some hash) target e =
      elim (Bool-cases (any (λ candidate. eq_ignore_ascii_case candidate hash) passwords)) [
        | inl known ↦
            let e' = rw known at e in (hash, refl, any-IsPassword hash passwords known, cc)
        | inr other ↦ cc (rw other at e)
      ]

  from_utf8-eq-some : (l : List ℕ) (text : Str) → from_utf8 l ≡ some text → text ≡ l
  unfolding from_utf8
  from_utf8-eq-some l text e = ground arith

  -- A request that the stream gave stood in front of its bytes.
  stream-IsReceived :
      (clock : Option ℕ) (s s' : r.Stream) (q : VisionAuthRequest)
      → ((now : ℕ) → clock ≡ some now → now < 2 ^ 63)
      → AreBytes (fin.pending s)
      → read_auth_request compute_hash r clock s ≡ (ok q, s')
      → (now : ℕ) × (clock ≡ some now)
        × IsReceived compute_hash now (fin.pending s) (fin.pending s') q
  stream-IsReceived clock s s' q bound b e = go clock bound (λ i. (
    (sym (sim.result s) ∙ ap (λ p. p.0) e) i,
    (sym (sim.state s) ∙ ap (λ p. fin.pending p.1) e) i,
  ))
    where
      sim :
          Simulates fin.pending
            (read_auth_request compute_hash r clock)
            (read_auth_request compute_hash memory clock)
      sim = read_auth_request-Simulates compute_hash r fin clock

      go :
          (c : Option ℕ)
          → ((now : ℕ) → c ≡ some now → now < 2 ^ 63)
          → read_auth_request compute_hash memory c (fin.pending s) ≡ (ok q, fin.pending s')
          → (now : ℕ) × (c ≡ some now)
            × IsReceived compute_hash now (fin.pending s) (fin.pending s') q
      go none bound e =
          absurd (read_auth_request_no_clock compute_hash (fin.pending s) (fin.pending s') q b e)
      go (some now) bound e = (
        now,
        refl,
        read_auth_request_sound compute_hash now (fin.pending s) (fin.pending s') q (bound now refl)
            b e,
      )

  -- Who is authenticated, and for what, where the server's clock stands before 2^63 seconds: the
  -- client's bytes begin with the layout of a request, its version and 56 hexadecimal digits
  -- included, and then the hash of that layout, and the stream that is left gives what follows. The
  -- timestamp is at most 300 seconds away from the server's clock, modulo 2^64, or exactly 2^63
  -- seconds ahead of it. The password is configured but for the case of letters; the command and the
  -- address are those of that request; whatever the hash function.
  pub authenticate-Authenticates :
      (vision : VisionProtocol) (clock : Option ℕ) (passwords : List Str) (s s' : r.Stream)
      (target : Command × Address)
      → ((now : ℕ) → clock ≡ some now → now < 2 ^ 63)
      → AreBytes (fin.pending s)
      → authenticate compute_hash r timeout_of vision clock passwords s ≡ (ok target, s')
      → Authenticates clock passwords s target s'
  unfolding authenticate
  authenticate-Authenticates vision clock passwords s s' target bound b e =
      >>=-cases (perform (timeout_of vision.auth_timeout (read_auth_request compute_hash r clock)))
        _ s e
        λ attempt s1 e0 e1. >>=-cases (lift (in_time attempt)) _ s1 e1 λ q s2 e2 e3.
          let (read, same) = lift-eq-ok (in_time attempt) e2 in
          let (admitted, same') = lift-eq-ok _ e3 in
          let ran : timeout_of vision.auth_timeout (read_auth_request compute_hash r clock) s
              ≡ (some (ok q), s') =
            perform-eq-ok _ e0 ∙ λ i. (in_time-eq-ok attempt q read i, (same ∙ same') i) in
          let begins = timely.in_time_lem vision.auth_timeout _ s s' (ok q) ran in
          let (now, at, received) = stream-IsReceived clock s s' q bound b begins in
          let (hash, text, known, asked) = admit-eq-ok passwords q _ target admitted in
          record {
            request = q;
            now = now;
            at = at;
            received = received;
            password =
                subst (λ h. IsPassword h passwords) (from_utf8-eq-some q.password_hash hash text)
                  known;
            asked = asked;
          }
