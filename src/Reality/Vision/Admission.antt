-- ===== src/Reality/Vision/Admission.antt =====
-- A client that knows a password is let in, and its machine goes on with what follows the request.
use rust.Prelude.{
  ℕ, ◌≡◌, ◌⊎◌, inl, inr, refl, sym, ap, ◌∙◌, true, false, Option, none, some, List, [], ◌∷◌, ◌++◌,
  arith, length, any,
}
use rust.Error.{Result, ok, err, timeout}
use rust.Bytes.{Str, from_utf8, eq_ignore_ascii_case}
use rust.Bytes.Laws.{eq_ignore_ascii_case_iff, from_utf8-some}
use rust.Bytes.Utf8.{hex-valid_utf8}
use rust.Exec.{Exec, ◌>>=◌}
use rust.Io.{AsyncRead}
use rust.Io.Finite.{IsFinite}
use rust.Io.Memory.{memory}
use rust.Reality.Vision.{
  VisionAuthRequest, VisionProtocol, vision_hash_len, is_expired, encode_request, read_auth_request,
  authenticate, admit, in_time,
}
use rust.Reality.Vision.Laws.{IsRequest, base, read_auth_request-encode_request}
use rust.Reality.Vision.Finite.{read_auth_request-Simulates}
use rust.Reality.Vision.Authenticate.{IsPassword, IsTimely}
use rust.Reality.StateMachine.{
  ConnectionStateMachine, authenticated, new, transition_to_authenticating, from_state, take_stream,
  on_authenticate, get_auth_result, into_stream,
}

IsPassword-any :
    (hash : Str) (passwords : List Str)
    → IsPassword hash passwords
    → any (λ candidate. eq_ignore_ascii_case candidate hash) passwords ≡ true
IsPassword-any hash [] p = absurd p
IsPassword-any hash (candidate ∷ rest) p =
    ground (arith, eq_ignore_ascii_case_iff candidate hash, IsPassword-any hash rest)

admit-IsPassword :
    (q : VisionAuthRequest) (passwords : List Str)
    → IsPassword q.password_hash passwords
    → admit passwords q (some q.password_hash) ≡ ok (q.command, q.address)
unfolding admit
admit-IsPassword q passwords known = rw (IsPassword-any q.password_hash passwords known)

module _ (compute_hash : List ℕ → List ℕ)
    (hash_size : (l : List ℕ) → length (compute_hash l) ≡ vision_hash_len) (r : AsyncRead)
    (fin : IsFinite r)
    (timeout_of : ℕ
      → Exec r.Stream VisionAuthRequest
      → r.Stream
      → Option (Result VisionAuthRequest) × r.Stream)
    (timely : IsTimely timeout_of) (vision : VisionProtocol) (now : ℕ) (passwords : List Str) where
  -- The machine of the stream, once it was authenticated.
  abbrev pub Authenticated :
      r.Stream → Result (ConnectionStateMachine r.Stream) × ConnectionStateMachine r.Stream
  Authenticated s =
      transition_to_authenticating compute_hash r timeout_of vision (some now) passwords (new s)

  -- The time was over before the request was read.
  abbrev pub IsLate : r.Stream → Type 0
  IsLate s =
      (timeout_of vision.auth_timeout (read_auth_request compute_hash r (some now)) s).0 ≡ none

  -- The request is admitted: the machine has its command and address, and the stream behind it.
  pub record Admits (q : VisionAuthRequest) (rest : List ℕ)
      (run : Result (ConnectionStateMachine r.Stream)) : Type 0 where
    pub machine : ConnectionStateMachine r.Stream
    pub returned : run ≡ ok machine
    pub result : get_auth_result machine ≡ some (q.command, q.address)
    pub stream : r.Stream
    pub kept : into_stream machine ≡ some stream
    pub pending : fin.pending stream ≡ rest

  -- What the stream gives.
  request_read :
      (q : VisionAuthRequest) (bytes rest : List ℕ) (s : r.Stream)
      → IsRequest q
      → is_expired now q.timestamp ≡ false
      → encode_request compute_hash q ≡ ok bytes
      → fin.pending s ≡ bytes ++ rest
      → ((read_auth_request compute_hash r (some now) s).0
          ≡ ok (record q { integrity_hash = compute_hash (base q) }))
        × (fin.pending (read_auth_request compute_hash r (some now) s).1 ≡ rest)
  request_read q bytes rest s w fresh e pending =
      let (bytes', e', found) =
        read_auth_request-encode_request compute_hash hash_size q now rest w fresh in
      let same : bytes ≡ bytes' = cc in
      let sim = read_auth_request-Simulates compute_hash r fin (some now) in
      let here : read_auth_request compute_hash memory (some now) (fin.pending s)
          ≡ (ok (record q { integrity_hash = compute_hash (base q) }), rest) =
        rw (pending, same) found in
      (sim.result s ∙ ap (λ p. p.0) here, sim.state s ∙ ap (λ p. p.1) here)

  -- By what became of the read within its time.
  attempted :
      (q q' : VisionAuthRequest) (rest : List ℕ) (s : r.Stream)
      → (admit passwords q' (from_utf8 q'.password_hash) ≡ ok (q.command, q.address))
      → ((read_auth_request compute_hash r (some now) s).0 ≡ ok q')
      → (fin.pending (read_auth_request compute_hash r (some now) s).1 ≡ rest)
      → (attempt : Option (Result VisionAuthRequest) × r.Stream)
      → timeout_of vision.auth_timeout (read_auth_request compute_hash r (some now)) s ≡ attempt
      → Admits q rest (Authenticated s).0 ⊎ (((Authenticated s).0 ≡ err timeout) × IsLate s)
  unfolding transition_to_authenticating from_state take_stream on_authenticate new authenticate
      in_time get_auth_result into_stream ◌>>=◌
  attempted q q' rest s known read left (none, s') ran = rw ran (inr (refl, refl))
  attempted q q' rest s known read left (some result, s') ran =
      let here = timely.in_time_lem vision.auth_timeout _ s s' result ran in
      let same : result ≡ ok q' = sym (ap (λ p. p.0) here) ∙ read in
      inl (record {
        machine = record {
          stream = some s';
          state = authenticated;
          auth_result = some (q.command, q.address);
          fallback_address = none;
        };
        returned = rw (ran, same, known);
        result = refl;
        stream = s';
        kept = refl;
        pending = ap fin.pending (sym (ap (λ p. p.1) here)) ∙ left;
      })

  -- A client that knows a configured password and sends an encoded request, which is not expired at
  -- the server's clock, and then `rest`: the machine of its stream comes back authenticated, with
  -- the command and the address of the request, and with a stream that gives exactly `rest`; or the
  -- time was over before the request was read. This holds for every hash function with results of
  -- 28 bytes.
  pub encode_request-Admits :
      (q : VisionAuthRequest) (bytes rest : List ℕ) (s : r.Stream)
      → IsRequest q
      → is_expired now q.timestamp ≡ false
      → IsPassword q.password_hash passwords
      → encode_request compute_hash q ≡ ok bytes
      → fin.pending s ≡ bytes ++ rest
      → Admits q rest (Authenticated s).0 ⊎ (((Authenticated s).0 ≡ err timeout) × IsLate s)
  encode_request-Admits q bytes rest s w fresh known e pending =
      let (read, left) = request_read q bytes rest s w fresh e pending in
      attempted q (record q { integrity_hash = compute_hash (base q) }) rest s
        (rw (from_utf8-some q.password_hash (hex-valid_utf8 q.password_hash w.hex))
          (admit-signed q (compute_hash (base q)) known))
        read left _ refl
    where
      admit-signed :
          (q : VisionAuthRequest) (hash : List ℕ)
          → IsPassword q.password_hash passwords
          → admit passwords (record q { integrity_hash = hash }) (some q.password_hash)
            ≡ ok (q.command, q.address)
      admit-signed q hash known =
          admit-IsPassword (record q { integrity_hash = hash }) passwords known
