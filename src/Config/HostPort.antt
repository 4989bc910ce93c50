-- ===== src/Config/HostPort.antt =====
-- Which texts `validate_host_port` accepts beside socket addresses.
use rust.Prelude.{
  ℕ, ◌+◌, ◌*◌, ◌-◌, ◌≤◌, ◌≡◌, ◌≢◌, ◌↔◌, ◌⊎◌, inl, inr, refl, ap, Bool, true, false, Bool-cases,
  Option, none, some, [], ◌∷◌, ◌++◌, arith, ◌==◌, ==_iff, all, All,
}
use rust.Bytes.{Str}
use rust.Error.{ok}
use rust.Config.{
  before_last, rsplit_once, is_digit, parse_digits, some_digits, parse_u16, is_none,
  check_host_port, validate_host_port,
}

abbrev pub colon : ℕ
colon = b':'

abbrev NoColon : Str → Type 0
NoColon s = All (λ c. c ≢ colon) s

-- What splitting around the last colon gives.
abbrev IsSplit : Str → Option (Str × Str) → Type 0
IsSplit s none = NoColon s
IsSplit s (some (host, port)) = (s ≡ host ++ colon ∷ port) × NoColon port

rsplit_once-IsSplit : (s : Str) → IsSplit s (rsplit_once colon s)
unfolding rsplit_once
rsplit_once-IsSplit [] = tt
rsplit_once-IsSplit (c ∷ s) = go (rsplit_once colon s) (rsplit_once-IsSplit s)
  where
    go : (o : Option (Str × Str)) → IsSplit s o → IsSplit (c ∷ s) (before_last colon c s o)
    go (some (host, port)) (e, free) = (ap (λ t. c ∷ t) e, free)
    go none free = elim (Bool-cases (c == colon)) [
      | inl here ↦ rw here (ground arith)
      | inr other ↦ rw other (ground arith)
    ]

rsplit_once-free : (s : Str) → NoColon s → rsplit_once colon s ≡ none
unfolding rsplit_once
rsplit_once-free [] free = refl
rsplit_once-free (c ∷ s) free = rw (rsplit_once-free s free.1) (ground (arith, free.0))

rsplit_once-append :
    (host port : Str) → NoColon port → rsplit_once colon (host ++ colon ∷ port) ≡ some (host, port)
unfolding rsplit_once
rsplit_once-append [] port free = rw (rsplit_once-free port free)
rsplit_once-append (c ∷ host) port free = rw (rsplit_once-append host port free)

-- The number that digits stand for, behind `acc`.
unfoldable pub value : ℕ → Str → ℕ
value acc [] = acc
value acc (c ∷ s) = value (acc * 10 + (c - b'0')) s

-- A decimal number of 16 bits.
pub record IsNumber (s : Str) : Type 0 where
  pub some_digit : s ≢ []
  pub digits : all is_digit s ≡ true
  pub fits : value 0 s ≤ 65535

value-le : (acc : ℕ) (s : Str) → acc ≤ value acc s
unfolding value
value-le acc [] = omega arith
value-le acc (c ∷ s) = omega (arith, value-le (acc * 10 + (c - b'0')) s)

parse_digits_iff :
    (acc : ℕ) (s : Str)
    → acc ≤ 65535
    → (is_none (parse_digits acc s) ≡ false) ↔ ((all is_digit s ≡ true) × (value acc s ≤ 65535))
unfolding parse_digits value
parse_digits_iff acc [] h = ground arith
parse_digits_iff acc (c ∷ s) h =
    ground (arith, parse_digits_iff (acc * 10 + (c - b'0')) s, value-le (acc * 10 + (c - b'0')) s)

IsNumber-iff : (s : Str) → (is_none (some_digits s) ≡ false) ↔ IsNumber s
IsNumber-iff [] = (λ e. cc, λ n. absurd (n.some_digit refl))
IsNumber-iff (c ∷ s) =
    let (there, back) = parse_digits_iff 0 (c ∷ s) (omega arith) in
    (
      λ e.
          let (digits, fits) = there e in
          record { some_digit = λ q. cc; digits = digits; fits = fits },
      λ n. back (n.digits, n.fits),
    )

-- A port: a decimal number of 16 bits, with one `+` in front or none.
pub data IsPort (s : Str) : Type 0 where
  plain : IsNumber s → IsPort s
  plus : (rest : Str) → s ≡ b'+' ∷ rest → IsNumber rest → IsPort s

parse_u16-IsPort : (s : Str) → is_none (parse_u16 s) ≡ false → IsPort s
unfolding parse_u16
parse_u16-IsPort [] e = cc
parse_u16-IsPort (c ∷ s) e = elim (Bool-cases (c == b'+')) [
  | inl sign ↦ plus s (ap (λ x. x ∷ s) ((==_iff c b'+').0 sign)) ((IsNumber-iff s).0 (rw sign at e))
  | inr digit ↦ plain ((IsNumber-iff (c ∷ s)).0 (rw digit at e))
]

IsNumber-head : (c : ℕ) (s : Str) → IsNumber (c ∷ s) → (c == b'+') ≡ false
IsNumber-head c s n = ground (arith, n.digits)

IsPort-parse_u16 : (s : Str) → IsPort s → is_none (parse_u16 s) ≡ false
unfolding parse_u16
IsPort-parse_u16 [] (plain n) = absurd (n.some_digit refl)
IsPort-parse_u16 (c ∷ s) (plain n) = rw (IsNumber-head c s n) ((IsNumber-iff (c ∷ s)).1 n)
IsPort-parse_u16 s (plus rest e n) = rw e ((IsNumber-iff rest).1 n)

digits-NoColon : (s : Str) → all is_digit s ≡ true → NoColon s
digits-NoColon [] h = tt
digits-NoColon (c ∷ s) h = (λ e. ground arith, digits-NoColon s (ground arith))

IsPort-NoColon : (s : Str) → IsPort s → NoColon s
IsPort-NoColon s (plain n) = digits-NoColon s n.digits
IsPort-NoColon s (plus rest e n) = rw e ((λ q. ground arith), digits-NoColon rest n.digits)

-- A host that is not empty, a colon and a port.
pub record IsHostPort (text : Str) : Type 0 where
  pub host : Str
  pub port : Str
  pub split : text ≡ host ++ colon ∷ port
  pub some_host : host ≢ []
  pub is_port : IsPort port

check-IsHostPort :
    (field text : Str) (o : Option (Str × Str))
    → IsSplit text o
    → check_host_port field text o ≡ ok tt
    → IsHostPort text
unfolding check_host_port
check-IsHostPort field text none free e = cc
check-IsHostPort field text (some ([], port)) (split, free) e = cc
check-IsHostPort field text (some (c ∷ host, port)) (split, free) e =
    elim (Bool-cases (is_none (parse_u16 port))) [
      | inl bad ↦ cc (rw bad at e)
      | inr good ↦ record {
        host = c ∷ host;
        port = port;
        split = split;
        some_host = λ q. cc;
        is_port = parse_u16-IsPort port good;
      }
    ]

IsHostPort-check :
    (field text : Str)
    → IsHostPort text
    → check_host_port field text (rsplit_once colon text) ≡ ok tt
unfolding check_host_port
IsHostPort-check field text h =
    rw (h.split, rsplit_once-append h.host h.port (IsPort-NoColon h.port h.is_port))
      (go h.host h.some_host)
  where
    go :
        (host : Str)
        → host ≢ []
        → check_host_port field (h.host ++ colon ∷ h.port) (some (host, h.port)) ≡ ok tt
    go [] q = absurd (q refl)
    go (c ∷ host) q = rw (IsPort-parse_u16 h.port h.is_port)

-- A text is accepted as host and port exactly if the standard library reads it as a socket address,
-- or it is a host that is not empty, a colon and a decimal number of 16 bits, which may have a `+`.
pub validate_host_port_iff :
    (is_socket_addr : Str → Bool) (field text : Str)
    → (validate_host_port is_socket_addr field text ≡ ok tt)
      ↔ ((is_socket_addr text ≡ true) ⊎ IsHostPort text)
unfolding validate_host_port
validate_host_port_iff is_socket_addr field text = elim (Bool-cases (is_socket_addr text)) [
  | inl socket ↦ rw socket (λ _. inl refl, λ _. refl)
  | inr other ↦
      rw other (λ e. inr (check-IsHostPort field text _ (rsplit_once-IsSplit text) e), back other)
]
  where
    back :
        is_socket_addr text ≡ false
        → (false ≡ true) ⊎ IsHostPort text
        → check_host_port field text (rsplit_once colon text) ≡ ok tt
    back other (inl e) = cc
    back other (inr h) = IsHostPort-check field text h
