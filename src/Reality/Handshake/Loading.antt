-- ===== src/Reality/Handshake/Loading.antt =====
-- The two loaders of certificates: src/tls.rs refuses a file with a malformed one, and
-- src/reality/handshake.rs skips it.
use rust.Prelude.{◌≡◌, ◌↔◌, refl, sym, ap, ◌∙◌, subst, List, [], ◌∷◌, All}
use rust.Error
use rust.Error.{Result, ok, err, panic, tls, chain_malformed}
use rust.Bytes.{Str}
use rust.Exec.Inversion.{done-injective}
use rust.Exec.{IoResult, done, failed, map_err}
use rust.Tls as Tls
use rust.Tls.{Rustls, collect}
use rust.Reality.Handshake.{or_none, filter_ok, load_certs}

-- An item that was read.
abbrev pub IsRead : {A : Type 0} → IoResult A → Type 0
IsRead (done a) = Unit {0}
IsRead (failed e) = ⊥

-- The file can be opened, and all its items are read.
unfoldable pub AreRead : (tls_lib : Rustls) → Str → Type 0
AreRead tls_lib path =
    (file : tls_lib.File) × (tls_lib.open_file path ≡ done file) × All IsRead (tls_lib.certs file)

module _ {A : Type 0} where
  collect_iff :
      (items : List (IoResult A)) (l : List A)
      → (collect items ≡ done l) ↔ (All IsRead items × (filter_ok items ≡ l))
  unfolding collect filter_ok
  collect_iff [] l = (λ e. (tt, done-injective e), λ h. ap done h.1)
  collect_iff (failed e ∷ items) l = (λ q. cc, λ h. absurd h.0.0)
  collect_iff (done a ∷ items) l = go (collect items) (λ rest. collect_iff items rest)
    where
      go :
          (rest : IoResult (List A))
          → ((r : List A) → (rest ≡ done r) ↔ (All IsRead items × (filter_ok items ≡ r)))
          → ((elim rest [ done r ↦ done (a ∷ r) | failed e ↦ failed e ]) ≡ done l)
            ↔ (All IsRead (done a ∷ items) × (a ∷ filter_ok items ≡ l))
      go (done r) ih =
          let (read, same) = (ih r).0 refl in
          (
            λ q. ((tt, read), ap (λ t. a ∷ t) same ∙ done-injective q),
            λ h. ap done (ap (λ t. a ∷ t) (sym same) ∙ h.1),
          )
      go (failed e) ih = (λ q. cc, λ h. cc ((ih (filter_ok items)).1 (h.0.1, refl)))

module _ (tls_lib : Rustls) (path : Str) (certs : List tls_lib.Certificate) where
  Agree : IoResult (List tls_lib.Certificate) → tls_lib.File → Type 0
  Agree collected file =
      (Error.◌>>=◌ (map_err (λ e. tls (chain_malformed e)) collected) (λ l. Tls.or_none tls_lib l)
        ≡ ok certs)
      ↔ ((or_none tls_lib (filter_ok (tls_lib.certs file)) ≡ ok certs) × AreRead tls_lib path)

  -- The two tests for an empty list.
  some_certs :
      (l : List tls_lib.Certificate)
      → (Tls.or_none tls_lib l ≡ ok certs) ↔ (or_none tls_lib l ≡ ok certs)
  some_certs [] = (λ e. cc, λ e. cc)
  some_certs (c ∷ cs) = (λ e. e, λ e. e)

  read_items :
      (file : tls_lib.File)
      → tls_lib.open_file path ≡ done file
      → (collected : IoResult (List tls_lib.Certificate)) → collect (tls_lib.certs file) ≡ collected
      → Agree collected file
  unfolding AreRead Agree
  read_items file q (done l) p =
      let (read, same) = (collect_iff (tls_lib.certs file) l).0 p in
      rw same (λ e. ((some_certs l).0 e, (file, q, read)), λ h. (some_certs l).1 h.0)
  read_items file q (failed e) p = (
    λ x. cc,
    λ (h, (other, q', read)).
        let same : other ≡ file = done-injective (sym q' ∙ q) in
        cc (
          p,
          (collect_iff (tls_lib.certs file) (filter_ok (tls_lib.certs file))).1
              (subst (λ f. All IsRead (tls_lib.certs f)) same read, refl),
        ),
  )

  read_file :
      (file : IoResult tls_lib.File)
      → tls_lib.open_file path ≡ file
      → (Tls.load_certs tls_lib path ≡ ok certs)
        ↔ ((load_certs tls_lib path ≡ ok certs) × AreRead tls_lib path)
  unfolding Tls.load_certs load_certs Agree
  read_file (failed e) q = rw q (λ p. cc, λ h. cc)
  read_file (done file) q = rw q (read_items file q _ refl)

  -- The loader of `tls.rs` gives certificates exactly where that of `handshake.rs` gives the same
  -- ones and no item of the file is malformed.
  pub load_certs_iff :
      (Tls.load_certs tls_lib path ≡ ok certs)
      ↔ ((load_certs tls_lib path ≡ ok certs) × AreRead tls_lib path)
  load_certs_iff = read_file _ refl
