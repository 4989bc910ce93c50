-- ===== src/Proxy/Udp/Panics.antt =====
-- Reading a frame never panics: no index is out of range.
use rust.Prelude.{
  ℕ, zero, suc, ◌+◌, ◌<◌, ◌≡◌, sym, ◌∙◌, Bool, true, false, List, [], ◌∷◌, arith, length, ◌==◌,
  if◌then◌else◌,
}
use rust.Error
use rust.Error.{Result, ok, err, panic, protocol, udp_domain_length, invalid_utf8, udp_crlf}
use rust.Error.{ok_or, unexpected_eof, would_block, other}
use rust.Bytes.{index, from_utf8, bytes_eq}
use rust.Exec.{Exec, IoResult, done, failed, ◌>>=◌}
use rust.Exec.Panics.{
  bind-ne-panic, ok_or-ne-panic, raise-ne-panic, pure-ne-panic, await-ne-panic, lift-ne-panic,
  >>=-ne-panic,
}
use rust.Io.{AsyncRead}
use rust.Io.Finite.{IsFinite}
use rust.Io.Memory.{memory, read_u8, read_u16, read_exact}
use rust.Io.Memory.Laws.{read_exact-eq-done}
use rust.Protocol.Address.{Address, ipv4_at, ipv6_at, be16_at, type_ipv4, type_domain, type_ipv6}
use rust.Proxy.Udp.{
  crlf_bytes, read_ipv4, read_domain, read_ipv6, read_target_address, read_payload, read_frame_of,
  read_udp_frame,
}
use rust.Proxy.Udp.Finite.{read_udp_frame-Simulates}

index-ne-panic : (l : List ℕ) (i : ℕ) → i < length l → index l i ≡ panic → ⊥
unfolding index
index-ne-panic [] i h e = absurd (omega arith)
index-ne-panic (x ∷ l) zero h e = cc
index-ne-panic (x ∷ l) (suc i) h e = index-ne-panic l i (omega arith) e

be16_at-ne-panic : (l : List ℕ) (i : ℕ) → i + 1 < length l → be16_at l i ≡ panic → ⊥
unfolding be16_at
be16_at-ne-panic l i h =
    bind-ne-panic (index l i) _ (index-ne-panic l i (omega arith))
      λ hi. bind-ne-panic (index l (i + 1)) _ (index-ne-panic l (i + 1) h) λ lo e. cc

ipv4_at-ne-panic : (l : List ℕ) → length l ≡ 4 → ipv4_at l ≡ panic → ⊥
unfolding ipv4_at
ipv4_at-ne-panic l h =
    at 0 (omega arith)
      λ a. at 1 (omega arith) λ b. at 2 (omega arith) λ c. at 3 (omega arith) λ d e. cc
  where
    at :
        {B : Type 0} {f : ℕ → Result B} (i : ℕ)
        → i < length l
        → ((a : ℕ) → f a ≡ panic → ⊥)
        → Error.◌>>=◌ (index l i) f ≡ panic
        → ⊥
    at i short rest = bind-ne-panic (index l i) _ (index-ne-panic l i short) rest

ipv6_at-ne-panic : (l : List ℕ) → length l ≡ 16 → ipv6_at l ≡ panic → ⊥
unfolding ipv6_at
ipv6_at-ne-panic l h = at 0 (omega arith) λ s0. at 2 (omega arith) λ s1. at 4 (omega arith) λ s2.
    at 6 (omega arith) λ s3.
      at 8 (omega arith)
        λ s4. at 10 (omega arith) λ s5. at 12 (omega arith) λ s6. at 14 (omega arith) λ s7 e. cc
  where
    at :
        {B : Type 0} {f : ℕ → Result B} (i : ℕ)
        → i + 1 < length l
        → ((a : ℕ) → f a ≡ panic → ⊥)
        → Error.◌>>=◌ (be16_at l i) f ≡ panic
        → ⊥
    at i short rest = bind-ne-panic (be16_at l i) _ (be16_at-ne-panic l i short) rest

-- An exact read gives as many bytes as it is asked for.
read_length :
    (n : ℕ) (l : List ℕ) {x rest : List ℕ} → read_exact n l ≡ (done x, rest) → length x ≡ n
read_length n l e = (read_exact-eq-done n l e).1

if-ne-panic :
    {S A : Type 0} (b : Bool) (m n : Exec S A) (s : S)
    → ((m s).0 ≡ panic → ⊥)
    → ((n s).0 ≡ panic → ⊥)
    → ((if b then m else n) s).0 ≡ panic
    → ⊥
if-ne-panic true m n s hm hn = hm
if-ne-panic false m n s hm hn = hn

read_ipv4-ne-panic : (l : List ℕ) → (read_ipv4 memory l).0 ≡ panic → ⊥
unfolding read_ipv4
read_ipv4-ne-panic l = await-ne-panic (read_exact 4) _ l λ octets u e.
    await-ne-panic read_u16 _ u λ port v _.
      lift-ne-panic (ipv4_at octets) _ v (ipv4_at-ne-panic octets (read_length 4 l e))
        λ ip _. pure-ne-panic v _

read_ipv6-ne-panic : (l : List ℕ) → (read_ipv6 memory l).0 ≡ panic → ⊥
unfolding read_ipv6
read_ipv6-ne-panic l = await-ne-panic (read_exact 16) _ l λ octets u e.
    await-ne-panic read_u16 _ u λ port v _.
      lift-ne-panic (ipv6_at octets) _ v (ipv6_at-ne-panic octets (read_length 16 l e))
        λ ip _. pure-ne-panic v _

read_domain-ne-panic : (l : List ℕ) → (read_domain memory l).0 ≡ panic → ⊥
unfolding read_domain
read_domain-ne-panic l = await-ne-panic read_u8 _ l λ len u _.
    if-ne-panic (len == 0) _ _ u (raise-ne-panic u _) (
      await-ne-panic (read_exact len) _ u λ domain_buf v _.
        lift-ne-panic (ok_or (from_utf8 domain_buf) invalid_utf8) _ v (ok_or-ne-panic _ _)
          λ name _. await-ne-panic read_u16 _ v λ port w _. pure-ne-panic w _)

target-ne-panic : (atyp : ℕ) (l : List ℕ) → (read_target_address memory atyp l).0 ≡ panic → ⊥
unfolding read_target_address
target-ne-panic atyp l = if-ne-panic (atyp == type_ipv4) _ _ l (read_ipv4-ne-panic l) (
    if-ne-panic (atyp == type_domain) _ _ l (read_domain-ne-panic l)
      (if-ne-panic (atyp == type_ipv6) _ _ l (read_ipv6-ne-panic l) (raise-ne-panic l _)))

payload-ne-panic : (a : Address) (l : List ℕ) → (read_payload memory a l).0 ≡ panic → ⊥
unfolding read_payload
payload-ne-panic a l = await-ne-panic read_u16 _ l λ len u _.
    await-ne-panic (read_exact 2) _ u λ crlf v _.
      if-ne-panic (bytes_eq crlf crlf_bytes) _ _ v
        (await-ne-panic (read_exact len) _ v λ payload w _. pure-ne-panic w _) (raise-ne-panic v _)

frame-ne-panic : (first : IoResult ℕ) (l : List ℕ) → (read_frame_of memory first l).0 ≡ panic → ⊥
unfolding read_frame_of
frame-ne-panic (done atyp) l =
    >>=-ne-panic (read_target_address memory atyp) _ l (target-ne-panic atyp l)
      λ a u. payload-ne-panic a u
frame-ne-panic (failed unexpected_eof) l = pure-ne-panic l _
frame-ne-panic (failed would_block) l = raise-ne-panic l _
frame-ne-panic (failed (other code)) l = raise-ne-panic l _

slice-ne-panic : (l : List ℕ) → (read_udp_frame memory l).0 ≡ panic → ⊥
unfolding read_udp_frame ◌>>=◌
slice-ne-panic l = frame-ne-panic (read_u8 l).0 (read_u8 l).1

-- Whatever bytes a stream holds, no index and no slice is out of range as a frame is read off it.
pub read_udp_frame-ne-panic :
    (r : AsyncRead) (fin : IsFinite r) (s : r.Stream) → (read_udp_frame r s).0 ≡ panic → ⊥
read_udp_frame-ne-panic r fin s e =
    slice-ne-panic (fin.pending s) (sym ((read_udp_frame-Simulates r fin).result s) ∙ e)
