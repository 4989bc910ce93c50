-- ===== src/Tests/Ext.antt =====
-- Exact reads that take one byte after the other: an instance of tokio's `AsyncReadExt` that keeps
-- its promises.
use rust.Prelude.{ℕ, zero, suc, ◌≤◌, ◌≡◌, refl, sym, ap, ◌∙◌, List, [], ◌∷◌, ◌++◌, arith, length}
use rust.Error.{unexpected_eof}
use rust.Bytes.{be16, from_be}
use rust.Exec.{Io, IoResult, done, failed}
use rust.Exec.Simulates.{SimulatesIo}
use rust.Io.Memory
use rust.Io.Finite.{IsFinite}
use rust.Io.Extension.{AsyncReadExt, IsChunked, IsExact, reader}

abbrev pub map_io : {A B : Type 0} → (A → B) → IoResult A → IoResult B
map_io f (done a) = done (f a)
map_io f (failed e) = failed e

-- A byte before what a read gave.
abbrev cons_io : {S : Type 0} → ℕ → IoResult (List ℕ) × S → IoResult (List ℕ) × S
cons_io x (r, s) = (map_io (λ l. x ∷ l) r, s)

-- The head of a chunk, and the rest of the read; `s` is the stream behind the chunk.
abbrev after_chunk :
    {S : Type 0} → IoResult (List ℕ) → S → IoResult (List ℕ) × S → IoResult (List ℕ) × S
after_chunk (done []) s rest = (failed unexpected_eof, s)
after_chunk (done (x ∷ b)) s rest = cons_io x rest
after_chunk (failed e) s rest = (failed e, s)

abbrev pub read_exact : {S : Type 0} → (ℕ → Io S (List ℕ)) → ℕ → Io S (List ℕ)
read_exact read zero s = (done [], s)
read_exact read (suc n) s = after_chunk (read 1 s).0 (read 1 s).1 (read_exact read n (read 1 s).1)

abbrev map_state : {S A B : Type 0} → (A → B) → Io S A → Io S B
map_state f m s = (map_io f (m s).0, (m s).1)

abbrev head_of : List ℕ → ℕ
head_of [] = 0
head_of (x ∷ l) = x

abbrev word_of : List ℕ → ℕ
word_of (hi ∷ lo ∷ l) = be16 hi lo
word_of _ = 0

abbrev pub ext : AsyncReadExt
ext = record {
  read_exact = read_exact;
  read_u8 = λ read. map_state head_of (read_exact read 1);
  read_u16 = λ read. map_state word_of (read_exact read 2);
  read_u64 = λ read. map_state (from_be 0) (read_exact read 8);
}

memory_cons :
    (n x : ℕ) (l : List ℕ) → Memory.read_exact (suc n) (x ∷ l) ≡ cons_io x (Memory.read_exact n l)
unfolding Memory.read_exact
memory_cons n x l = ground arith

memory_nil : (n : ℕ) → Memory.read_exact (suc n) [] ≡ (failed unexpected_eof, [])
unfolding Memory.read_exact
memory_nil n = ground arith

memory_zero : (l : List ℕ) → Memory.read_exact 0 l ≡ (done [], l)
unfolding Memory.read_exact
memory_zero l = ground arith

module _ {S : Type 0} (read : ℕ → Io S (List ℕ)) (pending : S → List ℕ)
    (c : IsChunked pending read) where
  abbrev Agrees : ℕ → S → Type 0
  Agrees n s =
      ((read_exact read n s).0 ≡ (Memory.read_exact n (pending s)).0)
      × (pending (read_exact read n s).1 ≡ (Memory.read_exact n (pending s)).1)

  exact : (n : ℕ) (s : S) → Agrees n s
  exact zero s = rw (memory_zero (pending s)) (refl, refl)
  exact (suc n) s =
      let (b, got, part) = c.chunk 1 s in
      go b (pending s) got part.split part.fits (part.progress (omega arith)) (exact n (read 1 s).1)
    where
      go :
          (b before : List ℕ)
          → (read 1 s).0 ≡ done b
          → before ≡ b ++ pending (read 1 s).1
          → length b ≤ 1
          → (b ≡ [] → before ≡ [])
          → Agrees n (read 1 s).1
          → ((read_exact read (suc n) s).0 ≡ (Memory.read_exact (suc n) before).0)
            × (pending (read_exact read (suc n) s).1 ≡ (Memory.read_exact (suc n) before).1)
      go [] before got split fits stop ih =
          rw (got, stop refl, memory_nil n) (refl, sym split ∙ stop refl)
      go (x ∷ []) before got split fits stop ih =
          rw (got, split, memory_cons n x (pending (read 1 s).1))
            (ap (map_io (λ l. x ∷ l)) ih.0, ih.1)
      go (x ∷ y ∷ b) before got split fits stop ih = absurd (omega arith)

  mapped :
      {A : Type 0} (n : ℕ) (f : List ℕ → A) (p : Io (List ℕ) A)
      → ((l : List ℕ) → p l ≡ map_state f (Memory.read_exact n) l)
      → SimulatesIo pending (map_state f (read_exact read n)) p
  mapped n f p same = record {
    result = λ s. rw same (ap (map_io f) (exact n s).0);
    state = λ s. rw same (exact n s).1;
  }

  u8_same : (l : List ℕ) → Memory.read_u8 l ≡ map_state head_of (Memory.read_exact 1) l
  unfolding Memory.read_u8 Memory.read_exact
  u8_same [] = refl
  u8_same (x ∷ l) = ground arith

  u16_same : (l : List ℕ) → Memory.read_u16 l ≡ map_state word_of (Memory.read_exact 2) l
  unfolding Memory.read_u16 Memory.read_exact
  u16_same [] = refl
  u16_same (x ∷ []) = refl
  u16_same (x ∷ y ∷ l) = ground arith

  u64_same : (l : List ℕ) → Memory.read_u64 l ≡ map_state (from_be 0) (Memory.read_exact 8) l
  unfolding Memory.read_u64 Memory.read_exact
  u64_same l = ground arith

  finite : IsFinite (reader ext S read)
  finite = record {
    pending = pending;
    read_chunk = c.chunk;
    exact_lem = λ n. record { result = λ s. (exact n s).0; state = λ s. (exact n s).1 };
    u8_lem = mapped 1 head_of Memory.read_u8 u8_same;
    u16_lem = mapped 2 word_of Memory.read_u16 u16_same;
    u64_lem = mapped 8 (from_be 0) Memory.read_u64 u64_same;
  }

pub ext-IsExact : IsExact ext
unfolding finite
ext-IsExact = record { finite = λ S read pending c. (finite read pending c, λ s. refl) }
