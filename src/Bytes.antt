-- ===== src/Bytes.antt =====
-- Bytes, slices and strings as the Rust standard library gives them to the program.
pub mod Laws
pub mod Utf8
use rust.Prelude.{
  ℕ, zero, suc, ◌+◌, ◌-◌, ◌*◌, ◌/◌, ◌%◌, ◌<◌, Bool, true, false, ◌&&◌, ◌||◌, Option, none, some,
  List, [], ◌∷◌, ◌++◌, ltb, leb, ◌==◌, if◌then◌else◌, length, take, drop, All,
}
use rust.Error.{Result, ok, panic}

abbrev pub IsByte : ℕ → Type 0
IsByte b = b < 256

abbrev pub IsU16 : ℕ → Type 0
IsU16 n = n < 65536

abbrev pub AreBytes : List ℕ → Type 0
AreBytes = All IsByte

-- A Rust `String`: its bytes, which are UTF-8.
abbrev pub Str : Type 0
Str = List ℕ

-- `u16::from_be_bytes([hi, lo])`
abbrev pub be16 : ℕ → ℕ → ℕ
be16 hi lo = hi * 256 + lo

-- `n.to_be_bytes()` of a u16
abbrev pub to_be16 : ℕ → List ℕ
to_be16 n = n / 256 ∷ n % 256 ∷ []

-- `l[i]`
unfoldable pub index : List ℕ → ℕ → Result ℕ
index [] i = panic
index (b ∷ bs) zero = ok b
index (b ∷ bs) (suc i) = index bs i

-- `&l[from..to]`
unfoldable pub slice : List ℕ → ℕ → ℕ → Result (List ℕ)
slice l from to =
    if leb from to && leb to (length l) then ok (take (to - from) (drop from l)) else panic

-- `&l[from..]`
unfoldable pub slice_from : List ℕ → ℕ → Result (List ℕ)
slice_from l from = if leb from (length l) then ok (drop from l) else panic

unfoldable pub is_ascii_hexdigit : ℕ → Bool
is_ascii_hexdigit b = leb 48 b && leb b 57 || (leb 65 b && leb b 70 || leb 97 b && leb b 102)

unfoldable pub to_ascii_lowercase : ℕ → ℕ
to_ascii_lowercase b = if leb 65 b && leb b 90 then b + 32 else b

unfoldable pub eq_ignore_ascii_case : List ℕ → List ℕ → Bool
eq_ignore_ascii_case [] [] = true
eq_ignore_ascii_case [] (b ∷ bs) = false
eq_ignore_ascii_case (a ∷ as') [] = false
eq_ignore_ascii_case (a ∷ as') (b ∷ bs) =
    to_ascii_lowercase a == to_ascii_lowercase b && eq_ignore_ascii_case as' bs

-- `a == b` on byte slices
unfoldable pub bytes_eq : List ℕ → List ℕ → Bool
bytes_eq [] [] = true
bytes_eq [] (b ∷ bs) = false
bytes_eq (a ∷ as') [] = false
bytes_eq (a ∷ as') (b ∷ bs) = a == b && bytes_eq as' bs

-- UTF-8 as the standard library checks it: how many bytes a character still needs, and the range
-- of the next one.
abbrev Utf8State : Type 0
Utf8State = ℕ × ℕ × ℕ

pub utf8_lead : ℕ → Option Utf8State
utf8_lead b =
    if ltb b 0x80
    then some (0, 0, 0)
    else if leb 0xc2 b && leb b 0xdf
    then some (1, 0x80, 0xbf)
    else if b == 0xe0
    then some (2, 0xa0, 0xbf)
    else if b == 0xed
    then some (2, 0x80, 0x9f)
    else if leb 0xe1 b && leb b 0xef
    then some (2, 0x80, 0xbf)
    else if b == 0xf0
    then some (3, 0x90, 0xbf)
    else if leb 0xf1 b && leb b 0xf3
    then some (3, 0x80, 0xbf)
    else if b == 0xf4
    then some (3, 0x80, 0x8f)
    else none

pub utf8_step : ℕ → ℕ → ℕ → ℕ → Option Utf8State
unfolding utf8_lead
utf8_step zero lo hi b = utf8_lead b
utf8_step (suc k) lo hi b = if leb lo b && leb b hi then some (k, 0x80, 0xbf) else none

unfoldable pub utf8_run : ℕ → ℕ → ℕ → List ℕ → Bool
unfolding utf8_step
utf8_run need lo hi [] = need == 0
utf8_run need lo hi (b ∷ bs) = elim (utf8_step need lo hi b) [
  | none ↦ false
  | some (n, l, h) ↦ utf8_run n l h bs
]

unfoldable pub valid_utf8 : List ℕ → Bool
unfolding utf8_run
valid_utf8 l = utf8_run 0 0 0 l

-- `String::from_utf8(l)`; the error carries nothing that the code keeps.
unfoldable pub from_utf8 : List ℕ → Option Str
from_utf8 l = if valid_utf8 l then some l else none

-- `u64::from_be_bytes(l)`: the first byte is the highest.
unfoldable pub from_be : ℕ → List ℕ → ℕ
from_be acc [] = acc
from_be acc (b ∷ bs) = from_be (acc * 256 + b) bs

-- The decimal digits of a number below 10 ^ fuel, as `{}` formats it.
decimal_digits : ℕ → ℕ → List ℕ
decimal_digits zero n = []
decimal_digits (suc fuel) n =
    let front = decimal_digits fuel (n / 10) in
    (if ltb n 10 then [] else front) ++ (48 + n % 10) ∷ []

-- `n.to_string()`; a u64 has at most 20 digits.
unfoldable pub to_string : ℕ → Str
unfolding decimal_digits
to_string n = decimal_digits 20 n
