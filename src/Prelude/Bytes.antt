-- ===== src/Prelude/Bytes.antt =====
-- `encoding/binary`'s big-endian integers on byte slices, by the digits in base 256.
use Prim.Native.Nat.{ℕ, zero, suc, ◌+◌, ◌*◌, ◌/◌, ◌%◌, ◌^◌, ◌<◌}
use mathlib.Core.Path.{◌≡◌, refl, ap, ◌∙◌}
use mathlib.Core.List.{List, [], ◌∷◌, reverse, reverse-cons, reverse-reverse}
use native.Mathlib.Omega.{arith}
use native.Mathlib.Nat.{pow-suc}
use tamizdat.Prelude.Lists.{length, length-reverse, All, All-append}

abbrev pub Bytes : Type 0
Bytes = List ℕ

abbrev pub IsByte : ℕ → Type 0
IsByte b = b < 256

abbrev pub AllBytes : Bytes → Type 0
AllBytes = All IsByte

-- The `n` low digits of `v`, lowest first, and the number that digits spell.
abbrev pub le_bytes : ℕ → ℕ → Bytes
le_bytes zero v = []
le_bytes (suc n) v = v % 256 ∷ le_bytes n (v / 256)

abbrev pub from_le : Bytes → ℕ
from_le [] = 0
from_le (b ∷ bs) = b + 256 * from_le bs

-- `binary.BigEndian.PutUint16` and its like write `be_bytes`, and `Uint16` and its like read `from_be`.
abbrev pub be_bytes : ℕ → ℕ → Bytes
be_bytes n v = reverse (le_bytes n v)

abbrev pub from_be : Bytes → ℕ
from_be bs = from_le (reverse bs)

from_le-le_bytes : (n v : ℕ) → v < 256 ^ n → from_le (le_bytes n v) ≡ v
from_le-le_bytes zero v h = omega (arith, h)
from_le-le_bytes (suc n) v h =
    omega (arith, from_le-le_bytes n (v / 256) (omega (arith, pow-suc 256 n)))

-- Two lists of bytes of one length that spell one number are one list.
le_bytes-from_le : (bs : Bytes) → AllBytes bs → le_bytes (length bs) (from_le bs) ≡ bs
le_bytes-from_le [] h = refl
le_bytes-from_le (b ∷ bs) (hb, hbs) = rw (head_digit, tail_digits, le_bytes-from_le bs hbs)
  where
    head_digit : (b + 256 * from_le bs) % 256 ≡ b
    head_digit = omega arith

    tail_digits : (b + 256 * from_le bs) / 256 ≡ from_le bs
    tail_digits = omega arith

le_bytes-bytes : (n v : ℕ) → AllBytes (le_bytes n v)
le_bytes-bytes zero v = tt
le_bytes-bytes (suc n) v = (omega arith, le_bytes-bytes n (v / 256))

length-le_bytes : (n v : ℕ) → length (le_bytes n v) ≡ n
length-le_bytes zero v = refl
length-le_bytes (suc n) v = ap suc (length-le_bytes n (v / 256))

from_le-lt : (bs : Bytes) → AllBytes bs → from_le bs < 256 ^ length bs
from_le-lt [] h = omega arith
from_le-lt (b ∷ bs) (hb, hbs) = omega (arith, from_le-lt bs hbs, pow-suc 256 (length bs))

reverse-bytes : (bs : Bytes) → AllBytes bs → AllBytes (reverse bs)
reverse-bytes [] h = tt
reverse-bytes (b ∷ bs) (hb, hbs) =
    rw (reverse-cons b bs) (All-append IsByte (reverse bs) (b ∷ []) (reverse-bytes bs hbs) (hb, tt))

pub length-be_bytes : (n v : ℕ) → length (be_bytes n v) ≡ n
length-be_bytes n v = length-reverse (le_bytes n v) ∙ length-le_bytes n v

pub be_bytes-bytes : (n v : ℕ) → AllBytes (be_bytes n v)
be_bytes-bytes n v = reverse-bytes (le_bytes n v) (le_bytes-bytes n v)

pub from_be-be_bytes : (n v : ℕ) → v < 256 ^ n → from_be (be_bytes n v) ≡ v
from_be-be_bytes n v h = rw (reverse-reverse (le_bytes n v)) (from_le-le_bytes n v h)

le_bytes-reverse : (bs : Bytes) → AllBytes bs → le_bytes (length bs) (from_be bs) ≡ reverse bs
le_bytes-reverse bs h =
    rw (← length-reverse bs) (le_bytes-from_le (reverse bs) (reverse-bytes bs h))

pub be_bytes-from_be : (bs : Bytes) → AllBytes bs → be_bytes (length bs) (from_be bs) ≡ bs
be_bytes-from_be bs h = rw (le_bytes-reverse bs h) (reverse-reverse bs)

pub from_be-lt : (bs : Bytes) → AllBytes bs → from_be bs < 256 ^ length bs
from_be-lt bs h = rw (← length-reverse bs) (from_le-lt (reverse bs) (reverse-bytes bs h))
