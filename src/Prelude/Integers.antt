-- ===== src/Prelude/Integers.antt =====
-- Go's int and time.Duration: integers over the native numbers, with the wrap-around of 64 bits.
use gopher.Prelude.Tests.{ltb, leb, ◌==◌, if◌then◌else◌}
use Prim.Native.Nat.{ℕ, zero, suc, ◌+◌, ◌-◌, ◌*◌, ◌/◌, ◌%◌, ◌<◌}
use mathlib.Core.List.{List, [], ◌∷◌}
use mathlib.Core.Path.{◌≡◌}
use mathlib.Core.Bool.{Bool, true, false}
use native.Mathlib.Omega.{arith}

-- `negsuc n` is -(n + 1).
pub data ℤ : Type 0 where
  pos : ℕ → ℤ
  negsuc : ℕ → ℤ

abbrev pub neg : ℕ → ℤ
neg zero = pos 0
neg (suc n) = negsuc n

-- a - b
unfoldable pub diff : ℕ → ℕ → ℤ
diff a b = if leb b a then pos (a - b) else negsuc (b - a - 1)

infixl 40 ◌+ℤ◌
unfoldable pub ◌+ℤ◌ : ℤ → ℤ → ℤ
pos a +ℤ pos b = pos (a + b)
pos a +ℤ negsuc b = diff a (b + 1)
negsuc a +ℤ pos b = diff b (a + 1)
negsuc a +ℤ negsuc b = negsuc (a + b + 1)

infixl 45 ◌*ℤ◌
unfoldable pub ◌*ℤ◌ : ℤ → ℤ → ℤ
pos a *ℤ pos b = pos (a * b)
pos a *ℤ negsuc b = neg (a * (b + 1))
negsuc a *ℤ pos b = neg ((a + 1) * b)
negsuc a *ℤ negsuc b = pos ((a + 1) * (b + 1))

-- z <= 0
unfoldable pub is_nonpos : ℤ → Bool
is_nonpos (pos n) = n == 0
is_nonpos (negsuc n) = true

unfoldable pub ltℤ : ℤ → ℤ → Bool
ltℤ (pos a) (pos b) = ltb a b
ltℤ (pos a) (negsuc b) = false
ltℤ (negsuc a) (pos b) = true
ltℤ (negsuc a) (negsuc b) = ltb b a

-- The 64 bits of a number, as a natural number and read with their sign.
unfoldable pub bits64 : ℤ → ℕ
bits64 (pos n) = n % 0x1_0000_0000_0000_0000
bits64 (negsuc n) = 0xFFFF_FFFF_FFFF_FFFF - n % 0x1_0000_0000_0000_0000

unfoldable pub signed64 : ℕ → ℤ
signed64 m = if ltb m 0x8000_0000_0000_0000 then pos m else negsuc (0xFFFF_FFFF_FFFF_FFFF - m)

unfoldable pub wrap64 : ℤ → ℤ
wrap64 z = signed64 (bits64 z)

-- A number that fits is left as it is.
pub wrap64-pos : (n : ℕ) → n < 0x8000_0000_0000_0000 → wrap64 (pos n) ≡ pos n
unfolding wrap64 signed64 bits64
wrap64-pos n h = ground arith

-- Unsigned numbers in decimal.
unfoldable pub digits : ℕ → ℕ → List ℕ → List ℕ
digits zero n s = s
digits (suc fuel) n s =
    let rest = digits fuel (n / 10) ((b'0' + n % 10) ∷ s) in
    if ltb n 10 then (b'0' + n) ∷ s else rest

-- `strconv.Itoa`, on a 64-bit int; 20 digits are enough.
unfoldable pub itoa : ℤ → List ℕ
itoa (pos n) = digits 20 n []
itoa (negsuc n) = b'-' ∷ digits 20 (n + 1) []
