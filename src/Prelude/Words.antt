-- ===== src/Prelude/Words.antt =====
-- Names as lists of bytes, split at their last dot.
use gopher.Prelude.Tests.{◌==◌, if◌then◌else◌}
use Prim.Native.Nat.{ℕ}
use mathlib.Core.Path.{◌≡◌, refl}
use mathlib.Core.Logic.{◌≢◌}
use mathlib.Core.Option.{Option, none, some}
use mathlib.Core.List.{List, [], ◌∷◌, ◌++◌}
use native.Mathlib.Omega.{arith}

-- `strings.LastIndex(s, ".")` with the two slices around it: what stands before the last dot and
-- after it.
unfoldable pub split_last_dot : List ℕ → Option (List ℕ × List ℕ)
split_last_dot [] = none
split_last_dot (c ∷ s) = elim (split_last_dot s) [
  | some (front, back) ↦ some (c ∷ front, back)
  | none ↦ if c == b'.' then some ([], s) else none
]

abbrev pub HasNoDot : List ℕ → Type 0
HasNoDot [] = Unit
HasNoDot (c ∷ s) = (c ≢ b'.') × HasNoDot s

pub split_last_dot-none : (s : List ℕ) → HasNoDot s → split_last_dot s ≡ none
unfolding split_last_dot
split_last_dot-none [] h = refl
split_last_dot-none (c ∷ s) h = ground (arith, split_last_dot-none s h.1)

-- A name is split at the dot after which there is none.
pub split_last_dot-append :
    (front back : List ℕ)
    → HasNoDot back
    → split_last_dot (front ++ (b'.' ∷ back)) ≡ some (front, back)
unfolding split_last_dot
split_last_dot-append [] back h = ground (arith, split_last_dot-none back h)
split_last_dot-append (c ∷ front) back h = ground (arith, split_last_dot-append front back h)
