-- ===== src/Leetcode/Tickets.antt =====
-- go-leetcode/src/solution983.go: the least that a year's travel days cost with passes for one, seven
-- and thirty days. The costs that are passed in are not negative; a sum is the 64 bits of an int, and wraps around.
pub mod Passes
use gopher.Prelude.{
  ℕ, zero, suc, ◌+◌, ◌%◌, if◌then◌else◌, List, [], ◌∷◌, Option, none, some, Bool, true, false, ◌==◌,
  ltb, get_elem?, set, member, replicate,
}

infixl 5 ◌>>=◌
abbrev pub ◌>>=◌ {ℓ κ} : {A : Type ℓ} {B : Type κ} → Option A → (A → Option B) → Option B
none >>= f = none
some a >>= f = f a

unfoldable pub add_int : ℕ → ℕ → ℕ
add_int a b = (a + b) % 0x1_0000_0000_0000_0000

-- Compared as ints with a sign.
unfoldable pub min_int : ℕ → ℕ → ℕ
min_int a b =
    if ltb ((b + 0x8000_0000_0000_0000) % 0x1_0000_0000_0000_0000)
      ((a + 0x8000_0000_0000_0000) % 0x1_0000_0000_0000_0000)
    then b
    else a

-- `dp`, with the array `payment` handed through. `none` is an index out of range, or the end of the
-- fuel.
unfoldable pub dp : List ℕ → List ℕ → ℕ → ℕ → List ℕ → Option (ℕ × List ℕ)
dp days costs zero i payment = elim (ltb 365 i) [ true ↦ some (0, payment) | false ↦ none ]
dp days costs (suc fuel) i payment = elim (ltb 365 i) [
  | true ↦ some (0, payment)
  | false ↦ elim (get_elem? payment i) [
    | none ↦ none
    | some (suc paid) ↦ some (suc paid, payment)
    | some zero ↦ elim (member i days) [
      | false ↦ do r ← dp days costs fuel (i + 1) payment; some (r.0, set r.1 i r.0)
      | true ↦ do
        a ← dp days costs fuel (i + 1) payment
        cost0 ← get_elem? costs 0
        b ← dp days costs fuel (i + 7) a.1
        cost1 ← get_elem? costs 1
        c ← dp days costs fuel (i + 30) b.1
        cost2 ← get_elem? costs 2
        let least = min_int (min_int (add_int a.0 cost0) (add_int b.0 cost1)) (add_int c.0 cost2)
        some (least, set c.1 i least)
    ]
  ]
]

-- A call for each of the 366 days, and one past them, is the deepest that it goes.
unfoldable pub mincost_tickets : List ℕ → List ℕ → Option ℕ
mincost_tickets days costs = do r ← dp days costs 366 1 (replicate 366 0); some r.0
