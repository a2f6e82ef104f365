-- ===== src/Leetcode/Seats.antt =====
-- go-leetcode/src/solution1845.go: reserving the free seat with the smallest number.
pub mod Writes
pub mod Reserving
pub mod Returning
use gopher.Prelude.{
  ℕ, zero, suc, ◌+◌, ◌≤◌, ◌<◌, ◌≡◌, ◌≢◌, refl, sym, ◌∙◌, List, [], ◌∷◌, Option, none, some, Bool,
  false, ◌==◌, arith, if◌then◌else◌, length, get_elem?, set, replicate, length-set,
  length-replicate, get_elem?-set, ◌⊎◌, inl, inr, Bool-cases, ltb, subst,
}
use gopher.Prelude.Integers.{ℤ, pos, negsuc}

-- `ok[0]` is the smallest free seat, or `n` when none is free; the seats are 1 to n - 1, and a seat
-- is free at 0 and reserved at -1.
pub record SeatManager : Type 0 where
  pub n : ℕ
  pub ok : List ℤ

unfoldable pub constructor : ℕ → SeatManager
constructor n = record { n = n + 1; ok = set (replicate (n + 1) (pos 0)) 0 (pos 1) }

abbrev pub is_reserved : ℤ → Bool
is_reserved (pos k) = false
is_reserved (negsuc k) = k == 0

-- The loop from a seat on; `none` is an index out of range, or the end of the fuel.
unfoldable pub next_free : ℕ → SeatManager → ℕ → Option ℕ
next_free zero s i = none
next_free (suc fuel) s i =
    let rest = next_free fuel s (i + 1) in
    elim (get_elem? s.ok i) [
      | none ↦ none
      | some cell ↦ if is_reserved cell then (if i + 1 == s.n then some s.n else rest) else some i
    ]

-- `none` is an index out of range. A round for each cell is enough for the loop.
unfoldable pub reserve : SeatManager → Option (SeatManager × ℕ)
reserve s = elim (get_elem? s.ok 0) [
  | none ↦ none
  | some (negsuc k) ↦ none
  | some (pos seat) ↦ elim (get_elem? s.ok seat) [
    | none ↦ none
    | some _ ↦
        let t = record s { ok = set s.ok seat (negsuc 0) } in
        elim (next_free s.n t seat) [
          | none ↦ none
          | some i ↦ some (record t { ok = set t.ok 0 (pos i) }, seat)
        ]
  ]
]

unfoldable pub unreserve : SeatManager → ℕ → Option SeatManager
unreserve s seat = elim (get_elem? s.ok seat) [
  | none ↦ none
  | some _ ↦
      let t = record s { ok = set s.ok seat (pos 0) } in
      elim (get_elem? t.ok 0) [
        | none ↦ none
        | some (negsuc k) ↦ some t
        | some (pos least) ↦
            some (if ltb seat least then record t { ok = set t.ok 0 (pos seat) } else t)
      ]
]

abbrev pub IsReserved : SeatManager → ℕ → Type 0
IsReserved s i = get_elem? s.ok i ≡ some (negsuc 0)

abbrev pub IsFree : SeatManager → ℕ → Type 0
IsFree s i = get_elem? s.ok i ≡ some (pos 0)

-- The first entry is `least`, the smallest free seat, or n.
pub record Inv (s : SeatManager) (least : ℕ) : Type 0 where
  pub first : get_elem? s.ok 0 ≡ some (pos least)
  pub low : 0 < least
  pub high : least ≤ s.n
  pub size : length s.ok ≡ s.n
  pub cells : (i : ℕ) → 0 < i → i < s.n → IsReserved s i ⊎ IsFree s i
  pub below : (i : ℕ) → 0 < i → i < least → IsReserved s i
  pub here : least < s.n → IsFree s least
