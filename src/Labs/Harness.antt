-- ===== src/Labs/Harness.antt =====
-- 6.5840/src/kvraft/config.go: the harness that wires the key/value servers of a test. The name of
-- an end is a number, as in Labs/Labrpc.antt; `randstring` is the list of names that is handed in.
pub mod Links
pub mod Sides
use gopher.Prelude.{
  ℕ, zero, suc, ◌+◌, List, [], ◌∷◌, Option, none, some, Bool, true, false, get_elem?,
}
use gopher.Labs.Labrpc.{Run, done, fatal, Network, enable}

-- `endnames`: the row of a server is nil until the server is started.
abbrev pub Endnames : Type 0
Endnames = List (Option (List ℕ))

-- `cfg.endnames[i][j]`, where an index out of range, also into nil, ends the test.
unfoldable pub endname_at : Endnames → ℕ → ℕ → Option ℕ
endname_at names i j = elim (get_elem? names i) [
  | none ↦ none
  | some none ↦ none
  | some (some row) ↦ get_elem? row j
]

abbrev pub run_then {ℓ κ} : {A : Type ℓ} {B : Type κ} → Run A → (A → Run B) → Run B
run_then (done a) f = f a
run_then fatal f = fatal

-- `All`, the servers from `i` on.
unfoldable pub all_from : ℕ → ℕ → List ℕ
all_from i zero = []
all_from i (suc n) = i ∷ all_from (suc i) n

module _ {W : Type 0} where
  unfoldable pub enable_outgoing : Endnames → ℕ → List ℕ → Network W → Run (Network W)
  enable_outgoing names i [] rn = done rn
  enable_outgoing names i (t ∷ to) rn = elim (endname_at names i t) [
    | none ↦ fatal
    | some endname ↦ enable_outgoing names i to (enable rn endname true)
  ]

  unfoldable pub enable_incoming : Endnames → ℕ → List ℕ → Network W → Run (Network W)
  enable_incoming names i [] rn = done rn
  enable_incoming names i (t ∷ to) rn = elim (endname_at names t i) [
    | none ↦ fatal
    | some endname ↦ enable_incoming names i to (enable rn endname true)
  ]

  -- Attaches server `i` to the servers in `to`.
  unfoldable pub connect_unlocked : Endnames → ℕ → List ℕ → Network W → Run (Network W)
  connect_unlocked names i to rn =
      run_then (enable_outgoing names i to rn) (enable_incoming names i to)

  unfoldable pub disable_outgoing : Endnames → ℕ → List ℕ → Network W → Run (Network W)
  disable_outgoing names i [] rn = done rn
  disable_outgoing names i (f ∷ from) rn = elim (get_elem? names i) [
    | none ↦ fatal
    | some none ↦ disable_outgoing names i from rn
    | some (some row) ↦ elim (get_elem? row f) [
      | none ↦ fatal
      | some endname ↦ disable_outgoing names i from (enable rn endname false)
    ]
  ]

  -- The guard looks at the row of the loop's index `j`, not at that of the server `from[j]`.
  unfoldable pub disable_incoming : Endnames → ℕ → ℕ → List ℕ → Network W → Run (Network W)
  disable_incoming names i j [] rn = done rn
  disable_incoming names i j (f ∷ from) rn = elim (get_elem? names j) [
    | none ↦ fatal
    | some none ↦ disable_incoming names i (suc j) from rn
    | some (some _) ↦ elim (endname_at names f i) [
      | none ↦ fatal
      | some endname ↦ disable_incoming names i (suc j) from (enable rn endname false)
    ]
  ]

  -- Detaches server `i` from the servers in `from`.
  unfoldable pub disconnect_unlocked : Endnames → ℕ → List ℕ → Network W → Run (Network W)
  disconnect_unlocked names i from rn =
      run_then (disable_outgoing names i from rn) (disable_incoming names i 0 from)

  unfoldable pub connect_each : Endnames → List ℕ → List ℕ → Network W → Run (Network W)
  connect_each names [] to rn = done rn
  connect_each names (i ∷ is) to rn =
      run_then (connect_unlocked names i to rn) (connect_each names is to)

  unfoldable pub connect_all : Endnames → ℕ → Network W → Run (Network W)
  connect_all names n = connect_each names (all_from 0 n) (all_from 0 n)

  -- One loop of `partition`: each server of `is` leaves the other side and joins its own.
  unfoldable pub move_each : Endnames → List ℕ → List ℕ → List ℕ → Network W → Run (Network W)
  move_each names [] mine other rn = done rn
  move_each names (i ∷ is) mine other rn =
      run_then (disconnect_unlocked names i other rn)
        (λ rn1. run_then (connect_unlocked names i mine rn1) (move_each names is mine other))

  unfoldable pub partition_servers : Endnames → List ℕ → List ℕ → Network W → Run (Network W)
  partition_servers names p1 p2 rn =
      run_then (move_each names p1 p1 p2 rn) (move_each names p2 p2 p1)
