-- ===== src/Labs/Minority.antt =====
-- 6.5840/src/kvraft/config.go: Leader and make_partition, which puts the leader in the smaller of two
-- groups. `leads` is what the servers, all of them running, say of themselves in turn.
pub mod Filling
pub mod Groups
use gopher.Prelude.{
  ℕ, zero, suc, ◌+◌, ◌-◌, ◌/◌, List, [], ◌∷◌, Option, none, some, Bool, true, false, ◌==◌, ltb,
  length, get_elem?, set, replicate,
}
use gopher.Labs.Labrpc.{Run, done, fatal}
use gopher.Labs.Harness.{all_from}

-- `Leader`, from server `i` on: whether one leads, and the first.
unfoldable pub leader_from : ℕ → List Bool → Bool × ℕ
leader_from i [] = (false, 0)
leader_from i (true ∷ leads) = (true, i)
leader_from i (false ∷ leads) = leader_from (i + 1) leads

-- The loop of `make_partition` over the servers `is`, with `j` of them placed. `none` is an index out
-- of range.
unfoldable pub place_servers : ℕ → List ℕ → ℕ → List ℕ → List ℕ → Option (List ℕ × List ℕ)
place_servers l [] j p1 p2 = some (p1, p2)
place_servers l (i ∷ is) j p1 p2 = elim (i == l) [
  | true ↦ place_servers l is j p1 p2
  | false ↦ elim (ltb j (length p1)) [
    | true ↦ place_servers l is (j + 1) (set p1 j i) p2
    | false ↦ elim (get_elem? p2 (j - length p1)) [
      | none ↦ none
      | some _ ↦ place_servers l is (j + 1) p1 (set p2 (j - length p1) i)
    ]
  ]
]

unfoldable pub put_last : List ℕ → ℕ → Run (List ℕ)
put_last [] l = fatal
put_last (x ∷ []) l = done (l ∷ [])
put_last (x ∷ y ∷ p) l = elim (put_last (y ∷ p) l) [ fatal ↦ fatal | done q ↦ done (x ∷ q) ]

unfoldable pub make_partition : ℕ → List Bool → Run (List ℕ × List ℕ)
make_partition n leads =
    let l = (leader_from 0 leads).1 in
    elim (place_servers l (all_from 0 n) 0 (replicate (n / 2 + 1) 0) (replicate (n / 2) 0)) [
      | none ↦ fatal
      | some (p1, p2) ↦ elim (put_last p2 l) [ fatal ↦ fatal | done q ↦ done (p1, q) ]
    ]
