-- ===== src/Labs/Leaders.antt =====
-- The checks of 6.5840/src/raft/config.go on what the connected servers say of themselves. One look
-- at a server is whether it is connected, and the term and the claim to lead of its `GetState`.
pub mod Terms
pub mod Claimants
pub mod Election
use gopher.Prelude.{
  ℕ, zero, suc, ◌+◌, List, [], ◌∷◌, ◌++◌, Option, none, some, Bool, true, false, not, ◌&&◌, ◌||◌,
  ◌==◌, ltb, if◌then◌else◌, length, get_or, get_elem?,
}
use gopher.Prelude.Dict.{Dict, lookup, insert}
use gopher.Prelude.Classes.{nat_key}
use gopher.Labs.Labrpc.{Run, done, fatal}

pub record Look : Type 0 where
  pub connected : Bool
  pub term : ℕ
  pub leader : Bool

-- A missing entry reads as nil.
abbrev pub or_empty : Option (List ℕ) → List ℕ
or_empty none = []
or_empty (some xs) = xs

-- `leaders`: who claims to lead in which term, from server `i` on.
unfoldable pub leaders_from : ℕ → List Look → Dict ℕ (List ℕ) → Dict ℕ (List ℕ)
leaders_from i [] leaders = leaders
leaders_from i (s ∷ ss) leaders = leaders_from (suc i) ss (
    if s.connected && s.leader
    then insert s.term (or_empty (lookup s.term leaders) ++ (i ∷ [])) leaders
    else leaders)

abbrev pub higher : Option ℕ → ℕ → Option ℕ
higher none term = some term
higher (some t) term = if ltb t term then some term else some t

-- The loop over `leaders`: a term with two leaders ends the test, and the highest term is kept; -1
-- is `none`.
unfoldable pub last_term : Option ℕ → Dict ℕ (List ℕ) → Run (Option ℕ)
last_term last [] = done last
last_term last ((term, is) ∷ rest) =
    if ltb 1 (length is) then fatal else last_term (higher last term) rest

-- One iteration of `checkOneLeader`. A leader is what it returns; without one it looks again.
unfoldable pub find_leader : List Look → Run (Option ℕ)
find_leader ss =
    let leaders = leaders_from 0 ss [] in
    elim (last_term none leaders) [
      | fatal ↦ fatal
      | done none ↦ done none
      | done (some term) ↦ elim (or_empty (lookup term leaders)) [
        | [] ↦ fatal
        | i ∷ _ ↦ done (some i)
      ]
    ]

-- `checkOneLeader`: what is seen in each of its (ten) iterations. Without a leader it fails.
unfoldable pub check_one_leader : List (List Look) → Run ℕ
check_one_leader [] = fatal
check_one_leader (ss ∷ rounds) = elim (find_leader ss) [
  | fatal ↦ fatal
  | done (some i) ↦ done i
  | done none ↦ check_one_leader rounds
]

-- `checkTerms`, with -1 as `none`.
unfoldable pub check_terms : Option ℕ → List Look → Run (Option ℕ)
check_terms term [] = done term
check_terms term (s ∷ ss) =
    if s.connected
    then (elim term [
      | none ↦ check_terms (some s.term) ss
      | some t ↦ if t == s.term then check_terms (some t) ss else fatal
    ])
    else check_terms term ss

unfoldable pub check_no_leader : List Look → Run (Unit {0})
check_no_leader [] = done tt
check_no_leader (s ∷ ss) = if s.connected && s.leader then fatal else check_no_leader ss
