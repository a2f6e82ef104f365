-- ===== src/Labs/RaftTests.antt =====
-- Runs of the checks of the Raft harness, and the theorems about them at concrete inputs.
use gopher.Prelude.{
  ℕ, zero, suc, ◌+◌, ◌<◌, ◌≡◌, ◌≢◌, refl, List, [], ◌∷◌, Option, none, some, Bool, true, false,
  ◌==◌, leb, if◌then◌else◌, arith, inl, get_elem?,
}
use gopher.Prelude.Dict.{Dict, lookup, insert}
use gopher.Prelude.Classes.{nat_key}
use gopher.Labs.Labrpc.{done, fatal}
use gopher.Labs.RaftLogs.{
  ApplyMsg, Harness, conflict, check_logs, prev_ok, apply_msg, apply_all, n_committed,
}
use gopher.Labs.RaftLogs.Agreement.{
  entry_at, IsTheEntry, IsSound, IsSound-replicate, apply_all-IsSound, apply_msg-fatal, holders,
  n_committed-IsSound,
}
use gopher.Labs.RaftLogs.Snapshots.{or_else, entries_from, ingest_snap, ingest_snap-entries_from}
use gopher.Labs.Leaders.{Look, find_leader, check_one_leader}
use gopher.Labs.Leaders.Terms.{Leads}
use gopher.Labs.Leaders.Election.{IsElected, OneEach, find_leader-fatal, check_one_leader-IsElected}

abbrev msg : ℕ → ℕ → ApplyMsg ℕ
msg index v = record {
  command_valid = true;
  command = v;
  command_index = index;
  snapshot_valid = false;
  snapshot = none;
  snapshot_index = 0;
}

-- Two servers, nothing committed.
abbrev start2 : Harness ℕ
start2 = record { logs = [] ∷ [] ∷ []; last_applied = 0 ∷ 0 ∷ []; max_index = 0 }

abbrev messages : List (ℕ × ApplyMsg ℕ)
messages = (0, msg 1 7) ∷ (1, msg 1 7) ∷ (0, msg 2 8) ∷ []

abbrev applied2 : Harness ℕ
applied2 = record {
  logs = ((1, 7) ∷ (2, 8) ∷ []) ∷ ((1, 7) ∷ []) ∷ [];
  last_applied = 0 ∷ 0 ∷ [];
  max_index = 2;
}

applied : apply_all messages start2 ≡ done applied2
unfolding apply_all apply_msg check_logs conflict lookup insert prev_ok
applied = refl

start2-IsSound : IsSound start2.logs
start2-IsSound = IsSound-replicate 2

apply_all-IsSound_example : IsSound applied2.logs
apply_all-IsSound_example = apply_all-IsSound messages start2 applied2 start2-IsSound applied

applied2-IsSound : IsSound applied2.logs
applied2-IsSound = apply_all-IsSound messages start2 applied2 start2-IsSound applied

has_seven : entry_at applied2.logs 1 1 ≡ some 7
unfolding lookup
has_seven = refl

seven_not_nine : ◌≢◌ {A = ℕ} 7 9
seven_not_nine e = ground arith

apply_msg-fatal_example : apply_msg 0 (msg 1 9) applied2 ≡ fatal
apply_msg-fatal_example =
    apply_msg-fatal 0 (msg 1 9) applied2 refl (inl (1, 7, has_seven, seven_not_nine))

n_committed-IsSound_example :
    (cmd : ℕ) × (n_committed 0 applied2 1 ≡ done (holders 1 applied2.logs, cmd))
    × IsTheEntry applied2.logs 1 cmd
n_committed-IsSound_example = n_committed-IsSound 0 applied2 1 applied2-IsSound

-- A coder of snapshots whose bytes are the numbers themselves.
abbrev encode0 : ℕ → List ℕ → List ℕ
encode0 index xs = index ∷ xs

abbrev decode0 : List ℕ → Option (ℕ × List ℕ)
decode0 [] = none
decode0 (index ∷ xs) = some (index, xs)

abbrev source0 : Dict ℕ ℕ
source0 = (1, 7) ∷ (2, 8) ∷ []

ingest_snap-entries_from_example :
    (cfg' : Harness ℕ) × (ingest_snap decode0 applied2 1
        (some (encode0 2 (entries_from 0 source0 0 (2 + 1))))
        (some 2)
      ≡ done (false, cfg'))
    × (get_elem? cfg'.last_applied 1 ≡ some 2)
    × (entry_at cfg'.logs 1 2 ≡ (
        if 1 == 1
        then if leb 2 2 then some (or_else 0 (lookup 2 source0)) else none
        else entry_at applied2.logs 1 2))
ingest_snap-entries_from_example =
    ingest_snap-entries_from 0 encode0 decode0 applied2 1 2 1 2 source0 ((1, 7) ∷ []) 0
      (λ n xs. refl) refl refl

abbrev look : Bool → ℕ → Bool → Look
look connected term leader = record { connected = connected; term = term; leader = leader }

-- Server 0 was cut off in term 1 and still believes to lead; server 2 leads in term 2.
abbrev looks : List Look
looks = look false 1 true ∷ look true 2 false ∷ look true 2 true ∷ []

abbrev quiet_looks : List Look
quiet_looks = look true 1 false ∷ []

looks-OneEach : OneEach looks
looks-OneEach zero k t a b = absurd (ground (arith, a.seen, a.connected))
looks-OneEach (suc zero) k t a b = absurd (ground (arith, a.seen, a.leader))
looks-OneEach (suc (suc zero)) zero t a b = absurd (ground (arith, b.seen, b.connected))
looks-OneEach (suc (suc zero)) (suc zero) t a b = absurd (ground (arith, b.seen, b.leader))
looks-OneEach (suc (suc zero)) (suc (suc zero)) t a b = refl
looks-OneEach (suc (suc zero)) (suc (suc (suc k))) t a b = absurd (ground (arith, b.seen))
looks-OneEach (suc (suc (suc j))) k t a b = absurd (ground (arith, a.seen))

quiet_looks-OneEach : OneEach quiet_looks
quiet_looks-OneEach zero k t a b = absurd (ground (arith, a.seen, a.leader))
quiet_looks-OneEach (suc j) k t a b = absurd (ground (arith, a.seen))

leader2 : Leads looks 2 2
leader2 = record {
  look = look true 2 true;
  seen = refl;
  connected = refl;
  leader = refl;
  in_term = refl;
}

check_one_leader-IsElected_example :
    (i : ℕ) × (k : ℕ) × (seen : List Look) × (check_one_leader (quiet_looks ∷ looks ∷ []) ≡ done i)
    × (get_elem? (quiet_looks ∷ looks ∷ []) k ≡ some seen)
    × IsElected seen i
check_one_leader-IsElected_example =
    check_one_leader-IsElected (quiet_looks ∷ looks ∷ []) 1 2 2 looks
      (quiet_looks-OneEach, (looks-OneEach, tt)) refl leader2

abbrev split_looks : List Look
split_looks = look true 2 true ∷ look true 2 true ∷ []

Leads-split_looks : (i : ℕ) → i < 2 → Leads split_looks i 2
Leads-split_looks zero h = record {
  look = look true 2 true;
  seen = refl;
  connected = refl;
  leader = refl;
  in_term = refl;
}
Leads-split_looks (suc zero) h = record {
  look = look true 2 true;
  seen = refl;
  connected = refl;
  leader = refl;
  in_term = refl;
}
Leads-split_looks (suc (suc i)) h = absurd (omega arith)

zero_not_one : ◌≢◌ {A = ℕ} 0 1
zero_not_one e = ground arith

find_leader-fatal_example : find_leader split_looks ≡ fatal
find_leader-fatal_example =
    find_leader-fatal split_looks 0 1 2 (Leads-split_looks 0 (omega arith))
      (Leads-split_looks 1 (omega arith)) zero_not_one
