-- ===== src/Labs/RaftLogs.antt =====
-- 6.5840/src/raft/config.go: what the appliers of the Raft harness keep of the commands that the
-- servers report, and how they check them. A command is a value of any type whose values can be
-- compared; `nil` is the empty one. `log.Fatalf` and `t.Fatal` end the run.
pub mod Agreement
pub mod Snapshots
use gopher.Prelude.{
  ℕ, zero, suc, ◌+◌, ◌%◌, ◌≡◌, List, [], ◌∷◌, ◌++◌, Option, none, some, Bool, true, false, not,
  ◌&&◌, ◌||◌, ◌==◌, ltb, if◌then◌else◌, length, get_elem?, set,
}
use gopher.Prelude.Dict.{Dict, lookup, insert}
use gopher.Prelude.Classes.{Key, nat_key}
use gopher.Labs.Labrpc.{Run, done, fatal}

-- A message on an apply channel.
pub record ApplyMsg (C : Type 0) : Type 0 where
  pub command_valid : Bool
  pub command : C
  pub command_index : ℕ
  pub snapshot_valid : Bool
  pub snapshot : Option (List ℕ)
  pub snapshot_index : ℕ

-- The committed commands of every server, and how far each has applied.
pub record Harness (C : Type 0) : Type 0 where
  pub logs : List (Dict ℕ C)
  pub last_applied : List ℕ
  pub max_index : ℕ

abbrev pub is_some {ℓ} : {A : Type ℓ} → Option A → Bool
is_some none = false
is_some (some a) = true

-- The entry before an index. There is none before the first.
unfoldable pub prev_ok {ℓ} : {C : Type ℓ} → Dict ℕ C → ℕ → Bool
prev_ok log zero = false
prev_ok log (suc index) = is_some (lookup index log)

module _ {C : Type 0} ⦃e : Key C⦄ where
  -- The server with another command at the index; the last one is in the message.
  unfoldable pub conflict : ℕ → C → ℕ → List (Dict ℕ C) → Option ℕ
  conflict index v j [] = none
  conflict index v j (log ∷ logs) =
      let later = conflict index v (suc j) logs in
      elim later [
        | some k ↦ some k
        | none ↦ elim (lookup index log) [
          | none ↦ none
          | some old ↦ if e.eqb old v then none else some j
        ]
      ]

  -- `checkLogs`: the conflict, whether the entry before was there, and the command written down.
  unfoldable pub check_logs : Harness C → ℕ → ApplyMsg C → Run (Option ℕ × Bool × Harness C)
  check_logs cfg i m = elim (get_elem? cfg.logs i) [
    | none ↦ fatal
    | some log ↦ done (
      conflict m.command_index m.command 0 cfg.logs,
      prev_ok log m.command_index,
      record cfg {
        logs = set cfg.logs i (insert m.command_index m.command log);
        max_index = if ltb cfg.max_index m.command_index then m.command_index else cfg.max_index;
      },
    )
  ]

  -- One message that `applier` reads.
  unfoldable pub apply_msg : ℕ → ApplyMsg C → Harness C → Run (Harness C)
  apply_msg i m cfg =
      if m.command_valid
      then (elim (check_logs cfg i m) [
        | fatal ↦ fatal
        | done (err, prevok, cfg') ↦
            if ltb 1 m.command_index && not prevok
            then fatal
            else elim err [ some _ ↦ fatal | none ↦ done cfg' ]
      ])
      else done cfg

  -- The messages of all the appliers in the order in which they take the lock.
  unfoldable pub apply_all : List (ℕ × ApplyMsg C) → Harness C → Run (Harness C)
  apply_all [] cfg = done cfg
  apply_all ((i, m) ∷ ms) cfg = elim (apply_msg i m cfg) [
    | fatal ↦ fatal
    | done cfg' ↦ apply_all ms cfg'
  ]

  -- `nCommitted`, from the servers seen so far: how many have an entry at the index, and which. The
  -- appliers end the program before they would leave an error, so that no error is left to report;
  -- there is a log for every Raft server.
  unfoldable pub count_committed : ℕ → ℕ → C → List (Dict ℕ C) → Run (ℕ × C)
  count_committed index count cmd [] = done (count, cmd)
  count_committed index count cmd (log ∷ logs) = elim (lookup index log) [
    | none ↦ count_committed index count cmd logs
    | some cmd1 ↦
        if ltb 0 count && not (e.eqb cmd cmd1)
        then fatal
        else count_committed index (count + 1) cmd1 logs
  ]

  abbrev pub n_committed : C → Harness C → ℕ → Run (ℕ × C)
  n_committed nil' cfg index = count_committed index 0 nil' cfg.logs
