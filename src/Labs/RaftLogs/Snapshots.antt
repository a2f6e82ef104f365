-- ===== src/Labs/RaftLogs/Snapshots.antt =====
-- The snapshots of 6.5840/src/raft/config.go: `applierSnap` takes one of its server's log every ten
-- commands, and `ingestSnap` replaces the log of a server by one. `encode` and `decode` are labgob.
use gopher.Prelude.{
  ℕ, zero, suc, ◌+◌, ◌%◌, ◌≡◌, refl, List, [], ◌∷◌, Option, none, some, Bool, true, false, not,
  ◌&&◌, ◌==◌, ltb, leb, if◌then◌else◌, get_elem?, set, get_elem?-set, arith, ap,
}
use gopher.Prelude.Dict.{Dict, lookup, insert, lookup-insert}
use gopher.Prelude.Classes.{Key, nat_key}
use gopher.Labs.Labrpc.{Run, done, fatal}
use gopher.Labs.RaftLogs.{ApplyMsg, Harness, check_logs}
use gopher.Labs.RaftLogs.Agreement.{entry_at}

abbrev pub snap_shot_interval : ℕ
snap_shot_interval = 10

module _ {C : Type 0} where
  abbrev pub or_else : C → Option C → C
  or_else nil' none = nil'
  or_else nil' (some v) = v

  -- `xlog`: the commands at `j`, and at the `n` indices after it; a missing one is nil.
  unfoldable pub entries_from : C → Dict ℕ C → ℕ → ℕ → List C
  entries_from nil' log j zero = []
  entries_from nil' log j (suc n) = or_else nil' (lookup j log) ∷ entries_from nil' log (suc j) n

  unfoldable pub fill_log : ℕ → List C → Dict ℕ C → Dict ℕ C
  fill_log j [] log = log
  fill_log j (x ∷ xlog) log = fill_log (suc j) xlog (insert j x log)

  -- `true` is an error message: a snapshot for another index. The index -1 is `none`.
  unfoldable pub ingest_snap :
      (List ℕ → Option (ℕ × List C))
      → Harness C
      → ℕ
      → Option (List ℕ)
      → Option ℕ
      → Run (Bool × Harness C)
  ingest_snap decode cfg i none index = fatal
  ingest_snap decode cfg i (some snapshot) index = elim (decode snapshot) [
    | none ↦ fatal
    | some (last_included_index, xlog) ↦
        if (elim index [ none ↦ false | some k ↦ not (k == last_included_index) ])
        then done (true, cfg)
        else elim (get_elem? cfg.logs i) [
          | none ↦ fatal
          | some _ ↦ done (
            false,
            record cfg {
              logs = set cfg.logs i (fill_log 0 xlog []);
              last_applied = set cfg.last_applied i last_included_index;
            },
          )
        ]
  ]

module _ {C : Type 0} ⦃e : Key C⦄ where
  -- One message that `applierSnap` reads for a server that runs, with the snapshot that it hands to
  -- the server. What happens between an error and the end of the program is not seen.
  unfoldable pub apply_snap_msg :
      C
      → (ℕ → List C → List ℕ)
      → (List ℕ → Option (ℕ × List C))
      → ℕ
      → ApplyMsg C
      → Harness C
      → Run (Harness C × Option (ℕ × List ℕ))
  apply_snap_msg nil' encode decode i m cfg =
      if m.snapshot_valid
      then (elim (ingest_snap decode cfg i m.snapshot (some m.snapshot_index)) [
        | fatal ↦ fatal
        | done (true, _) ↦ fatal
        | done (false, cfg') ↦ done (cfg', none)
      ])
      else if m.command_valid
      then (elim (get_elem? cfg.last_applied i) [
        | none ↦ fatal
        | some last ↦
            if not (m.command_index == last + 1) then fatal else elim (check_logs cfg i m) [
              | fatal ↦ fatal
              | done (err, prevok, cfg') ↦
                  if ltb 1 m.command_index && not prevok then fatal else elim err [
                    | some _ ↦ fatal
                    | none ↦
                        let cfg1 = record cfg' {
                          last_applied = set cfg'.last_applied i m.command_index;
                        } in
                        done (
                          cfg1,
                          if (m.command_index + 1) % snap_shot_interval == 0
                              then (elim (get_elem? cfg1.logs i) [
                                | none ↦ none
                                | some log ↦ some (
                                  m.command_index,
                                  encode m.command_index
                                      (entries_from nil' log 0 (m.command_index + 1)),
                                )
                              ])
                              else none,
                        )
                  ]
            ]
      ])
      else done (cfg, none)

lookup-empty : {C : Type 0} (k : ℕ) → ◌≡◌ {A = Option C} (lookup k []) none
unfolding lookup
lookup-empty k = refl

fill_log-entries_from :
    {C : Type 0} (nil' : C) (source log : Dict ℕ C) (j n k : ℕ)
    → lookup k (fill_log j (entries_from nil' source j n) log)
      ≡ (if leb j k && ltb k (j + n) then some (or_else nil' (lookup k source)) else lookup k log)
unfolding fill_log entries_from
fill_log-entries_from nil' source log j zero k = ground arith
fill_log-entries_from nil' source log j (suc n) k =
    let x = or_else nil' (lookup j source) in
    let at : j ≡ k → lookup j source ≡ lookup k source = (λ q. ap (λ i. lookup i source) q) in
    ground (
      arith,
      fill_log-entries_from nil' source (insert j x log) (suc j) n k,
      lookup-insert j k x log,
      at,
    )

-- With an encoder that the decoder reads back, a server that takes in the snapshot that was made of a
-- log at an index has exactly the entries of that log up to the index, nil where the log had none,
-- and goes on after the index; the other servers are as they were.
pub ingest_snap-entries_from :
    {C : Type 0} (nil' : C) (encode : ℕ → List C → List ℕ) (decode : List ℕ → Option (ℕ × List C))
    (cfg : Harness C) (i index j k : ℕ) (source log : Dict ℕ C) (last : ℕ)
    → ((n : ℕ) (xs : List C) → decode (encode n xs) ≡ some (n, xs))
    → get_elem? cfg.logs i ≡ some log
    → get_elem? cfg.last_applied i ≡ some last
    → let snapshot = encode index (entries_from nil' source 0 (index + 1)) in
      (cfg' : Harness C) × (ingest_snap decode cfg i (some snapshot) (some index)
        ≡ done (false, cfg'))
      × (get_elem? cfg'.last_applied i ≡ some index)
      × (entry_at cfg'.logs j k ≡ (
          if i == j
          then if leb k index then some (or_else nil' (lookup k source)) else none
          else entry_at cfg.logs j k))
unfolding ingest_snap
ingest_snap-entries_from {C = C} nil' encode decode cfg i index j k source log last codec g l =
    let xlog = entries_from nil' source 0 (index + 1) in
    let log' = fill_log 0 xlog [] in
    (
      record cfg { logs = set cfg.logs i log'; last_applied = set cfg.last_applied i index },
      ground (arith, codec index xlog),
      ground (arith, get_elem?-set cfg.last_applied i i index),
      ground (
        arith,
        get_elem?-set cfg.logs i j log',
        fill_log-entries_from nil' source [] 0 (index + 1) k,
        lookup-empty {C = C} k,
      ),
    )
