-- ===== src/Labs/RaftLogs/Agreement.antt =====
-- What the checks of the appliers in 6.5840/src/raft/config.go are worth: the servers that get
-- through them agree on every entry and have applied them in order.
use gopher.Prelude.{
  ℕ, zero, suc, ◌+◌, ◌≤◌, ◌<◌, ◌≡◌, ◌≢◌, refl, List, [], ◌∷◌, Option, none, some, true, false, not,
  ◌&&◌, ◌==◌, ltb, if◌then◌else◌, length, keep, get_elem?, set, get_elem?-set, arith, ◌⊎◌, inl, inr,
  Option-cases, Bool-cases, subst, sym, ap, replicate,
}
use gopher.Prelude.Dict.{Dict, lookup, insert, lookup-insert}
use gopher.Prelude.Classes.{Key, nat_key}
use gopher.Labs.Labrpc.{done, fatal, Run-cases}
use gopher.Labs.RaftLogs.{
  ApplyMsg, Harness, is_some, prev_ok, conflict, check_logs, apply_msg, apply_all, count_committed,
  n_committed,
}

module _ {C : Type 0} where
  -- What server `i` has at an index.
  abbrev pub entry_at : List (Dict ℕ C) → ℕ → ℕ → Option C
  entry_at logs i index = elim (get_elem? logs i) [ none ↦ none | some log ↦ lookup index log ]

  -- Every server that has an entry at the index has this one.
  abbrev pub IsTheEntry : List (Dict ℕ C) → ℕ → C → Type 0
  IsTheEntry logs index cmd = (j : ℕ) (w : C) → entry_at logs j index ≡ some w → w ≡ cmd

  -- No two servers have different commands at one index, and a server that has an entry after the
  -- first also has the one before it.
  pub record IsSound (logs : List (Dict ℕ C)) : Type 0 where
    pub agree :
        (i j index : ℕ) (v w : C)
        → entry_at logs i index ≡ some v
        → entry_at logs j index ≡ some w
        → v ≡ w
    pub no_gap :
        (i index : ℕ)
        → 1 ≤ index
        → is_some (entry_at logs i (suc index)) ≡ true
        → is_some (entry_at logs i index) ≡ true

  entry_at-replicate :
      (n i index : ℕ) (empty : Dict ℕ C) → empty ≡ [] → entry_at (replicate n empty) i index ≡ none
  unfolding lookup
  entry_at-replicate zero i index empty q = refl
  entry_at-replicate (suc n) zero index empty q = ap (lookup index) q
  entry_at-replicate (suc n) (suc i) index empty q = entry_at-replicate n i index empty q

  -- Before the first command.
  pub IsSound-replicate : (n : ℕ) → IsSound (replicate n [])
  IsSound-replicate n = record {
    agree = λ i j index v w g h. absurd (ground (arith, entry_at-replicate n i index [] refl));
    no_gap = λ i index l g. absurd (ground (arith, entry_at-replicate n i (suc index) [] refl));
  }

  entry_at-set :
      (logs : List (Dict ℕ C)) (i index j k : ℕ) (v : C) (log : Dict ℕ C)
      → get_elem? logs i ≡ some log
      → entry_at (set logs i (insert index v log)) j k
        ≡ (if i == j && index == k then some v else entry_at logs j k)
  entry_at-set logs i index j k v log g =
      ground (arith, get_elem?-set logs i j (insert index v log), lookup-insert index k v log)

module _ {C : Type 0} ⦃e : Key C⦄ where
  conflict-none :
      (index : ℕ) (v : C) (k : ℕ) (logs : List (Dict ℕ C)) (j : ℕ) (w : C)
      → conflict index v k logs ≡ none
      → entry_at logs j index ≡ some w
      → w ≡ v
  unfolding conflict
  conflict-none index v k [] j w h g = absurd (ground arith)
  conflict-none index v k (log ∷ logs) zero w h g =
      elim (Option-cases (conflict index v (suc k) logs)) [
        | inr (o, r) ↦ absurd (ground arith)
        | inl r ↦ ground (arith, e.eqb_iff w v)
      ]
  conflict-none index v k (log ∷ logs) (suc j) w h g =
      elim (Option-cases (conflict index v (suc k) logs)) [
        | inr (o, r) ↦ absurd (ground arith)
        | inl r ↦ conflict-none index v (suc k) logs j w r g
      ]

  conflict-all :
      (index : ℕ) (v : C) (k : ℕ) (logs : List (Dict ℕ C))
      → ((j : ℕ) (w : C) → entry_at logs j index ≡ some w → w ≡ v)
      → conflict index v k logs ≡ none
  unfolding conflict
  conflict-all index v k [] h = refl
  conflict-all index v k (log ∷ logs) h =
      let rest = conflict-all index v (suc k) logs (λ j w g. h (suc j) w g) in
      elim (Option-cases (lookup index log)) [
        | inl o ↦ ground arith
        | inr (w, o) ↦ ground (arith, h 0 w o, e.eqb_iff w v)
      ]

  -- What a message that is let through did.
  pub record Applied (i : ℕ) (m : ApplyMsg C) (cfg cfg' : Harness C) : Type 0 where
    pub log : Dict ℕ C
    pub at : get_elem? cfg.logs i ≡ some log
    pub before : (ltb 1 m.command_index && not (prev_ok log m.command_index)) ≡ false
    pub no_conflict : conflict m.command_index m.command 0 cfg.logs ≡ none
    pub after : cfg'.logs ≡ set cfg.logs i (insert m.command_index m.command log)

  apply_msg-Applied :
      (i : ℕ) (m : ApplyMsg C) (cfg cfg' : Harness C)
      → m.command_valid ≡ true
      → apply_msg i m cfg ≡ done cfg'
      → Applied i m cfg cfg'
  unfolding apply_msg check_logs
  apply_msg-Applied i m cfg cfg' v h = elim (Option-cases (get_elem? cfg.logs i)) [
    | inl g ↦ absurd (ground arith)
    | inr (log, g) ↦
        elim (Bool-cases (ltb 1 m.command_index && not (prev_ok log m.command_index))) [
          | inl p ↦ absurd (ground arith)
          | inr p ↦ elim (Option-cases (conflict m.command_index m.command 0 cfg.logs)) [
            | inr (k, c) ↦ absurd (ground arith)
            | inl c ↦ record {
              log = log;
              at = g;
              before = p;
              no_conflict = c;
              after = ground arith;
            }
          ]
        ]
  ]

  apply_msg-invalid :
      (i : ℕ) (m : ApplyMsg C) (cfg cfg' : Harness C)
      → m.command_valid ≡ false
      → apply_msg i m cfg ≡ done cfg'
      → cfg ≡ cfg'
  unfolding apply_msg
  apply_msg-invalid i m cfg cfg' v h = ground arith

  IsSound-Applied :
      (i : ℕ) (m : ApplyMsg C) (cfg cfg' : Harness C)
      → IsSound cfg.logs
      → Applied i m cfg cfg'
      → IsSound cfg'.logs
  unfolding prev_ok
  IsSound-Applied i m cfg cfg' h a =
      let logs' = set cfg.logs i (insert m.command_index m.command a.log) in
      let at' : (j k : ℕ)
          → entry_at logs' j k
            ≡ (if i == j && m.command_index == k then some m.command else entry_at cfg.logs j k) =
        (λ j k. entry_at-set cfg.logs i m.command_index j k m.command a.log a.at) in
      let same : (j : ℕ) (w : C) → entry_at cfg.logs j m.command_index ≡ some w → w ≡ m.command =
        (λ j w g. conflict-none m.command_index m.command 0 cfg.logs j w a.no_conflict g) in
      let last : (k : ℕ)
          → m.command_index ≡ suc k
          → prev_ok a.log m.command_index ≡ is_some (lookup k a.log) =
        (λ k q. ap (prev_ok a.log) q) in
      let kept : IsSound logs' = record {
        agree = λ i1 j1 k v w gv gw.
            ground (arith, at' i1 k, at' j1 k, same i1 v, same j1 w, h.agree i1 j1 k v w);
        no_gap = λ i1 k hk g.
            ground (arith, at' i1 (suc k), at' i1 k, h.no_gap i1 k hk, last k, a.before, a.at);
      } in
      subst IsSound (sym a.after) kept

  -- The appliers run from logs that are sound to logs that are sound, for every order in which the
  -- messages of the servers arrive, or they end the program.
  pub apply_all-IsSound :
      (ms : List (ℕ × ApplyMsg C)) (cfg cfg' : Harness C)
      → IsSound cfg.logs
      → apply_all ms cfg ≡ done cfg'
      → IsSound cfg'.logs
  unfolding apply_all
  apply_all-IsSound [] cfg cfg' h r =
      subst (λ c. IsSound c.logs) (let q : cfg ≡ cfg' = ground arith in q) h
  apply_all-IsSound ((i, m) ∷ ms) cfg cfg' h r = elim (Run-cases (apply_msg i m cfg)) [
    | inr f ↦ absurd (ground arith)
    | inl (c1, f) ↦
        apply_all-IsSound ms c1 cfg'
          (elim (Bool-cases m.command_valid) [
            | inr v ↦ subst (λ c. IsSound c.logs) (apply_msg-invalid i m cfg c1 v f) h
            | inl v ↦ IsSound-Applied i m cfg c1 h (apply_msg-Applied i m cfg c1 v f)
          ])
          (ground arith)
  ]

  -- How many servers have an entry at the index.
  abbrev pub holders : ℕ → List (Dict ℕ C) → ℕ
  holders index logs = length (keep (λ log. is_some (lookup index log)) logs)

  entries-cons :
      (log : Dict ℕ C) (logs : List (Dict ℕ C)) (index : ℕ) (cmd : C)
      → ((w : C) → lookup index log ≡ some w → w ≡ cmd)
      → ((j : ℕ) (w : C) → entry_at logs j index ≡ some w → w ≡ cmd)
      → (j : ℕ) (w : C) → entry_at (log ∷ logs) j index ≡ some w
      → w ≡ cmd
  entries-cons log logs index cmd h0 h zero w g = h0 w g
  entries-cons log logs index cmd h0 h (suc j) w g = h j w g

  count_committed-agree :
      (index count : ℕ) (cmd : C) (logs : List (Dict ℕ C))
      → ((j : ℕ) (w : C) → 0 < count → entry_at logs j index ≡ some w → w ≡ cmd)
      → ((i j : ℕ) (v w : C)
          → entry_at logs i index ≡ some v
          → entry_at logs j index ≡ some w
          → v ≡ w)
      → (cmd' : C) × (count_committed index count cmd logs
          ≡ done (count + holders index logs, cmd'))
        × ((j : ℕ) (w : C) → entry_at logs j index ≡ some w → w ≡ cmd')
        × (0 < count → cmd' ≡ cmd)
  unfolding count_committed
  count_committed-agree index count cmd [] h a =
      (cmd, ground arith, λ j w g. absurd (ground arith), λ c. refl)
  count_committed-agree index count cmd (log ∷ logs) h a = elim (Option-cases (lookup index log)) [
    | inl o ↦
        let (cmd', r, all', same) =
          count_committed-agree index count cmd logs (λ j w. h (suc j) w)
            (λ i j. a (suc i) (suc j)) in
        (
          cmd',
          ground arith,
          entries-cons log logs index cmd' (λ w g. absurd (ground arith)) all',
          same,
        )
    | inr (v, o) ↦
        let (cmd', r, all', same) =
          count_committed-agree index (count + 1) v logs (λ j w c g. a (suc j) 0 w v g o)
            (λ i j. a (suc i) (suc j)) in
        (
          cmd',
          ground (arith, h 0 v, e.eqb_iff cmd v),
          entries-cons log logs index cmd' (λ w g. ground (arith, same)) all',
          λ c. ground (arith, h 0 v, same),
        )
  ]

  -- While the servers agree, counting the servers that have committed an index never stops the test:
  -- it gives their number, and the command that they all have.
  pub n_committed-IsSound :
      (nil' : C) (cfg : Harness C) (index : ℕ)
      → IsSound cfg.logs
      → (cmd : C) × (n_committed nil' cfg index ≡ done (holders index cfg.logs, cmd))
        × IsTheEntry cfg.logs index cmd
  n_committed-IsSound nil' cfg index h =
      let (cmd, r, all', same) =
        count_committed-agree index 0 nil' cfg.logs (λ j w c. absurd (omega arith))
          (λ i j. h.agree i j index) in
      (cmd, ground arith, all')

  -- A command for a server in the harness ends the program if some server has another command at
  -- that index, or if it is not the first one and its server lacks the one before it.
  pub apply_msg-fatal :
      (i : ℕ) (m : ApplyMsg C) (cfg : Harness C)
      → m.command_valid ≡ true
      → ((j : ℕ) × (w : C) × (entry_at cfg.logs j m.command_index ≡ some w) × (w ≢ m.command))
        ⊎ ((k : ℕ) × (m.command_index ≡ suc (suc k)) × (entry_at cfg.logs i (suc k) ≡ none))
      → apply_msg i m cfg ≡ fatal
  unfolding prev_ok
  apply_msg-fatal i m cfg v (inl (j, w, g, ne)) = elim (Run-cases (apply_msg i m cfg)) [
    | inr f ↦ f
    | inl (cfg', f) ↦
        let a = apply_msg-Applied i m cfg cfg' v f in
        absurd (ne (conflict-none m.command_index m.command 0 cfg.logs j w a.no_conflict g))
  ]
  apply_msg-fatal i m cfg v (inr (k, q, g)) = elim (Run-cases (apply_msg i m cfg)) [
    | inr f ↦ f
    | inl (cfg', f) ↦
        let a = apply_msg-Applied i m cfg cfg' v f in
        let last : prev_ok a.log m.command_index ≡ is_some (lookup (suc k) a.log) =
          ap (prev_ok a.log) q in
        absurd (ground (arith, a.before, a.at))
  ]
