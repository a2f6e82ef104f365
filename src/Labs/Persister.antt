-- ===== src/Labs/Persister.antt =====
-- 6.5840/src/raft/persister.go. A slice is nil or a place in the store of arrays, so that a caller
-- who goes on writing to its slice, or to one that it was given, is visible.
use gopher.Prelude.{
  ℕ, ◌<◌, ◌≤◌, ◌≡◌, ◌≢◌, refl, ◌∙◌, List, [], ◌∷◌, ◌++◌, Option, none, some, arith, length, get_or,
  set, All, length-append, get_or-set_ne, get_or-append_left, get_or-append_length,
}

abbrev pub Store : Type 0
Store = List (List ℕ)

abbrev pub Slice : Type 0
Slice = Option ℕ

abbrev pub contents : Store → Slice → List ℕ
contents st none = []
contents st (some p) = get_or st p []

pub record Persister : Type 0 where
  pub raftstate : Slice
  pub snapshot : Slice

abbrev pub make_persister : Persister
make_persister = record { raftstate = none; snapshot = none }

-- A new array with the same bytes, also for nil.
unfoldable pub clone : Store → Slice → Store × Slice
clone st orig = (st ++ (contents st orig ∷ []), some (length st))

-- The copy shares the arrays.
abbrev pub copy : Persister → Persister
copy ps = record { raftstate = ps.raftstate; snapshot = ps.snapshot }

unfoldable pub read_raft_state : Store → Persister → Store × Slice
unfolding clone
read_raft_state st ps = clone st ps.raftstate

unfoldable pub read_snapshot : Store → Persister → Store × Slice
unfolding clone
read_snapshot st ps = clone st ps.snapshot

abbrev pub raft_state_size : Store → Persister → ℕ
raft_state_size st ps = length (contents st ps.raftstate)

abbrev pub snapshot_size : Store → Persister → ℕ
snapshot_size st ps = length (contents st ps.snapshot)

unfoldable pub save : Store → Slice → Slice → Store × Persister
unfolding clone
save st raftstate snapshot =
    let (st1, a) = clone st raftstate in
    let (st2, b) = clone st1 snapshot in (st2, record { raftstate = a; snapshot = b })

-- A caller's assignment `slice[i] = v`.
abbrev pub Write : Type 0
Write = ℕ × ℕ × ℕ

abbrev pub write_all : List Write → Store → Store
write_all [] st = st
write_all ((p, i, v) ∷ ws) st = write_all ws (set st p (set (get_or st p []) i v))

-- A slice that can be read: nil, or an array that is there.
abbrev pub IsHeld : Store → Slice → Type 0
IsHeld st none = Unit
IsHeld st (some p) = p < length st

write_all-ne :
    (ws : List Write) (st : Store) (q : ℕ)
    → All (λ w. w.0 ≢ q) ws
    → get_or (write_all ws st) q [] ≡ get_or st q []
write_all-ne [] st q h = refl
write_all-ne ((p, i, v) ∷ ws) st q h =
    write_all-ne ws (set st p (set (get_or st p []) i v)) q h.1
    ∙ get_or-set_ne st p q (set (get_or st p []) i v) [] h.0

contents-grow :
    (st : Store) (xs : List ℕ) (s : Slice)
    → IsHeld st s
    → contents (st ++ (xs ∷ [])) s ≡ contents st s
contents-grow st xs none h = refl
contents-grow st xs (some p) h = get_or-append_left st (xs ∷ []) p [] h

All-lt-ne : (ws : List Write) (n q : ℕ) → All (λ w. w.0 < n) ws → n ≤ q → All (λ w. w.0 ≢ q) ws
All-lt-ne [] n q h l = tt
All-lt-ne (w ∷ ws) n q h l = (omega arith, All-lt-ne ws n q h.1 l)

-- What was saved stays as it was at the time of the call, whatever is written later through the
-- slices that existed then; a copy of the persister holds the same.
pub save_isolated :
    (st : Store) (raftstate snapshot : Slice) (ws : List Write)
    → IsHeld st raftstate
    → IsHeld st snapshot
    → All (λ w. w.0 < length st) ws
    → let (st', ps) = save st raftstate snapshot in
      (contents (write_all ws st') (copy ps).raftstate ≡ contents st raftstate)
      × (contents (write_all ws st') (copy ps).snapshot ≡ contents st snapshot)
unfolding save
save_isolated st raftstate snapshot ws hr hs h =
    let st1 = st ++ (contents st raftstate ∷ []) in
    let st2 = st1 ++ (contents st1 snapshot ∷ []) in
    let grown = length-append st (contents st raftstate ∷ []) in
    (
      write_all-ne ws st2 (length st) (All-lt-ne ws (length st) (length st) h (omega arith))
          ∙ get_or-append_left st1 (contents st1 snapshot ∷ []) (length st) [] (omega arith)
          ∙ get_or-append_length st (contents st raftstate) [],
      write_all-ne ws st2 (length st1) (All-lt-ne ws (length st) (length st1) h (omega arith))
          ∙ get_or-append_length st1 (contents st1 snapshot) []
          ∙ contents-grow st (contents st raftstate) snapshot hs,
    )

-- Who reads the state gets an array of its own: it holds the saved bytes, and no write to it
-- changes what the persister holds.
pub read_isolated :
    (st : Store) (ps : Persister) (i v : ℕ)
    → IsHeld st ps.raftstate
    → IsHeld st ps.snapshot
    → let (st', s) = read_raft_state st ps in
      (contents st' s ≡ contents st ps.raftstate)
      × (contents (write_all ((length st, i, v) ∷ []) st') ps.raftstate ≡ contents st ps.raftstate)
      × (contents (write_all ((length st, i, v) ∷ []) st') ps.snapshot ≡ contents st ps.snapshot)
unfolding read_raft_state
read_isolated st ps i v hr hs = (
  get_or-append_length st (contents st ps.raftstate) [],
  kept ps.raftstate hr,
  kept ps.snapshot hs,
)
  where
    st' : Store
    st' = st ++ (contents st ps.raftstate ∷ [])

    kept :
        (s : Slice)
        → IsHeld st s
        → contents (write_all ((length st, i, v) ∷ []) st') s ≡ contents st s
    kept none h = refl
    kept (some p) h =
        write_all-ne ((length st, i, v) ∷ []) st' p (omega arith, tt)
        ∙ contents-grow st (contents st ps.raftstate) (some p) h
