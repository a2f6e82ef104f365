-- ===== src/Labs/RaftNet.antt =====
-- 6.5840/src/raft/config.go: connect and disconnect, with the flags that say which servers are on the
-- net. All servers have been started, or their row of names is nil.
pub mod Flags
use gopher.Prelude.{ℕ, List, [], ◌∷◌, Option, none, some, Bool, true, false, get_elem?, set}
use gopher.Labs.Labrpc.{Run, done, fatal, Network, enable}
use gopher.Labs.Harness.{Endnames, endname_at, run_then, all_from, disconnect_unlocked}

pub record RaftNet (W : Type 0) : Type 0 where
  pub net : Network W
  pub n : ℕ
  pub connected : List Bool
  pub endnames : Endnames

module _ {W : Type 0} where
  -- The outgoing ends of `i` to the servers that are on the net.
  unfoldable pub attach_outgoing : RaftNet W → ℕ → List ℕ → Network W → Run (Network W)
  attach_outgoing cfg i [] rn = done rn
  attach_outgoing cfg i (j ∷ js) rn = elim (get_elem? cfg.connected j) [
    | none ↦ fatal
    | some false ↦ attach_outgoing cfg i js rn
    | some true ↦ elim (endname_at cfg.endnames i j) [
      | none ↦ fatal
      | some endname ↦ attach_outgoing cfg i js (enable rn endname true)
    ]
  ]

  unfoldable pub attach_incoming : RaftNet W → ℕ → List ℕ → Network W → Run (Network W)
  attach_incoming cfg i [] rn = done rn
  attach_incoming cfg i (j ∷ js) rn = elim (get_elem? cfg.connected j) [
    | none ↦ fatal
    | some false ↦ attach_incoming cfg i js rn
    | some true ↦ elim (endname_at cfg.endnames j i) [
      | none ↦ fatal
      | some endname ↦ attach_incoming cfg i js (enable rn endname true)
    ]
  ]

  -- `connect`
  unfoldable pub connect_server : ℕ → RaftNet W → Run (RaftNet W)
  connect_server i cfg = elim (get_elem? cfg.connected i) [
    | none ↦ fatal
    | some _ ↦
        let cfg1 = record cfg { connected = set cfg.connected i true } in
        run_then (attach_outgoing cfg1 i (all_from 0 cfg.n) cfg1.net) (λ net1.
          run_then (attach_incoming cfg1 i (all_from 0 cfg.n) net1)
            (λ net2. done (record cfg1 { net = net2 })))
  ]

  -- `disconnect`. Its loops are those of the kvraft harness for all servers, where the index of the
  -- loop and the server are the same.
  unfoldable pub disconnect_server : ℕ → RaftNet W → Run (RaftNet W)
  disconnect_server i cfg = elim (get_elem? cfg.connected i) [
    | none ↦ fatal
    | some _ ↦
        let cfg1 = record cfg { connected = set cfg.connected i false } in
        run_then (disconnect_unlocked cfg.endnames i (all_from 0 cfg.n) cfg.net)
          (λ net1. done (record cfg1 { net = net1 }))
  ]

  -- What a test does with its servers: `true` connects one, `false` disconnects it.
  unfoldable pub switch_all : List (Bool × ℕ) → RaftNet W → Run (RaftNet W)
  switch_all [] cfg = done cfg
  switch_all ((true, i) ∷ rest) cfg = run_then (connect_server i cfg) (switch_all rest)
  switch_all ((false, i) ∷ rest) cfg = run_then (disconnect_server i cfg) (switch_all rest)
