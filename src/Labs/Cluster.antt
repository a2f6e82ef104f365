-- ===== src/Labs/Cluster.antt =====
-- 6.5840/src/kvraft/config.go and server.go: the servers of a test, started, stopped and restarted
-- over the network of Labs/Labrpc.antt. `mount` stands for what reflection makes of a started server
-- and of its Raft peer: the two services. The locks make each operation one step.
pub mod Ends
pub mod Starting
pub mod Making
pub mod Stopping
use gopher.Prelude.{
  ℕ, zero, suc, ◌+◌, List, [], ◌∷◌, ◌++◌, Option, none, some, Bool, true, false, not, ◌==◌,
  if◌then◌else◌, length, get_elem?, get_or, set, replicate,
}
use gopher.Prelude.Dict.{Dict, lookup, insert, delete}
use gopher.Prelude.Classes.{nat_key}
use gopher.Labs.Labrpc.{
  Run, done, fatal, Service, Server, Network, make_network, make_end, connect, add_server,
  delete_server, enable, set_reliable,
}
use gopher.Labs.Calls.{make_server, add_service}
use gopher.Labs.Persister.{Persister, make_persister, copy}
use gopher.Labs.Harness.{Endnames, run_then, all_from, disconnect_unlocked, connect_all}

-- A server object. `dead` is what `Kill` sets, for the server and its Raft peer alike; a
-- `maxraftstate` of -1 is `none`.
pub record KvServer : Type 0 where
  pub me : ℕ
  pub dead : Bool
  pub ends : List ℕ
  pub persister : Persister
  pub maxraftstate : Option ℕ

-- `config`. The server objects that were ever made stand in `objects`, `kvservers` has their places,
-- or nil, and a clerk is a number.
pub record Cluster (W : Type 0) : Type 0 where
  pub net : Network W
  pub n : ℕ
  pub objects : List KvServer
  pub kvservers : List (Option ℕ)
  pub saved : List (Option Persister)
  pub endnames : Endnames
  pub clerks : Dict ℕ (List ℕ)
  pub next_client_id : ℕ
  pub maxraftstate : Option ℕ

abbrev pub start_kv_server : List ℕ → ℕ → Persister → Option ℕ → KvServer
start_kv_server ends me persister maxraftstate = record {
  me = me;
  dead = false;
  ends = ends;
  persister = persister;
  maxraftstate = maxraftstate;
}

unfoldable pub kill : List KvServer → ℕ → List KvServer
kill [] p = []
kill (kv ∷ kvs) zero = record kv { dead = true } ∷ kvs
kill (kv ∷ kvs) (suc p) = kv ∷ kill kvs p

-- A clerk that is not there has no names.
abbrev names_or_nil : Option (List ℕ) → List ℕ
names_or_nil none = []
names_or_nil (some names) = names

module _ {W : Type 0} where
  -- The ends with the given names are made, the one at `j` for server `j`.
  unfoldable pub make_ends : ℕ → List ℕ → Network W → Run (Network W)
  make_ends j [] rn = done rn
  make_ends j (e ∷ es) rn = run_then (make_end rn e) (λ rn1. make_ends (suc j) es (connect rn1 e j))

  -- `StartServer` once its ends are made. Old persisted state is handed on.
  unfoldable pub install_server :
      (KvServer → Service W × Service W)
      → ℕ
      → List ℕ
      → Option Persister
      → Network W
      → Cluster W
      → Cluster W
  install_server mount i names old net1 cfg =
      let persister : Persister = elim old [ none ↦ make_persister | some p ↦ copy p ] in
      let kv = start_kv_server names i persister cfg.maxraftstate in
      let svcs = mount kv in
      let srv : Server W = add_service (add_service make_server svcs.0) svcs.1 in
      let net2 = record net1 { objects = net1.objects ++ (srv ∷ []) } in
      record cfg {
        net = add_server net2 i (length net1.objects);
        objects = cfg.objects ++ (kv ∷ []);
        kvservers = set cfg.kvservers i (some (length cfg.objects));
        saved = set cfg.saved i (some persister);
        endnames = set cfg.endnames i (some names);
      }

  -- `StartServer`, with the random names that it draws.
  unfoldable pub start_server :
      (KvServer → Service W × Service W) → ℕ → List ℕ → Cluster W → Run (Cluster W)
  start_server mount i names cfg = elim (get_elem? cfg.endnames i) [
    | none ↦ fatal
    | some _ ↦ elim (make_ends 0 names cfg.net) [
      | fatal ↦ fatal
      | done net1 ↦ elim (get_elem? cfg.saved i) [
        | none ↦ fatal
        | some old ↦ done (install_server mount i names old net1 cfg)
      ]
    ]
  ]

  -- `ShutdownServer`: the server is cut off, taken out of the network, its persister is copied so
  -- that it cannot change what the next one starts from, and it is killed.
  unfoldable pub shutdown_server : ℕ → Cluster W → Run (Cluster W)
  shutdown_server i cfg = elim (disconnect_unlocked cfg.endnames i (all_from 0 cfg.n) cfg.net) [
    | fatal ↦ fatal
    | done net1 ↦ elim (get_elem? cfg.saved i) [
      | none ↦ fatal
      | some old ↦ elim (get_elem? cfg.kvservers i) [
        | none ↦ fatal
        | some kv ↦ done (record cfg {
          net = delete_server net1 i;
          saved = set cfg.saved i (elim old [ none ↦ none | some p ↦ some (copy p) ]);
          objects = elim kv [ none ↦ cfg.objects | some p ↦ kill cfg.objects p ];
          kvservers = elim kv [ none ↦ cfg.kvservers | some _ ↦ set cfg.kvservers i none ];
        })
      ]
    ]
  ]

  -- The servers from `i` on, one for each row of names.
  unfoldable pub start_servers :
      (KvServer → Service W × Service W) → ℕ → List (List ℕ) → Cluster W → Run (Cluster W)
  start_servers mount i [] cfg = done cfg
  start_servers mount i (names ∷ rows) cfg =
      run_then (start_server mount i names cfg) (start_servers mount (suc i) rows)

  abbrev pub empty_cluster : ℕ → Option ℕ → Cluster W
  empty_cluster n maxraftstate = record {
    net = make_network;
    n = n;
    objects = [];
    kvservers = replicate n none;
    saved = replicate n none;
    endnames = replicate n none;
    clerks = [];
    next_client_id = n + 1000;
    maxraftstate = maxraftstate;
  }

  -- `make_config`, with the names that are drawn, a row for each server.
  unfoldable pub make_config :
      (KvServer → Service W × Service W) → List (List ℕ) → Bool → Option ℕ → Run (Cluster W)
  make_config mount rows unreliable maxraftstate =
      run_then (start_servers mount 0 rows (empty_cluster (length rows) maxraftstate)) (λ cfg.
        run_then (connect_all cfg.endnames cfg.n cfg.net)
          (λ net1. done (record cfg { net = set_reliable net1 (not unreliable) })))

  -- `ConnectClientUnlocked` and `DisconnectClientUnlocked`: the ends of a clerk to some servers.
  unfoldable pub switch_ends : List ℕ → Bool → List ℕ → Network W → Run (Network W)
  switch_ends names on [] rn = done rn
  switch_ends names on (s ∷ to) rn = elim (get_elem? names s) [
    | none ↦ fatal
    | some endname ↦ switch_ends names on to (enable rn endname on)
  ]

  unfoldable pub connect_client : ℕ → List ℕ → Cluster W → Run (Cluster W)
  connect_client ck to cfg =
      run_then (switch_ends (names_or_nil (lookup ck cfg.clerks)) true to cfg.net)
        (λ net1. done (record cfg { net = net1 }))

  unfoldable pub disconnect_client : ℕ → List ℕ → Cluster W → Run (Cluster W)
  disconnect_client ck from cfg =
      run_then (switch_ends (names_or_nil (lookup ck cfg.clerks)) false from cfg.net)
        (λ net1. done (record cfg { net = net1 }))

  -- `makeClient`, for the clerk `ck` that MakeClerk returns and the names that are drawn.
  unfoldable pub make_client : ℕ → List ℕ → List ℕ → Cluster W → Run (Cluster W)
  make_client ck names to cfg = run_then (make_ends 0 names cfg.net) (λ net1.
      connect_client ck to (record cfg {
        net = net1;
        clerks = insert ck names cfg.clerks;
        next_client_id = cfg.next_client_id + 1;
      }))

  abbrev pub delete_client : ℕ → Cluster W → Cluster W
  delete_client ck cfg = record cfg { clerks = delete ck cfg.clerks }
