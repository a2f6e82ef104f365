-- ===== src/Labs/HarnessTests.antt =====
-- Runs of the harnesses, and the theorems about them at concrete inputs.
use gopher.Prelude.{
  ℕ, zero, suc, ◌≡◌, refl, List, [], ◌∷◌, Option, none, some, Bool, true, false, map, length, All,
  arith, member,
}
use gopher.Labs.Labrpc.{done, ReqMsg, failed, Network, make_network, enable, Service}
use gopher.Labs.Calls.{Fate, process_req, make_service}
use gopher.Labs.Persister.{make_persister}
use gopher.Labs.Harness.{Endnames, endname_at, partition_servers, connect_all, disconnect_unlocked}
use gopher.Labs.Harness.Links.{is_on, IsWired, Sets, links_of, HasLinks-links_of}
use gopher.Labs.Harness.Sides.{
  AreServers, AreApart, sided, partition_servers-Sets, partition_servers-process_req,
}
use gopher.Labs.RaftNet.{RaftNet, switch_all}
use gopher.Labs.RaftNet.Flags.{flag, IsSynced, switch_all-IsSynced}
use gopher.Labs.Minority.{leader_from, make_partition}
use gopher.Labs.Minority.Groups.{IsFirstLeader, IsMinority, make_partition-IsMinority}
use gopher.Labs.Cluster.{KvServer, Cluster, make_config, shutdown_server}
use gopher.Labs.Cluster.Ends.{Separate, place, index_from, IsWired-rows}
use gopher.Labs.Cluster.Making.{IsReady, make_config-IsReady}
use gopher.Labs.Cluster.Stopping.{IsStopped, shutdown_server-IsStopped}

-- Three servers, each with an end for each.
abbrev rows3 : List (List ℕ)
rows3 = (10 ∷ 11 ∷ 12 ∷ []) ∷ (20 ∷ 21 ∷ 22 ∷ []) ∷ (30 ∷ 31 ∷ 32 ∷ []) ∷ []

abbrev names3 : Endnames
names3 = map some rows3

separate3 : Separate rows3
unfolding place index_from
separate3 = (
  (refl, (refl, (refl, tt))),
  λ i e m. ground arith,
  (
    (refl, (refl, (refl, tt))),
    λ i e m. ground arith,
    ((refl, (refl, (refl, tt))), λ i e m. refl, tt),
  ),
)

square3 : All (λ r. length r ≡ length rows3) rows3
square3 = (refl, (refl, (refl, tt)))

wired3 : IsWired names3 3
wired3 = IsWired-rows rows3 separate3 square3

abbrev net3 : Network (List ℕ)
net3 = make_network

abbrev alone : List ℕ
alone = 0 ∷ []

abbrev others : List ℕ
others = 1 ∷ 2 ∷ []

apart3 : AreApart alone others
apart3 a m = ground arith

alone_servers : AreServers 3 alone
alone_servers = (omega arith, (omega arith, tt))

others_servers : AreServers 3 others
others_servers = (omega arith, (omega arith, (omega arith, tt)))

abbrev net4 : Network (List ℕ)
net4 = record net3 {
  enabled =
      (11, false)
      ∷ (12, false)
      ∷ (20, false)
      ∷ (30, false)
      ∷ (10, true)
      ∷ (21, true)
      ∷ (22, true)
      ∷ (31, true)
      ∷ (32, true)
      ∷ [];
}

partitioned : partition_servers names3 alone others net3 ≡ done net4
unfolding partition_servers gopher.Labs.Harness.move_each disconnect_unlocked
    gopher.Labs.Harness.disable_outgoing gopher.Labs.Harness.disable_incoming endname_at
    gopher.Labs.Harness.connect_unlocked gopher.Labs.Harness.enable_outgoing
    gopher.Labs.Harness.enable_incoming enable gopher.Prelude.Dict.insert
partitioned = refl

partition_servers-Sets_example :
    Sets names3 net3
      (partition_servers names3 alone others)
      (sided alone others (links_of names3 net3))
partition_servers-Sets_example =
    partition_servers-Sets names3 3 alone others net3 (links_of names3 net3) wired3 alone_servers
      others_servers apart3 (HasLinks-links_of names3 net3)

abbrev across : ReqMsg
across = record { endname = 12; svc_meth = b'K' ∷ b'.' ∷ b'A' ∷ []; args = 5 ∷ [] }

abbrev quiet : Fate (List ℕ)
quiet = record { drops_request = false; drops_reply = false; returns = true; later = λ n. n }

across_named : endname_at names3 0 2 ≡ some 12
unfolding endname_at
across_named = refl

partition_servers-process_req_example :
    process_req net4 quiet across (4 ∷ []) ≡ done (net4, 4 ∷ [], failed)
partition_servers-process_req_example =
    partition_servers-process_req names3 3 alone others net3 net4 quiet across (4 ∷ []) 0 2 wired3
      alone_servers others_servers apart3 refl across_named partitioned

-- The service of a key/value server, and that of its Raft peer, without methods.
abbrev mount0 : KvServer → Service (List ℕ) × Service (List ℕ)
mount0 kv = (
  make_service (b'K' ∷ []) (λ m w args. (w, args)) [],
  make_service (b'R' ∷ []) (λ m w args. (w, args)) [],
)

make_config-IsReady_example :
    (cfg : Cluster (List ℕ)) × (make_config mount0 rows3 true (some 1000) ≡ done cfg)
    × IsReady cfg
    × (cfg.n ≡ 3)
    × (cfg.net.reliable ≡ false)
make_config-IsReady_example = make_config-IsReady mount0 rows3 true (some 1000) separate3 square3

abbrev cluster3 : Cluster (List ℕ)
cluster3 = record {
  net = net4;
  n = 3;
  objects =
      record {
        me = 0;
        dead = false;
        ends = 10 ∷ 11 ∷ 12 ∷ [];
        persister = make_persister;
        maxraftstate = none;
      }
      ∷ [];
  kvservers = some 0 ∷ none ∷ none ∷ [];
  saved = some make_persister ∷ none ∷ none ∷ [];
  endnames = names3;
  clerks = [];
  next_client_id = 1003;
  maxraftstate = none;
}

shutdown_server-IsStopped_example :
    (cfg' : Cluster (List ℕ)) × (shutdown_server 0 cluster3 ≡ done cfg') × IsStopped cluster3 cfg' 0
shutdown_server-IsStopped_example =
    shutdown_server-IsStopped 0 cluster3 wired3 (omega arith) (omega arith) (omega arith)

abbrev nobody : List Bool
nobody = false ∷ false ∷ false ∷ []

flag-nobody : (a : ℕ) → flag nobody a ≡ false
flag-nobody zero = refl
flag-nobody (suc zero) = refl
flag-nobody (suc (suc zero)) = refl
flag-nobody (suc (suc (suc a))) = refl

abbrev raft3 : RaftNet (List ℕ)
raft3 = record { net = net3; n = 3; connected = nobody; endnames = names3 }

is_on-net3 : (e : ℕ) → is_on net3 e ≡ false
unfolding gopher.Prelude.Dict.lookup
is_on-net3 e = refl

raft3-IsSynced : IsSynced raft3
raft3-IsSynced = record {
  wired = wired3;
  flags = refl;
  links = λ a b e named. ground (arith, is_on-net3 e, flag-nobody a);
}

switch_all-IsSynced_example :
    (cfg' : RaftNet (List ℕ)) × (switch_all ((true, 0) ∷ (true, 2) ∷ (false, 0) ∷ []) raft3
      ≡ done cfg')
    × IsSynced cfg'
switch_all-IsSynced_example =
    switch_all-IsSynced ((true, 0) ∷ (true, 2) ∷ (false, 0) ∷ []) raft3 raft3-IsSynced
      (omega arith, (omega arith, (omega arith, tt)))

make_partition-IsMinority_example :
    (l : ℕ) × (p1 : List ℕ) × (p2 : List ℕ) × IsFirstLeader (false ∷ true ∷ false ∷ []) l
    × (make_partition 3 (false ∷ true ∷ false ∷ []) ≡ done (p1, p2))
    × IsMinority 3 l p1 p2
make_partition-IsMinority_example =
    make_partition-IsMinority 1 (false ∷ true ∷ false ∷ []) (omega arith) refl

five_servers :
    make_partition 5 (false ∷ true ∷ false ∷ false ∷ false ∷ []) ≡ done (0 ∷ 2 ∷ 3 ∷ [], 4 ∷ 1 ∷ [])
unfolding make_partition gopher.Labs.Minority.place_servers gopher.Labs.Harness.all_from leader_from
    gopher.Labs.Minority.put_last
five_servers = refl

-- Of four servers, server 0 is in both groups.
four_servers :
    make_partition 4 (false ∷ true ∷ false ∷ false ∷ []) ≡ done (0 ∷ 2 ∷ 3 ∷ [], 0 ∷ 1 ∷ [])
unfolding make_partition gopher.Labs.Minority.place_servers gopher.Labs.Harness.all_from leader_from
    gopher.Labs.Minority.put_last
four_servers = refl
