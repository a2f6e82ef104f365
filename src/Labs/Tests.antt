-- ===== src/Labs/Tests.antt =====
-- Runs of the network, the persister and the model, and the theorems at concrete inputs.
use gopher.Prelude.{
  ℕ, suc, not, ◌+◌, ◌<◌, ◌≡◌, ◌≢◌, ◌∙◌, refl, List, [], ◌∷◌, ◌++◌, Option, none, some, Bool, true,
  false, ◌==◌, arith, ◌⊎◌, map, if◌then◌else◌, get_elem?,
}
use gopher.Prelude.Dict.{Dict, lookup, Distinct}
use gopher.Prelude.Classes.{bytes_key, bytes_eq}
use gopher.Labs.Labrpc.{
  done, ReqMsg, ReplyMsg, failed, Service, Server, Network, make_network, make_end, connect, enable,
  add_server, delete_server, read_endname_info, is_server_dead,
}
use gopher.Labs.Calls.{
  Fate, is_handler, service_methods, make_service, make_server, add_service, service_dispatch,
  server_dispatch, process_req,
}
use gopher.Labs.Calls.Delivery.{
  IsReachable, Served, network_after, process_req_once, process_req-reliable,
}
use gopher.Labs.Persister.{Write, save, save_isolated, contents, copy, write_all}
use gopher.Labs.KvModel.{Operation, by_key, partition, partition-on_key, on_key}

-- A server with one service "K" whose method "A" appends its arguments to its state.
abbrev Log : Type 0
Log = List ℕ

abbrev keeper : Service Log
keeper =
    make_service (b'K' ∷ []) (λ m w args. (w ++ args, w ++ args))
      (record { name = b'A' ∷ []; exported = true; num_in = 3; reply_is_ptr = true; num_out = 0 }
        ∷ record { name = b'B' ∷ []; exported = true; num_in = 2; reply_is_ptr = true; num_out = 0 }
        ∷ [])

abbrev server0 : Server Log
server0 = make_server

abbrev request : ReqMsg
request = record { endname = 7; svc_meth = b'K' ∷ b'.' ∷ b'A' ∷ []; args = 5 ∷ [] }

abbrev served0 : Server Log
served0 = record (add_service server0 keeper) { count = 1 }

abbrev answer0 : ReplyMsg
answer0 = record { ok = true; reply = 4 ∷ 5 ∷ [] }

abbrev method0 : Log → List ℕ → Log × List ℕ
method0 w args = (w ++ args, w ++ args)

method_found : lookup (b'A' ∷ []) keeper.methods ≡ some method0
unfolding service_methods is_handler lookup gopher.Prelude.Dict.insert bytes_eq
method_found = refl

abbrev net0 : Network Log
net0 = record make_network { objects = add_service server0 keeper ∷ [] }

abbrev net1 : Network Log
net1 = record net0 { ends = (7, tt) ∷ []; enabled = (7, false) ∷ []; connections = (7, none) ∷ [] }

abbrev net2 : Network Log
net2 = enable (add_server (connect net1 7 9) 9 0) 7 true

made0 : make_end net0 7 ≡ done net1
unfolding make_end lookup gopher.Prelude.Dict.insert
made0 = refl

reached0 : read_endname_info net2 7 ≡ some (9, 0)
unfolding read_endname_info enable add_server connect lookup gopher.Prelude.Dict.insert
reached0 = refl

served_at0 :
    server_dispatch (add_service server0 keeper) request (4 ∷ [])
    ≡ done (served0, 4 ∷ 5 ∷ [], answer0)
unfolding server_dispatch add_service service_dispatch service_methods is_handler
    gopher.Prelude.Words.split_last_dot lookup gopher.Prelude.Dict.insert bytes_eq
served_at0 = refl

abbrev quiet : Fate Log
quiet = record { drops_request = false; drops_reply = false; returns = true; later = λ n. n }

abbrev deleting : Fate Log
deleting = record quiet { later = λ n. delete_server n 9 }

object0 : get_elem? net2.objects 0 ≡ some (add_service server0 keeper)
unfolding enable add_server connect
object0 = refl

reliable0 : net2.reliable ≡ true
unfolding enable add_server connect
reliable0 = refl

process_req-reliable_example :
    (rn' : Network Log) × (process_req net2 quiet request (4 ∷ [])
      ≡ done (rn', 4 ∷ 5 ∷ [], answer0))
process_req-reliable_example =
    process_req-reliable net2 quiet request (4 ∷ []) (4 ∷ 5 ∷ []) 9 0 (add_service server0 keeper)
      served0 answer0 reliable0 refl (λ n. refl) reached0 object0 served_at0

abbrev net3 : Network Log
net3 = record net2 { objects = served0 ∷ []; bytes = 2 }

abbrev net4 : Network Log
net4 = delete_server (record net2 { objects = served0 ∷ [] }) 9

answered0 : process_req net2 quiet request (4 ∷ []) ≡ done (net3, 4 ∷ 5 ∷ [], answer0)
unfolding process_req read_endname_info enable add_server connect is_server_dead server_dispatch
    add_service service_dispatch service_methods is_handler lookup gopher.Prelude.Dict.insert
    gopher.Prelude.Words.split_last_dot bytes_eq
answered0 = refl

deleted0 : process_req net2 deleting request (4 ∷ []) ≡ done (net4, 4 ∷ 5 ∷ [], failed)
unfolding process_req read_endname_info enable add_server connect delete_server is_server_dead
    server_dispatch add_service service_dispatch service_methods is_handler lookup
    gopher.Prelude.Dict.insert gopher.Prelude.Words.split_last_dot bytes_eq
deleted0 = refl

process_req_once_example :
    ((◌≡◌ {A = List ℕ} (4 ∷ 5 ∷ []) (4 ∷ [])) × (answer0 ≡ failed))
    ⊎ ((answer : ReplyMsg) × (s : Served net2 request (4 ∷ []) (4 ∷ 5 ∷ []) answer) × ((answer0
            ≡ failed)
          ⊎ ((answer0 ≡ answer) × IsReachable (network_after quiet s) 7 s.servername s.object)))
process_req_once_example =
    process_req_once net2 net3 quiet request (4 ∷ []) (4 ∷ 5 ∷ []) answer0 answered0

-- The caller saves two slices and writes over both.
abbrev arrays : List (List ℕ)
arrays = (1 ∷ 2 ∷ []) ∷ (3 ∷ []) ∷ []

abbrev writes : List Write
writes = (0, 1, 9) ∷ (1, 0, 9) ∷ []

save_isolated_example :
    let (st', ps) = save arrays (some 0) (some 1) in
    (contents (write_all writes st') (copy ps).raftstate ≡ contents arrays (some 0))
    × (contents (write_all writes st') (copy ps).snapshot ≡ contents arrays (some 1))
save_isolated_example =
    save_isolated arrays (some 0) (some 1) writes (omega arith) (omega arith)
      (omega arith, (omega arith, tt))

abbrev op0 : ℕ → List ℕ → List ℕ → Operation ℕ
op0 n key value = record {
  input = record { op = 2; key = key; value = value };
  output = [];
  rest = n;
}

abbrev history0 : List (Operation ℕ)
history0 = op0 0 (b'x' ∷ []) (1 ∷ []) ∷ op0 1 (b'y' ∷ []) (2 ∷ []) ∷ op0 2 (b'x' ∷ []) (3 ∷ []) ∷ []

partition-on_key_example :
    (partition (λ ks. ks) history0
      ≡ map (λ k. on_key k history0) (map (λ e. e.0) (by_key history0 [])))
    × Distinct (by_key history0 [])
    × ((k : List ℕ)
        → lookup k (by_key history0 [])
          ≡ (elim (on_key k history0) [ [] ↦ none | v ∷ ops ↦ some (v ∷ ops) ]))
partition-on_key_example = partition-on_key (λ ks. ks) history0
