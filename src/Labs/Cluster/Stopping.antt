-- ===== src/Labs/Cluster/Stopping.antt =====
-- `ShutdownServer` of 6.5840/src/kvraft/config.go: what a stopped server can still do.
use gopher.Prelude.{
  ℕ, zero, suc, ◌<◌, ◌≤◌, ◌≡◌, ◌≢◌, refl, List, [], ◌∷◌, Option, none, some, true, length,
  get_elem?, get_elem?-lt, get_elem?-set, set, arith, Option-cases, inl, inr, subst,
}
use gopher.Prelude.Dict.{lookup, lookup-insert}
use gopher.Prelude.Classes.{nat_key}
use gopher.Labs.Labrpc.{done, Network, delete_server, read_endname_info, or_nil}
use gopher.Labs.Persister.{copy}
use gopher.Labs.Harness.{endname_at, all_from}
use gopher.Labs.Harness.Links.{IsWired, links_of, HasLinks-links_of, disconnect_unlocked-Sets}
use gopher.Labs.Harness.Sides.{member-all_from, All-all_from, length-all_from}
use gopher.Labs.Cluster.{KvServer, Cluster, kill, shutdown_server}

get_elem?-kill :
    (kvs : List KvServer) (p : ℕ) (kv : KvServer)
    → get_elem? (kill kvs p) p ≡ some kv
    → kv.dead ≡ true
unfolding kill
get_elem?-kill [] p kv h = absurd (ground arith)
get_elem?-kill (k ∷ kvs) zero kv h =
    let q : record k { dead = true } ≡ kv = ground arith in subst (λ v. v.dead ≡ true) q refl
get_elem?-kill (k ∷ kvs) (suc p) kv h = get_elem?-kill kvs p kv h

killed_lem :
    (objects : List KvServer) (at : Option ℕ) (p : ℕ) (kv : KvServer)
    → at ≡ some p
    → get_elem? (elim at [ none ↦ objects | some q ↦ kill objects q ]) p ≡ some kv
    → kv.dead ≡ true
killed_lem objects none p kv q h = absurd (ground arith)
killed_lem objects (some r) p kv q h =
    let same : r ≡ p = ground arith in
    get_elem?-kill objects p kv (subst (λ x. get_elem? (kill objects x) p ≡ some kv) same h)

module _ {W : Type 0} where
  -- A server that is shut down: no end, of a server or of a clerk, gets to it, its own ends reach
  -- nobody, what it persisted is kept for the next one, and the object is killed.
  pub record IsStopped (cfg cfg' : Cluster W) (i : ℕ) : Type 0 where
    pub unreachable : (e object : ℕ) → read_endname_info cfg'.net e ≢ some (i, object)
    pub silent :
        (j e : ℕ)
        → j < cfg.n
        → endname_at cfg.endnames i j ≡ some e
        → read_endname_info cfg'.net e ≡ none
    pub persisted : get_elem? cfg'.saved i ≡ get_elem? cfg.saved i
    pub killed :
        (p : ℕ) (kv : KvServer)
        → get_elem? cfg.kvservers i ≡ some (some p)
        → get_elem? cfg'.objects p ≡ some kv
        → kv.dead ≡ true
    pub names : cfg'.endnames ≡ cfg.endnames

  unreachable_lem :
      (rn : Network W) (i e object : ℕ)
      → read_endname_info (delete_server rn i) e ≢ some (i, object)
  unfolding read_endname_info delete_server
  unreachable_lem rn i e object h =
      let gone : Option ℕ = none in
      elim (Option-cases (or_nil (lookup e rn.connections))) [
        | inl c ↦ ground arith
        | inr (k, c) ↦ ground (arith, lookup-insert i k gone rn.servers)
      ]

  -- Shutting down a server that there is ends, and stops it, whatever clerks are connected.
  pub shutdown_server-IsStopped :
      (i : ℕ) (cfg : Cluster W)
      → IsWired cfg.endnames cfg.n
      → i < cfg.n
      → i < length cfg.saved
      → i < length cfg.kvservers
      → (cfg' : Cluster W) × (shutdown_server i cfg ≡ done cfg') × IsStopped cfg cfg' i
  unfolding shutdown_server read_endname_info delete_server
  shutdown_server-IsStopped i cfg wired hi hs hk =
      let everyone = all_from 0 cfg.n in
      let (net1, r, same, links) =
        disconnect_unlocked-Sets cfg.endnames cfg.n i everyone cfg.net
          (links_of cfg.endnames cfg.net) wired hi
          (let l : length everyone ≤ cfg.n = omega (arith, length-all_from 0 cfg.n) in l)
          (All-all_from 0 cfg.n cfg.n (omega arith)) (HasLinks-links_of cfg.endnames cfg.net) in
      let (old, g) = get_elem?-lt cfg.saved i hs in
      let (kv, g') = get_elem?-lt cfg.kvservers i hk in
      let cfg' : Cluster W = record cfg {
        net = delete_server net1 i;
        saved = set cfg.saved i (elim old [ none ↦ none | some p ↦ some (copy p) ]);
        objects = elim kv [ none ↦ cfg.objects | some p ↦ kill cfg.objects p ];
        kvservers = elim kv [ none ↦ cfg.kvservers | some _ ↦ set cfg.kvservers i none ];
      } in
      let kept : (elim old [ none ↦ none | some p ↦ some (copy p) ]) ≡ old = ground arith in
      (
        cfg',
        ground arith,
        record {
          unreachable = λ e object h. unreachable_lem net1 i e object h;
          silent = λ j e hj h. ground (arith, links i j e h, member-all_from 0 cfg.n j);
          persisted = ground (arith, get_elem?-set cfg.saved i i old);
          killed = λ p kv1 a b. killed_lem cfg.objects kv p kv1 (ground arith) b;
          names = refl;
        },
      )
