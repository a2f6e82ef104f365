-- ===== src/Labs/Cluster/Starting.antt =====
-- `StartServer` and `make_config` of 6.5840/src/kvraft/config.go: what is wired when a test begins.
use gopher.Prelude.{
  ℕ, ◌+◌, ◌-◌, ◌<◌, ◌≡◌, refl, List, [], ◌∷◌, Option, none, some, true, ◌&&◌, ltb, leb,
  if◌then◌else◌, length, get_elem?, get_elem?-set, get_elem?-lt, length-set, member, arith, subst,
  ap, length-append,
}
use gopher.Prelude.Dict.{lookup, lookup-insert}
use gopher.Prelude.Classes.{nat_key}
use gopher.Labs.Labrpc.{done, Service, Network, add_server}
use gopher.Labs.Persister.{Persister}
use gopher.Labs.Cluster.{KvServer, Cluster, install_server, start_server}
use gopher.Labs.Cluster.Ends.{EndsMade, NoDup, place, make_ends-EndsMade}

module _ {W : Type 0} where
  -- What starting servers for the rows of names, from server `i` on, leaves.
  pub record Started (i : ℕ) (rows : List (List ℕ)) (cfg cfg' : Cluster W) : Type 0 where
    pub same_n : cfg'.n ≡ cfg.n
    pub objects : length cfg'.net.objects ≡ length cfg.net.objects + length rows
    pub rooms : length cfg'.endnames ≡ length cfg.endnames
    pub saves : length cfg'.saved ≡ length cfg.saved
    pub names :
        (a : ℕ)
        → get_elem? cfg'.endnames a ≡ (
            if leb i a && ltb a (i + length rows)
            then some (get_elem? rows (a - i))
            else get_elem? cfg.endnames a)
    pub servers :
        (a : ℕ)
        → lookup a cfg'.net.servers ≡ (
            if leb i a && ltb a (i + length rows)
            then some (some (length cfg.net.objects + (a - i)))
            else lookup a cfg.net.servers)
    pub made :
        (e : ℕ)
        → lookup e cfg'.net.ends
          ≡ (elim (place i e rows) [ none ↦ lookup e cfg.net.ends | some _ ↦ some tt ])
    pub connected :
        (e : ℕ)
        → lookup e cfg'.net.connections ≡ (elim (place i e rows) [
          | none ↦ lookup e cfg.net.connections
          | some at ↦ some (some at.1)
        ])

  install_server-Started :
      (mount : KvServer → Service W × Service W) (i : ℕ) (row : List ℕ) (old : Option Persister)
      (net1 : Network W) (cfg : Cluster W)
      → EndsMade 0 row cfg.net net1
      → i < length cfg.endnames
      → i < length cfg.saved
      → Started i (row ∷ []) cfg (install_server mount i row old net1 cfg)
  unfolding install_server add_server place
  install_server-Started mount i row old net1 cfg m hi hs =
      let held : net1.objects ≡ cfg.net.objects = cc in
      let served : net1.servers ≡ cfg.net.servers = cc in
      let count : length net1.objects ≡ length cfg.net.objects = ap length held in
      let (had, g) = get_elem?-lt cfg.endnames i hi in
      let there : (a : ℕ) → i ≡ a → get_elem? cfg.endnames a ≡ some had =
        (λ a q. subst (λ k. get_elem? cfg.endnames k ≡ some had) q g) in
      let one : (a : ℕ) → i ≡ a → get_elem? (row ∷ []) (a - i) ≡ some row =
        (λ a q. ap (get_elem? (row ∷ [])) (let z : a - i ≡ 0 = omega arith in z)) in
      record {
        same_n = refl;
        objects = omega (arith, length-append net1.objects (_ ∷ []));
        rooms = length-set cfg.endnames i (some row);
        saves = length-set cfg.saved i (some _);
        names = λ a. ground (arith, get_elem?-set cfg.endnames i a (some row), there a, one a);
        servers = λ a. ground (arith, lookup-insert i a (some (length net1.objects)) net1.servers);
        made = λ e. ground (arith, m.made e);
        connected = λ e. ground (arith, m.connected e);
      }

  pub start_server-Started :
      (mount : KvServer → Service W × Service W) (i : ℕ) (row : List ℕ) (cfg : Cluster W)
      → NoDup row
      → ((e : ℕ) → member e row ≡ true → lookup e cfg.net.ends ≡ none)
      → i < length cfg.endnames
      → i < length cfg.saved
      → (cfg' : Cluster W) × (start_server mount i row cfg ≡ done cfg')
        × Started i (row ∷ []) cfg cfg'
  unfolding start_server
  start_server-Started mount i row cfg d fresh hi hs =
      let (net1, r, m) = make_ends-EndsMade 0 row cfg.net d fresh in
      let (names, g) = get_elem?-lt cfg.endnames i hi in
      let (old, g') = get_elem?-lt cfg.saved i hs in
      (
        install_server mount i row old net1 cfg,
        ground arith,
        install_server-Started mount i row old net1 cfg m hi hs,
      )
