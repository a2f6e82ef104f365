-- ===== src/Labs/Cluster/Making.antt =====
-- `make_config` of 6.5840/src/kvraft/config.go: what a test starts from.
use gopher.Prelude.{
  ℕ, suc, ◌+◌, ◌-◌, ◌<◌, ◌≤◌, ◌≡◌, refl, List, [], ◌∷◌, Option, none, some, Bool, true, not, ◌&&◌,
  ltb, if◌then◌else◌, length, get_elem?, get_elem?-lt, get_elem?-some, get_elem?-none,
  length-replicate, replicate, All, arith, Option-cases, inl, inr, subst, sym, ap,
}
use gopher.Prelude.Dict.{lookup}
use gopher.Prelude.Classes.{nat_key}
use gopher.Labs.Labrpc.{done, Service, Network, read_endname_info, set_reliable}
use gopher.Labs.Persister.{Persister}
use gopher.Labs.Harness.{endname_at, connect_all}
use gopher.Labs.Harness.Links.{row_of, IsWired, HasLinks, links_of, HasLinks-links_of}
use gopher.Labs.Harness.Sides.{connect_all-Sets}
use gopher.Labs.Cluster.{KvServer, Cluster, start_servers, empty_cluster, make_config}
use gopher.Labs.Cluster.Ends.{
  All-get_elem?, Separate, index_from, place, index_from-some, index_from-member, place-get_elem?,
}
use gopher.Labs.Cluster.Starting.{Started, start_server-Started}

lookup-empty : (e : ℕ) → ◌≡◌ {A = Option (Unit {0})} (lookup e []) none
unfolding lookup
lookup-empty e = refl

module _ {W : Type 0} where
  start_servers-Started :
      (mount : KvServer → Service W × Service W) (i : ℕ) (rows : List (List ℕ)) (cfg : Cluster W)
      → Separate rows
      → ((e : ℕ) (at : ℕ × ℕ) → place i e rows ≡ some at → lookup e cfg.net.ends ≡ none)
      → i + length rows ≤ length cfg.endnames
      → i + length rows ≤ length cfg.saved
      → (cfg' : Cluster W) × (start_servers mount i rows cfg ≡ done cfg') × Started i rows cfg cfg'
  unfolding start_servers place
  start_servers-Started mount i [] cfg d fresh hi hs = (
    cfg,
    refl,
    record {
      same_n = refl;
      objects = omega arith;
      rooms = refl;
      saves = refl;
      names = λ a. ground arith;
      servers = λ a. ground arith;
      made = λ e. refl;
      connected = λ e. refl;
    },
  )
  start_servers-Started mount i (row ∷ rows) cfg d fresh hi hs =
      let (cfg1, r, s1) =
        start_server-Started mount i row cfg d.0
          (λ e m. let (k, h) = index_from-member 0 e row m in fresh e (i, k) (ground arith))
          (omega arith) (omega arith) in
      let apart : (e : ℕ) (at : ℕ × ℕ)
          → place (suc i) e rows ≡ some at
          → index_from 0 e row ≡ none =
        (λ e at p. elim (Option-cases (index_from 0 e row)) [
          | inl h ↦ h
          | inr (k, h) ↦ absurd (ground (arith, d.1 (suc i) e (index_from-some 0 e k row h)))
        ]) in
      let (cfg2, r2, s2) =
        start_servers-Started mount (suc i) rows cfg1 d.2
          (λ e at p. ground (arith, apart e at p, s1.made e, fresh e at)) (omega (arith, s1.rooms))
          (omega (arith, s1.saves)) in
      let later : (a : ℕ) → i < a → get_elem? (row ∷ rows) (a - i) ≡ get_elem? rows (a - suc i) =
        (λ a l. ap (get_elem? (row ∷ rows)) (let q : a - i ≡ suc (a - suc i) = omega arith in q)) in
      let first : (a : ℕ) → a ≡ i → get_elem? (row ∷ rows) (a - i) ≡ some row =
        (λ a q. ap (get_elem? (row ∷ rows)) (let z : a - i ≡ 0 = omega arith in z)) in
      let first1 : (a : ℕ) → a ≡ i → get_elem? (row ∷ []) (a - i) ≡ some row =
        (λ a q. ap (get_elem? (row ∷ [])) (let z : a - i ≡ 0 = omega arith in z)) in
      (
        cfg2,
        ground arith,
        record {
          same_n = cc;
          objects = omega (arith, s1.objects, s2.objects);
          rooms = cc;
          saves = cc;
          names = λ a. ground (arith, s1.names a, s2.names a, later a, first a, first1 a);
          servers = λ a. ground (arith, s1.servers a, s2.servers a, s1.objects);
          made = λ e. elim (Option-cases (place (suc i) e rows)) [
            | inl p ↦ ground (arith, s1.made e, s2.made e)
            | inr (at, p) ↦ ground (arith, apart e at p, s1.made e, s2.made e)
          ];
          connected = λ e. elim (Option-cases (place (suc i) e rows)) [
            | inl p ↦ ground (arith, s1.connected e, s2.connected e)
            | inr (at, p) ↦ ground (arith, apart e at p, s1.connected e, s2.connected e)
          ];
        },
      )

  -- Every server has an end of its own name for every server, and over each of them a request gets to
  -- its server, which is the object that was made for it.
  pub record IsReady (cfg : Cluster W) : Type 0 where
    pub wired : IsWired cfg.endnames cfg.n
    pub reaches :
        (i j e : ℕ)
        → endname_at cfg.endnames i j ≡ some e
        → read_endname_info cfg.net e ≡ some (j, j)

  -- The end of server `a` for server `b` has the name that was drawn for it.
  drawn :
      (rows : List (List ℕ)) (cfg cfg' : Cluster W) (a b e : ℕ)
      → Started 0 rows cfg cfg'
      → cfg.endnames ≡ replicate (length rows) none
      → endname_at cfg'.endnames a b ≡ some e
      → (row : List ℕ) × (get_elem? rows a ≡ some row) × (get_elem? row b ≡ some e)
  drawn rows cfg cfg' a b e s nil' h =
      let (row, g, h') = row_of cfg'.endnames a b e h in
      let before : Option (Option (List ℕ)) = get_elem? (replicate (length rows) none) a in
      let z : get_elem? rows (a - 0) ≡ get_elem? rows a =
        ap (get_elem? rows) (let q : a - 0 ≡ a = omega arith in q) in
      let outside : length rows ≤ a → get_elem? cfg.endnames a ≡ none = (λ l.
        get_elem?-none cfg.endnames a (
          subst (λ xs. length xs ≤ a) (sym nil')
            (omega (arith, l, length-replicate {A = Option (List ℕ)} (length rows) none)))) in
      (row, ground (arith, s.names a), h')

  Started-IsWired :
      (rows : List (List ℕ)) (cfg cfg' : Cluster W)
      → Separate rows
      → All (λ r. length r ≡ length rows) rows
      → Started 0 rows cfg cfg'
      → cfg.endnames ≡ replicate (length rows) none
      → IsWired cfg'.endnames (length rows)
  unfolding endname_at
  Started-IsWired rows cfg cfg' d square s nil' = record {
    named = λ a b ha hb.
        let (row, g) = get_elem?-lt rows a ha in
        let long : length row ≡ length rows =
          All-get_elem? (λ r. length r ≡ length rows) rows a row square g in
        let (e, h) = get_elem?-lt row b (omega (arith, long)) in
        let z : get_elem? rows (a - 0) ≡ get_elem? rows a =
          ap (get_elem? rows) (let q : a - 0 ≡ a = omega arith in q) in
        (e, ground (arith, s.names a));
    apart = λ a b k l e h h'.
        let (row, g, at) = drawn rows cfg cfg' a b e s nil' h in
        let (row', g', at') = drawn rows cfg cfg' k l e s nil' h' in
        let p = place-get_elem? 0 e a b rows row d g at in
        let p' = place-get_elem? 0 e k l rows row' d g' at' in (ground arith, ground arith);
  }

  Started-reaches :
      (rows : List (List ℕ)) (cfg cfg' : Cluster W) (rn : Network W) (a b e : ℕ)
      → Separate rows
      → All (λ r. length r ≡ length rows) rows
      → Started 0 rows cfg cfg'
      → cfg.endnames ≡ replicate (length rows) none
      → length cfg.net.objects ≡ 0
      → rn ≡ record cfg'.net { enabled = rn.enabled }
      → HasLinks cfg'.endnames rn (λ i j.
        if ltb i (length rows) && ltb j (length rows)
        then true
        else links_of cfg'.endnames cfg'.net i j)
      → endname_at cfg'.endnames a b ≡ some e
      → read_endname_info rn e ≡ some (b, b)
  unfolding read_endname_info
  Started-reaches rows cfg cfg' rn a b e d square s nil' none_yet same links h =
      let (row, g, at) = drawn rows cfg cfg' a b e s nil' h in
      let p = place-get_elem? 0 e a b rows row d g at in
      let long : length row ≡ length rows =
        All-get_elem? (λ r. length r ≡ length rows) rows a row square g in
      let ha = get_elem?-some rows a g in
      let hb = get_elem?-some row b at in
      let conn : rn.connections ≡ cfg'.net.connections = cc in
      let srv : rn.servers ≡ cfg'.net.servers = cc in
      let c : lookup e rn.connections ≡ some (some b) = ground (arith, s.connected e) in
      let v : lookup b rn.servers ≡ some (some b) = ground (arith, s.servers b) in
      ground (arith, links a b e h)

  -- With names that are all different, a row of one for each server, a test starts from a network in
  -- which every server reaches every server.
  pub make_config-IsReady :
      (mount : KvServer → Service W × Service W) (rows : List (List ℕ)) (unreliable : Bool)
      (maxraftstate : Option ℕ)
      → Separate rows
      → All (λ r. length r ≡ length rows) rows
      → (cfg : Cluster W) × (make_config mount rows unreliable maxraftstate ≡ done cfg)
        × IsReady cfg
        × (cfg.n ≡ length rows)
        × (cfg.net.reliable ≡ not unreliable)
  unfolding make_config read_endname_info
  make_config-IsReady mount rows unreliable maxraftstate d square =
      let cfg0 : Cluster W = empty_cluster (length rows) maxraftstate in
      let rooms : (A : Type 0) (a : A) → 0 + length rows ≤ length (replicate (length rows) a) =
        (λ A a. omega (arith, length-replicate (length rows) a)) in
      let (cfg1, r1, s) =
        start_servers-Started mount 0 rows cfg0 d (λ e at p. lookup-empty e)
          (rooms (Option (List ℕ)) none) (rooms (Option Persister) none) in
      let wired = Started-IsWired rows cfg0 cfg1 d square s refl in
      let (net2, r2, same, links) =
        connect_all-Sets cfg1.endnames (length rows) cfg1.net (links_of cfg1.endnames cfg1.net)
          wired (HasLinks-links_of cfg1.endnames cfg1.net) in
      let ready : Cluster W = record cfg1 { net = set_reliable net2 (not unreliable) } in
      let n : cfg1.n ≡ length rows = s.same_n in
      let c : connect_all cfg1.endnames cfg1.n cfg1.net ≡ done net2 =
        subst (λ k. connect_all cfg1.endnames k cfg1.net ≡ done net2) (sym n) r2 in
      (
        ready,
        ground arith,
        record {
          wired = subst (λ k. IsWired cfg1.endnames k) (sym n) wired;
          reaches = λ i j e h.
              Started-reaches rows cfg0 cfg1 net2 i j e d square s refl refl same links h;
        },
        n,
        refl,
      )
