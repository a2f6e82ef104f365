-- ===== src/Labs/Harness/Sides.antt =====
-- `partition` and `ConnectAll` of 6.5840/src/kvraft/config.go, and what a request meets afterwards.
use gopher.Prelude.{
  ℕ, zero, suc, ◌+◌, ◌<◌, ◌≤◌, ◌≡◌, refl, List, [], ◌∷◌, some, Bool, true, false, ◌&&◌, ◌||◌,
  if◌then◌else◌, length, All, member, arith, subst, sym, ap, ltb, leb,
}
use gopher.Prelude.Classes.{nat_key}
use gopher.Labs.Labrpc.{done, Network, ReqMsg, failed, read_endname_info}
use gopher.Labs.Calls.{Fate, process_req}
use gopher.Labs.Harness.{
  Endnames, endname_at, all_from, connect_each, connect_all, move_each, partition_servers,
}
use gopher.Labs.Harness.Links.{
  IsWired, HasLinks, Sets, links_of, HasLinks-links_of, attached, detached, connect_unlocked-Sets,
  disconnect_unlocked-Sets,
}

-- No server is on both sides.
abbrev pub AreApart : List ℕ → List ℕ → Type 0
AreApart p1 p2 = (a : ℕ) → member a p1 ≡ true → member a p2 ≡ false

-- The sides are of servers that there are.
abbrev pub AreServers : ℕ → List ℕ → Type 0
AreServers n p = (length p ≤ n) × All (λ a. a < n) p

-- The links after the servers of `is`, out of `mine`, were moved away from `other`.
abbrev moved : List ℕ → List ℕ → List ℕ → (ℕ → ℕ → Bool) → ℕ → ℕ → Bool
moved is mine other links a b =
    if (member a is && member b mine) || (member b is && member a mine)
    then true
    else if (member a is && member b other) || (member b is && member a other)
    then false
    else links a b

-- Two servers on one side are linked, two on different sides are not, and the rest is as before.
abbrev pub sided : List ℕ → List ℕ → (ℕ → ℕ → Bool) → ℕ → ℕ → Bool
sided p1 p2 links a b =
    if (member a p1 && member b p1) || (member a p2 && member b p2)
    then true
    else if (member a p1 && member b p2) || (member a p2 && member b p1)
    then false
    else links a b

pub member-all_from : (i n a : ℕ) → member a (all_from i n) ≡ (leb i a && ltb a (i + n))
unfolding all_from
member-all_from i zero a = ground arith
member-all_from i (suc n) a = ground (arith, member-all_from (suc i) n a)

pub All-all_from : (i n k : ℕ) → i + n ≤ k → All (λ a. a < k) (all_from i n)
unfolding all_from
All-all_from i zero k h = tt
All-all_from i (suc n) k h = (omega arith, All-all_from (suc i) n k (omega arith))

pub length-all_from : (i n : ℕ) → length (all_from i n) ≡ n
unfolding all_from
length-all_from i zero = refl
length-all_from i (suc n) = ap suc (length-all_from (suc i) n)

module _ {W : Type 0} where
  move_each-Sets :
      (names : Endnames) (n : ℕ) (is mine other : List ℕ) (rn : Network W) (links : ℕ → ℕ → Bool)
      → IsWired names n
      → AreServers n mine
      → AreServers n other
      → AreApart mine other
      → All (λ i. i < n) is
      → ((a : ℕ) → member a is ≡ true → member a mine ≡ true)
      → HasLinks names rn links
      → Sets names rn (move_each names is mine other) (moved is mine other links)
  unfolding move_each
  move_each-Sets names n [] mine other rn links wired hm ho apart hi sub h =
      (rn, refl, refl, λ a b e named. ground (arith, h a b e named))
  move_each-Sets names n (i ∷ is) mine other rn links wired hm ho apart hi sub h =
      let (rn1, r1, same1, h1) =
        disconnect_unlocked-Sets names n i other rn links wired hi.0 ho.0 ho.1 h in
      let (rn2, r2, same2, h2) =
        connect_unlocked-Sets names n i mine rn1 (detached i other links) wired hi.0 hm.1 h1 in
      let (rn3, r3, same3, h3) =
        move_each-Sets names n is mine other rn2 (attached i mine (detached i other links)) wired hm
          ho apart hi.1 (λ a m. sub a (ground arith)) h2 in
      (
        rn3,
        ground arith,
        cc,
        λ a b d named. ground (arith, h3 a b d named, apart a, apart b, sub a, sub b),
      )

  -- On a network where every server has an end of its own name for every server, a partition into
  -- two sides without a common server ends; afterwards two servers of one side are linked in both
  -- directions, two of different sides in neither, and every other link and all else is as before.
  pub partition_servers-Sets :
      (names : Endnames) (n : ℕ) (p1 p2 : List ℕ) (rn : Network W) (links : ℕ → ℕ → Bool)
      → IsWired names n
      → AreServers n p1
      → AreServers n p2
      → AreApart p1 p2
      → HasLinks names rn links
      → Sets names rn (partition_servers names p1 p2) (sided p1 p2 links)
  unfolding partition_servers
  partition_servers-Sets names n p1 p2 rn links wired hp hq apart h =
      let (rn1, r1, same1, h1) =
        move_each-Sets names n p1 p1 p2 rn links wired hp hq apart hp.1 (λ a m. m) h in
      let (rn2, r2, same2, h2) =
        move_each-Sets names n p2 p2 p1 rn1 (moved p1 p1 p2 links) wired hq hp
          (λ a m. ground (arith, apart a)) hq.1 (λ a m. m) h1 in
      (rn2, ground arith, cc, λ a b d named. ground (arith, h2 a b d named, apart a, apart b))

  -- A request from one side of a partition to the other fails and runs no handler, whatever the
  -- network does with it.
  pub partition_servers-process_req :
      (names : Endnames) (n : ℕ) (p1 p2 : List ℕ) (rn rn' : Network W) (fate : Fate W)
      (req : ReqMsg) (w : W) (a b : ℕ)
      → IsWired names n
      → AreServers n p1
      → AreServers n p2
      → AreApart p1 p2
      → member a p1 && member b p2 || member a p2 && member b p1 ≡ true
      → endname_at names a b ≡ some req.endname
      → partition_servers names p1 p2 rn ≡ done rn'
      → process_req rn' fate req w ≡ done (rn', w, failed)
  unfolding process_req read_endname_info
  partition_servers-process_req names n p1 p2 rn rn' fate req w a b wired hp hq apart sides named
        e =
      let links = links_of names rn in
      let (rn1, r1, same, h1) =
        partition_servers-Sets names n p1 p2 rn links wired hp hq apart
          (HasLinks-links_of names rn) in
      let q : rn' ≡ rn1 = ground arith in
      let on : HasLinks names rn' (sided p1 p2 links) =
        subst (λ r. HasLinks names r (sided p1 p2 links)) (sym q) h1 in
      let at_end = on a b req.endname named in ground (arith, apart a, apart b)

  connect_each-Sets :
      (names : Endnames) (n : ℕ) (is to : List ℕ) (rn : Network W) (links : ℕ → ℕ → Bool)
      → IsWired names n
      → All (λ i. i < n) is
      → All (λ i. i < n) to
      → HasLinks names rn links
      → Sets names rn (connect_each names is to) (λ a b.
        if (member a is && member b to) || (member b is && member a to) then true else links a b)
  unfolding connect_each
  connect_each-Sets names n [] to rn links wired hi ht h =
      (rn, refl, refl, λ a b e named. ground (arith, h a b e named))
  connect_each-Sets names n (i ∷ is) to rn links wired hi ht h =
      let (rn1, r1, same1, h1) = connect_unlocked-Sets names n i to rn links wired hi.0 ht h in
      let (rn2, r2, same2, h2) =
        connect_each-Sets names n is to rn1 (attached i to links) wired hi.1 ht h1 in
      (rn2, ground arith, cc, λ a b d named. ground (arith, h2 a b d named))

  -- Once every server has an end of its own name for every server, `ConnectAll` ends and links every
  -- server with every server, itself included, and changes nothing else.
  pub connect_all-Sets :
      (names : Endnames) (n : ℕ) (rn : Network W) (links : ℕ → ℕ → Bool)
      → IsWired names n
      → HasLinks names rn links
      → Sets names rn (connect_all names n) (λ a b. if ltb a n && ltb b n then true else links a b)
  unfolding connect_all
  connect_all-Sets names n rn links wired h =
      let below = All-all_from 0 n n (omega arith) in
      let (rn1, r1, same1, h1) =
        connect_each-Sets names n (all_from 0 n) (all_from 0 n) rn links wired below below h in
      (
        rn1,
        r1,
        same1,
        λ a b d named. ground (arith, h1 a b d named, member-all_from 0 n a, member-all_from 0 n b),
      )
