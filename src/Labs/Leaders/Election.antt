-- ===== src/Labs/Leaders/Election.antt =====
-- What `checkOneLeader` of 6.5840/src/raft/config.go finds.
use gopher.Prelude.{
  ℕ, zero, suc, ◌+◌, ◌-◌, ◌≤◌, ◌<◌, ◌≡◌, ◌≢◌, refl, List, [], ◌∷◌, Option, none, some, true, ◌==◌,
  ltb, leb, length, get_elem?, All, member, arith, ◌⊎◌, inl, inr, List-cases, Option-cases,
  Bool-cases, subst,
}
use gopher.Prelude.Dict.{lookup}
use gopher.Prelude.Classes.{nat_key}
use gopher.Labs.Labrpc.{done, fatal, Run-cases}
use gopher.Labs.Leaders.{Look, or_empty, leaders_from, last_term, find_leader, check_one_leader}
use gopher.Labs.Leaders.Terms.{
  Leads, claimants, lookup-leaders_from, Distinct-leaders_from, last_term-lookup, last_term-some,
  last_term-total,
}
use gopher.Labs.Leaders.Claimants.{claimants-Leads, Leads-claimants, two_claimants}

-- The server is connected and leads, in a term above that of every other connected leader.
pub record IsElected (ss : List Look) (i : ℕ) : Type 0 where
  pub term : ℕ
  pub leads : Leads ss i term
  pub highest : (j t : ℕ) → Leads ss j t → (j ≡ i) ⊎ (t < term)

-- No two connected servers lead in one term.
abbrev pub OneEach : List Look → Type 0
OneEach ss = (j k t : ℕ) → Leads ss j t → Leads ss k t → j ≡ k

length-two :
    (j k : ℕ) (xs : List ℕ) → member j xs ≡ true → member k xs ≡ true → j ≢ k → 2 ≤ length xs
length-two j k [] hj hk ne = absurd (ground arith)
length-two j k (x ∷ []) hj hk ne = absurd (ground (arith, ne))
length-two j k (x ∷ y ∷ xs) hj hk ne = omega arith

in_map :
    (t : ℕ) (ss : List Look)
    → lookup t (leaders_from 0 ss [])
      ≡ (elim (claimants t 0 ss) [ [] ↦ none | j ∷ js ↦ some (j ∷ js) ])
unfolding lookup
in_map t ss = elim (List-cases (claimants t 0 ss)) [
  | inl e ↦ ground (arith, lookup-leaders_from t 0 ss [])
  | inr (x, xs, e) ↦ ground (arith, lookup-leaders_from t 0 ss [])
]

in_map-Leads :
    (j t : ℕ) (ss : List Look)
    → Leads ss j t
    → (is : List ℕ) × (lookup t (leaders_from 0 ss []) ≡ some is)
      × (claimants t 0 ss ≡ is)
      × (member j is ≡ true)
in_map-Leads j t ss l =
    let m : member (0 + j) (claimants t 0 ss) ≡ true = claimants-Leads t 0 j ss l in
    let m' : member j (claimants t 0 ss) ≡ true =
      subst (λ k. member k (claimants t 0 ss) ≡ true) (let q : 0 + j ≡ j = omega arith in q) m in
    elim (List-cases (claimants t 0 ss)) [
      | inl e ↦ absurd (ground arith)
      | inr (x, xs, e) ↦ (x ∷ xs, ground (arith, in_map t ss), e, ground arith)
    ]

-- Two leaders in one term stop the test.
pub find_leader-fatal :
    (ss : List Look) (j k t : ℕ) → Leads ss j t → Leads ss k t → j ≢ k → find_leader ss ≡ fatal
unfolding find_leader
find_leader-fatal ss j k t lj lk ne =
    let d = leaders_from 0 ss [] in
    let (is, at, e, mj) = in_map-Leads j t ss lj in
    let (is', at', e', mk) = in_map-Leads k t ss lk in
    let two : 2 ≤ length is = length-two j k is mj (ground arith) ne in
    elim (Run-cases (last_term none d)) [
      | inr f ↦ ground arith
      | inl (r, f) ↦
          let (one, _) = last_term-lookup t is none r d at f in absurd (omega (arith, one, two))
    ]

below_last :
    (ss : List Look) (i j t u : ℕ)
    → last_term none (leaders_from 0 ss []) ≡ done (some u)
    → Leads ss i u
    → Leads ss j t
    → (j ≡ i) ⊎ (t < u)
below_last ss i j t u f li lj =
    let d = leaders_from 0 ss [] in
    let (is, at, e, mj) = in_map-Leads j t ss lj in
    let (is', at', e', mi) = in_map-Leads i u ss li in
    let (one, le) = last_term-lookup t is none (some u) d at f in
    elim (Bool-cases (ltb t u)) [
      | inl l ↦ inr (ground arith)
      | inr l ↦ elim (Bool-cases (j == i)) [
        | inl q ↦ inl (ground arith)
        | inr q ↦
            let same : t ≡ u = ground arith in
            let at_u : lookup u d ≡ some is = subst (λ v. lookup v d ≡ some is) same at in
            let mi' : member i is ≡ true = ground arith in
            absurd (omega (arith, one, length-two j i is mj mi' (ground arith)))
      ]
    ]

-- What one iteration finds is a connected server that leads in a term above that of every other
-- connected leader.
pub find_leader-IsElected :
    (ss : List Look) (i : ℕ) → find_leader ss ≡ done (some i) → IsElected ss i
unfolding find_leader
find_leader-IsElected ss i h =
    let d = leaders_from 0 ss [] in
    elim (Run-cases (last_term none d)) [
      | inr f ↦ absurd (ground arith)
      | inl (none, f) ↦ absurd (ground arith)
      | inl (some u, f) ↦ elim (last_term-some none u d f) [
        | inl n ↦ absurd (ground arith)
        | inr (is, at) ↦ elim (List-cases (claimants u 0 ss)) [
          | inl e ↦ absurd (ground (arith, in_map u ss))
          | inr (x, xs, e) ↦
              let m : member i (claimants u 0 ss) ≡ true = ground (arith, in_map u ss) in
              let (i', q, l) = Leads-claimants u 0 i ss m in
              let same : i' ≡ i = omega (arith, q) in
              let leads : Leads ss i u = subst (λ k. Leads ss k u) same l in
              record {
                term = u;
                leads = leads;
                highest = λ j t lj. below_last ss i j t u f leads lj;
              }
        ]
      ]
    ]

short_lem :
    (ss : List Look) (t : ℕ) (is : List ℕ)
    → OneEach ss
    → lookup t (leaders_from 0 ss []) ≡ some is
    → length is ≤ 1
short_lem ss t is one at = elim (Bool-cases (leb 2 (length (claimants t 0 ss)))) [
  | inl two ↦
      let (j, k, l, a, b) = two_claimants t 0 ss (ground arith) in
      absurd (omega (arith, l, one j k t a b))
  | inr short ↦ elim (List-cases (claimants t 0 ss)) [
    | inl e ↦ absurd (ground (arith, in_map t ss))
    | inr (x, xs, e) ↦ ground (arith, in_map t ss)
  ]
]

find_leader-total : (ss : List Look) → OneEach ss → (o : Option ℕ) × (find_leader ss ≡ done o)
unfolding find_leader
find_leader-total ss one =
    let d = leaders_from 0 ss [] in
    let short : (t : ℕ) (is : List ℕ) → lookup t d ≡ some is → length is ≤ 1 =
      (λ t is at. short_lem ss t is one at) in
    let (r, e) = last_term-total none d (Distinct-leaders_from 0 ss [] tt) short in
    elim (Option-cases r) [
      | inl n ↦ (none, ground arith)
      | inr (u, n) ↦ elim (last_term-some none u d (ground arith)) [
        | inl z ↦ absurd (ground arith)
        | inr (is, at) ↦ elim (List-cases (claimants u 0 ss)) [
          | inl c ↦ absurd (ground (arith, in_map u ss))
          | inr (x, xs, c) ↦ (some x, ground (arith, in_map u ss))
        ]
      ]
    ]

find_leader-none : (ss : List Look) (j t : ℕ) → Leads ss j t → find_leader ss ≢ done none
unfolding find_leader
find_leader-none ss j t l h =
    let d = leaders_from 0 ss [] in
    let (is, at, e, m) = in_map-Leads j t ss l in
    elim (Run-cases (last_term none d)) [
      | inr f ↦ ground arith
      | inl (r, f) ↦
          let (one, le) = last_term-lookup t is none r d at f in
          elim (Option-cases r) [
            | inl n ↦ ground arith
            | inr (u, n) ↦ elim (List-cases (or_empty (lookup u d))) [
              | inl c ↦ ground arith
              | inr (x, xs, c) ↦ ground arith
            ]
          ]
    ]

later_round :
    (s : List Look) (rounds : List (List Look)) (r j t : ℕ) (ss : List Look)
    → find_leader s ≡ done none
    → get_elem? (s ∷ rounds) r ≡ some ss
    → Leads ss j t
    → get_elem? rounds (r - 1) ≡ some ss
later_round s rounds zero j t ss n g l =
    let q : s ≡ ss = ground arith in
    absurd (find_leader-none ss j t l (subst (λ x. find_leader x ≡ done none) q n))
later_round s rounds (suc r) j t ss n g l =
    subst (λ k. get_elem? rounds k ≡ some ss) (let q : r ≡ suc r - 1 = omega arith in q) g

-- If no iteration sees two leaders in a term and some iteration sees a leader, the check ends well:
-- with a server that in one of the iterations was connected and led in a term above that of every
-- other connected leader.
pub check_one_leader-IsElected :
    (rounds : List (List Look)) (r j t : ℕ) (ss : List Look)
    → All OneEach rounds
    → get_elem? rounds r ≡ some ss
    → Leads ss j t
    → (i : ℕ) × (k : ℕ) × (seen : List Look) × (check_one_leader rounds ≡ done i)
      × (get_elem? rounds k ≡ some seen)
      × IsElected seen i
unfolding check_one_leader
check_one_leader-IsElected [] r j t ss one g l = absurd (ground arith)
check_one_leader-IsElected (s ∷ rounds) r j t ss one g l =
    let (o, e) = find_leader-total s one.0 in
    elim (Option-cases o) [
      | inr (i, n) ↦ (i, 0, s, ground arith, refl, find_leader-IsElected s i (ground arith))
      | inl n ↦
          let none_here : find_leader s ≡ done none = ground arith in
          let (i, k, seen, h, at, elected) =
            check_one_leader-IsElected rounds (r - 1) j t ss one.1
              (later_round s rounds r j t ss none_here g l) l in
          (i, suc k, seen, ground arith, at, elected)
    ]
