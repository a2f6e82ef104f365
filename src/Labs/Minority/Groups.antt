-- ===== src/Labs/Minority/Groups.antt =====
-- What make_partition of 6.5840/src/kvraft/config.go makes of an odd number of servers: two groups,
-- with the leader in the smaller one.
use gopher.Prelude.{
  ℕ, zero, suc, ◌+◌, ◌-◌, ◌/◌, ◌≤◌, ◌<◌, ◌≡◌, ◌≢◌, refl, subst, sym, ◌⊎◌, List, [], ◌∷◌, some, Bool,
  true, false, ◌==◌, if◌then◌else◌, length, get_elem?, get_elem?-some, length-replicate, replicate,
  member, arith, Bool-cases, inl, inr, All,
}
use gopher.Labs.Labrpc.{done}
use gopher.Labs.Harness.Sides.{AreServers, AreApart}
use gopher.Labs.Minority.{leader_from, put_last, make_partition}
use gopher.Labs.Minority.Filling.{server_at, IsFilled, place_servers-IsFilled}

-- The first server that says that it leads, or server 0 if none does.
pub data IsFirstLeader (leads : List Bool) : ℕ → Type 0 where
  leads_first :
      (l : ℕ)
      → get_elem? leads l ≡ some true
      → ((j : ℕ) → j < l → get_elem? leads j ≡ some false)
      → IsFirstLeader leads l
  nobody_leads : ((j : ℕ) → get_elem? leads j ≢ some true) → IsFirstLeader leads 0

-- The search from a number on, when the list is what comes behind that many others.
FoundFrom : ℕ → List Bool → ℕ → Type 0
FoundFrom i leads l =
    ((k : ℕ) × (l ≡ i + k)
      × (get_elem? leads k ≡ some true)
      × ((j : ℕ) → j < k → get_elem? leads j ≡ some false))
    ⊎ ((l ≡ 0) × ((j : ℕ) → get_elem? leads j ≢ some true))

not_before :
    (leads : List Bool) (k : ℕ)
    → ((j : ℕ) → j < k → get_elem? leads j ≡ some false)
    → (j : ℕ) → j < suc k
    → get_elem? (false ∷ leads) j ≡ some false
not_before leads k h zero l = refl
not_before leads k h (suc j) l = h j (omega arith)

nowhere :
    (leads : List Bool)
    → ((j : ℕ) → get_elem? leads j ≢ some true)
    → (j : ℕ) → get_elem? (false ∷ leads) j ≢ some true
nowhere leads h zero g = ground arith
nowhere leads h (suc j) g = h j g

leader_from-FoundFrom : (i : ℕ) (leads : List Bool) → FoundFrom i leads (leader_from i leads).1
unfolding leader_from FoundFrom
leader_from-FoundFrom i [] = inr (refl, λ j g. ground arith)
leader_from-FoundFrom i (true ∷ leads) = inl (0, omega arith, refl, λ j l. absurd (omega arith))
leader_from-FoundFrom i (false ∷ leads) = elim (leader_from-FoundFrom (i + 1) leads) [
  | inl found ↦ inl (suc found.0, omega (arith, found.1), found.2, not_before leads found.0 found.3)
  | inr none' ↦ inr (none'.0, nowhere leads none'.1)
]

leader_from-IsFirstLeader : (leads : List Bool) → IsFirstLeader leads (leader_from 0 leads).1
unfolding FoundFrom
leader_from-IsFirstLeader leads = elim (leader_from-FoundFrom 0 leads) [
  | inl found ↦
      let e : found.0 ≡ (leader_from 0 leads).1 = omega (arith, found.1) in
      subst (IsFirstLeader leads) e (leads_first found.0 found.2 found.3)
  | inr none' ↦ subst (IsFirstLeader leads) (sym none'.0) (nobody_leads none'.1)
]

leader_from-lt :
    (i : ℕ) (leads : List Bool) → 0 < i + length leads → (leader_from i leads).1 < i + length leads
unfolding leader_from
leader_from-lt i [] h = omega arith
leader_from-lt i (true ∷ leads) h = omega arith
leader_from-lt i (false ∷ leads) h = omega (arith, leader_from-lt (i + 1) leads (omega arith))

put_last-get_elem? :
    (p : List ℕ) (l : ℕ)
    → 0 < length p
    → (q : List ℕ) × (put_last p l ≡ done q)
      × (length q ≡ length p)
      × ((k : ℕ) → get_elem? q k ≡ (if k + 1 == length p then some l else get_elem? p k))
unfolding put_last
put_last-get_elem? [] l h = absurd (omega arith)
put_last-get_elem? (x ∷ []) l h = (l ∷ [], refl, refl, one)
  where
    one : (k : ℕ) → get_elem? (l ∷ []) k ≡ (if k + 1 == 1 then some l else get_elem? (x ∷ []) k)
    one zero = refl
    one (suc k) = ground arith
put_last-get_elem? (x ∷ y ∷ p) l h =
    let (q, r, n, at) = put_last-get_elem? (y ∷ p) l (omega arith) in
    (x ∷ q, ground arith, omega (arith, n), more q at)
  where
    more :
        (q : List ℕ)
        → ((k : ℕ)
            → get_elem? q k ≡ (if k + 1 == length (y ∷ p) then some l else get_elem? (y ∷ p) k))
        → (k : ℕ)
        → get_elem? (x ∷ q) k
          ≡ (if k + 1 == length (x ∷ y ∷ p) then some l else get_elem? (x ∷ y ∷ p) k)
    more q at zero = ground arith
    more q at (suc k) = ground (arith, at k)

member-index : (a : ℕ) (xs : List ℕ) → member a xs ≡ true → (k : ℕ) × (get_elem? xs k ≡ some a)
member-index a [] m = absurd (ground arith)
member-index a (x ∷ xs) m = elim (Bool-cases (x == a)) [
  | inl q ↦ (0, ground arith)
  | inr q ↦ let (k, g) = member-index a xs (ground arith) in (suc k, g)
]

All-index {κ} :
    (P : ℕ → Type κ) (xs : List ℕ) → ((k a : ℕ) → get_elem? xs k ≡ some a → P a) → All P xs
All-index P [] h = tt
All-index P (x ∷ xs) h = (h 0 x refl, All-index P xs (λ k a. h (suc k) a))

member-get_elem? : (xs : List ℕ) (k a : ℕ) → get_elem? xs k ≡ some a → member a xs ≡ true
member-get_elem? [] k a g = absurd (ground arith)
member-get_elem? (x ∷ xs) zero a g = ground arith
member-get_elem? (x ∷ xs) (suc k) a g = ground (arith, member-get_elem? xs k a g)

-- Two groups of servers that there are, without a common one, and the leader in the second, which is
-- the smaller by one.
pub record IsMinority (n l : ℕ) (p1 p2 : List ℕ) : Type 0 where
  pub first : AreServers n p1
  pub second : AreServers n p2
  pub apart : AreApart p1 p2
  pub led : member l p2 ≡ true
  pub sizes : (length p1 ≡ length p2 + 1) × (length p1 + length p2 ≡ n)

IsFilled-IsMinority :
    (l m : ℕ) (p1 p2 q : List ℕ)
    → 1 ≤ m
    → l < m + m + 1
    → IsFilled l m (m + m + 1) p1 p2
    → length q ≡ length p2
    → ((k : ℕ) → get_elem? q k ≡ (if k + 1 == length p2 then some l else get_elem? p2 k))
    → IsMinority (m + m + 1) l p1 q
IsFilled-IsMinority l m p1 p2 q hm hl f len at =
    let size1 = f.len1 in
    let size2 = f.len2 in
    let p1_at : (k a : ℕ) → get_elem? p1 k ≡ some a → (a ≡ server_at l k) × (k < m + 1) = (λ k a g.
      let lt = get_elem?-some p1 k g in (ground (arith, f.left k, lt), omega (arith, lt, size1))) in
    let q_at : (k a : ℕ)
        → get_elem? q k ≡ some a
        → (a ≡ (if k + 1 == m then l else server_at l (k + (m + 1)))) × (k < m) =
      (λ k a g.
        let lt = get_elem?-some q k g in
        (ground (arith, f.right k, at k, lt, len, size2), omega (arith, lt, len, size2))) in
    record {
      first = (
        omega (arith, size1),
        All-index (λ a. a < m + m + 1) p1
            (λ k a g. ground (arith, (p1_at k a g).0, (p1_at k a g).1)),
      );
      second = (
        omega (arith, size2, len),
        All-index (λ a. a < m + m + 1) q (λ k a g. ground (arith, (q_at k a g).0, (q_at k a g).1)),
      );
      apart = λ a h. elim (Bool-cases (member a q)) [
        | inr n ↦ n
        | inl n ↦
            let (k1, g1) = member-index a p1 h in
            let (k2, g2) = member-index a q n in
            absurd (
              ground
                (arith, (p1_at k1 a g1).0, (p1_at k1 a g1).1, (q_at k2 a g2).0, (q_at k2 a g2).1))
      ];
      led = member-get_elem? q (m - 1) l (ground (arith, at (m - 1), size2));
      sizes = (omega (arith, size1, size2, len), omega (arith, size1, size2, len));
    }

-- For every odd number of servers from three on, whoever leads, or if nobody does, make_partition ends
-- with two groups that have no server in common, the second smaller by one and with the first leader
-- in it, or with server 0 if none leads.
pub make_partition-IsMinority :
    (m : ℕ) (leads : List Bool)
    → 1 ≤ m
    → length leads ≡ m + m + 1
    → (l : ℕ) × (p1 : List ℕ) × (p2 : List ℕ) × IsFirstLeader leads l
      × (make_partition (m + m + 1) leads ≡ done (p1, p2))
      × IsMinority (m + m + 1) l p1 p2
unfolding make_partition
make_partition-IsMinority m leads hm hn =
    let l = (leader_from 0 leads).1 in
    let n = m + m + 1 in
    let hl : l < m + m + 1 = omega (arith, leader_from-lt 0 leads (omega arith), hn) in
    let half : n / 2 ≡ m = omega arith in
    let start1 : List ℕ = replicate (n / 2 + 1) 0 in
    let start2 : List ℕ = replicate (n / 2) 0 in
    let (p1, p2, r, f) =
      place_servers-IsFilled l m n 0 0 start1 start2 (omega arith) hl (ground arith) record {
        len1 = omega (arith, length-replicate (n / 2 + 1) (let z : ℕ = 0 in z), half);
        len2 = omega (arith, length-replicate (n / 2) (let z : ℕ = 0 in z), half);
        left = λ k a b. absurd (ground arith);
        right = λ k a. absurd (ground arith);
      } in
    let (q, s, len, at) = put_last-get_elem? p2 l (omega (arith, f.len2, hm)) in
    (
      l,
      p1,
      q,
      leader_from-IsFirstLeader leads,
      ground arith,
      IsFilled-IsMinority l m p1 p2 q hm hl f len at,
    )
