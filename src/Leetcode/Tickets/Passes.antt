-- ===== src/Leetcode/Tickets/Passes.antt =====
-- The plans that `mincostTickets` of go-leetcode/src/solution983.go chooses from, and that it finds
-- the cheapest.
use gopher.Prelude.{
  ℕ, zero, suc, ◌+◌, ◌*◌, ◌%◌, ◌≤◌, ◌<◌, ◌≡◌, ◌≢◌, refl, min, List, [], ◌∷◌, some, true, false,
  ◌==◌, ltb, length, get_elem?, get_elem?-set, set, length-set, member, replicate, arith, ◌⊎◌, inl,
  inr, Bool-cases, subst, ap, length-replicate,
}
use gopher.Leetcode.Tickets.{add_int, min_int, dp, mincost_tickets, ◌>>=◌}

-- What it costs to get from a day to the end of the year: a pass can be bought on any day, and a day
-- without a pass must not be a travel day.
pub data Covers (days : List ℕ) (c0 c1 c2 : ℕ) : ℕ → ℕ → Type 0 where
  over : (i : ℕ) → 365 < i → Covers days c0 c1 c2 i 0
  stay :
      (i c : ℕ) → member i days ≡ false → Covers days c0 c1 c2 (i + 1) c → Covers days c0 c1 c2 i c
  one_day : (i c : ℕ) → Covers days c0 c1 c2 (i + 1) c → Covers days c0 c1 c2 i (c + c0)
  seven_days : (i c : ℕ) → Covers days c0 c1 c2 (i + 7) c → Covers days c0 c1 c2 i (c + c1)
  thirty_days : (i c : ℕ) → Covers days c0 c1 c2 (i + 30) c → Covers days c0 c1 c2 i (c + c2)

zeros : (n j p : ℕ) → get_elem? (replicate n 0) j ≢ some (suc p)
zeros zero j p g = ground arith
zeros (suc n) zero p g = ground arith
zeros (suc n) (suc j) p g = zeros n j p g

payment_at :
    (payment : List ℕ) (i : ℕ)
    → i < length payment
    → (get_elem? payment i ≡ some 0) ⊎ ((p : ℕ) × (get_elem? payment i ≡ some (suc p)))
payment_at [] i h = absurd (omega arith)
payment_at (zero ∷ payment) zero h = inl refl
payment_at (suc p ∷ payment) zero h = inr (p, refl)
payment_at (x ∷ payment) (suc i) h = payment_at payment i (omega arith)

module _ (days : List ℕ) (c0 c1 c2 : ℕ) where
  abbrev Plan : ℕ → ℕ → Type 0
  Plan = Covers days c0 c1 c2

  pub record IsLeast (i c : ℕ) : Type 0 where
    pub plan : Covers days c0 c1 c2 i c
    pub least : (d : ℕ) → Covers days c0 c1 c2 i d → c ≤ d

  -- A plan from a day is one from the next day, or a dearer one.
  later : (i c : ℕ) → Covers days c0 c1 c2 i c → (d : ℕ) × (d ≤ c) × Covers days c0 c1 c2 (i + 1) d
  later i c (over _ h) = (0, omega arith, over (i + 1) (omega arith))
  later i c (stay _ _ m p) = (c, omega arith, p)
  later i _ (one_day _ c p) = (c, omega arith, p)
  later i _ (seven_days _ c p) =
      let (d, l, q) = later (i + 7) c p in
      (
        d + c1,
        omega (arith, l),
        seven_days (i + 1) d
            (subst (λ j. Plan j d) (let e : i + 7 + 1 ≡ i + 1 + 7 = omega arith in e) q),
      )
  later i _ (thirty_days _ c p) =
      let (d, l, q) = later (i + 30) c p in
      (
        d + c2,
        omega (arith, l),
        thirty_days (i + 1) d
            (subst (λ j. Plan j d) (let e : i + 30 + 1 ≡ i + 1 + 30 = omega arith in e) q),
      )

  IsLeast-over : (i : ℕ) → 365 < i → IsLeast i 0
  IsLeast-over i h = record { plan = over i h; least = λ d p. omega arith }

  IsLeast-stay : (i c : ℕ) → member i days ≡ false → IsLeast (i + 1) c → IsLeast i c
  IsLeast-stay i c m l = record {
    plan = stay i c m l.plan;
    least = λ d p. let (e, le, q) = later i d p in omega (arith, le, l.least e q);
  }

  buy-Plan :
      (i a b c : ℕ)
      → Plan (i + 1) a
      → Plan (i + 7) b
      → Plan (i + 30) c
      → Plan i (min (min (a + c0) (b + c1)) (c + c2))
  buy-Plan i a b c p q r = elim (Bool-cases (ltb (c + c2) (min (a + c0) (b + c1)))) [
    | inl x ↦
        subst (Plan i) (let e : c + c2 ≡ min (min (a + c0) (b + c1)) (c + c2) = ground arith in e)
          (thirty_days i c r)
    | inr x ↦ elim (Bool-cases (ltb (b + c1) (a + c0))) [
      | inl y ↦
          subst (Plan i) (let e : b + c1 ≡ min (min (a + c0) (b + c1)) (c + c2) = ground arith in e)
            (seven_days i b q)
      | inr y ↦
          subst (Plan i) (let e : a + c0 ≡ min (min (a + c0) (b + c1)) (c + c2) = ground arith in e)
            (one_day i a p)
    ]
  ]

  below_buy :
      (i a b c d : ℕ)
      → i ≤ 365
      → member i days ≡ true
      → IsLeast (i + 1) a
      → IsLeast (i + 7) b
      → IsLeast (i + 30) c
      → Plan i d
      → min (min (a + c0) (b + c1)) (c + c2) ≤ d
  below_buy i a b c d hi m p q r (over _ h) = absurd (omega arith)
  below_buy i a b c d hi m p q r (stay _ _ m' z) = absurd (ground arith)
  below_buy i a b c _ hi m p q r (one_day _ d z) = omega (arith, p.least d z)
  below_buy i a b c _ hi m p q r (seven_days _ d z) = omega (arith, q.least d z)
  below_buy i a b c _ hi m p q r (thirty_days _ d z) = omega (arith, r.least d z)

  IsLeast-buy :
      (i a b c : ℕ)
      → i ≤ 365
      → member i days ≡ true
      → IsLeast (i + 1) a
      → IsLeast (i + 7) b
      → IsLeast (i + 30) c
      → IsLeast i (min (min (a + c0) (b + c1)) (c + c2))
  IsLeast-buy i a b c hi m p q r = record {
    plan = buy-Plan i a b c p.plan q.plan r.plan;
    least = λ d z. below_buy i a b c d hi m p q r z;
  }

  -- What the array says of a day is right, where it says something.
  pub record IsRight (payment : List ℕ) : Type 0 where
    pub size : length payment ≡ 366
    pub right : (j p : ℕ) → get_elem? payment j ≡ some (suc p) → IsLeast j (suc p)

  IsRight-set :
      (payment : List ℕ) (i c : ℕ) → IsRight payment → IsLeast i c → IsRight (set payment i c)
  IsRight-set payment i c h l = record {
    size = omega (arith, length-set payment i c, h.size);
    right = λ j p g. elim (Bool-cases (i == j)) [
      | inr n ↦ h.right j p (ground (arith, get_elem?-set payment i j c))
      | inl n ↦
          let q : i ≡ j = ground arith in
          let v : c ≡ suc p = ground (arith, get_elem?-set payment i j c) in
          subst (λ k. IsLeast k (suc p)) q (subst (λ x. IsLeast i x) v l)
    ];
  }

  -- A pass for each day that is left.
  daily-Plan : (n i : ℕ) → 365 < i + n → Plan i (n * c0)
  daily-Plan zero i h =
      subst (Plan i) (let e : 0 ≡ 0 * c0 = omega arith in e) (over i (omega arith))
  daily-Plan (suc n) i h =
      let e : n * c0 + c0 ≡ suc n * c0 = omega arith in
      subst (Plan i) e (one_day i (n * c0) (daily-Plan n (i + 1) (omega arith)))

  IsLeast-bound : (i c : ℕ) → 1 ≤ i → IsLeast i c → c ≤ 365 * c0
  IsLeast-bound i c h l = l.least (365 * c0) (daily-Plan 365 i (omega arith))

  -- With sums that are ints, a day on which passes are bought costs the least of the three.
  buy_exact :
      (i a b c : ℕ)
      → IsLeast (i + 1) a
      → IsLeast (i + 7) b
      → IsLeast (i + 30) c
      → 365 * c0 + (c0 + c1 + c2) < 0x8000_0000_0000_0000
      → min_int (min_int (add_int a c0) (add_int b c1)) (add_int c c2)
        ≡ min (min (a + c0) (b + c1)) (c + c2)
  unfolding min_int add_int
  buy_exact i a b c p q r s =
      let pa = IsLeast-bound (i + 1) a (omega arith) p in
      let pb = IsLeast-bound (i + 7) b (omega arith) q in
      let pc = IsLeast-bound (i + 30) c (omega arith) r in
      let xa : (a + c0) % 0x1_0000_0000_0000_0000 ≡ a + c0 = omega arith in
      let xb : (b + c1) % 0x1_0000_0000_0000_0000 ≡ b + c1 = omega arith in
      let xc : (c + c2) % 0x1_0000_0000_0000_0000 ≡ c + c2 = omega arith in ground arith

  -- One call of `dp` with enough fuel.
  dp-IsLeast :
      (fuel i : ℕ) (costs payment : List ℕ)
      → 366 ≤ i + fuel
      → get_elem? costs 0 ≡ some c0
      → get_elem? costs 1 ≡ some c1
      → get_elem? costs 2 ≡ some c2
      → 365 * c0 + (c0 + c1 + c2) < 0x8000_0000_0000_0000
      → IsRight payment
      → (c : ℕ) × (payment' : List ℕ) × (dp days costs fuel i payment ≡ some (c, payment'))
        × IsLeast i c
        × IsRight payment'
  unfolding dp
  dp-IsLeast zero i costs payment h g0 g1 g2 s r =
      (0, payment, ground arith, IsLeast-over i (omega arith), r)
  dp-IsLeast (suc fuel) i costs payment h g0 g1 g2 s r = elim (Bool-cases (ltb 365 i)) [
    | inl o ↦ (0, payment, ground arith, IsLeast-over i (ground arith), r)
    | inr o ↦ elim (payment_at payment i (ground (arith, r.size))) [
      | inr (paid, g) ↦ (suc paid, payment, ground arith, r.right i paid g, r)
      | inl g ↦ elim (Bool-cases (member i days)) [
        | inr m ↦
            let (c, p1, e, l, r1) =
              dp-IsLeast fuel (i + 1) costs payment (omega arith) g0 g1 g2 s r in
            let least = IsLeast-stay i c m l in
            (c, set p1 i c, ground arith, least, IsRight-set p1 i c r1 least)
        | inl m ↦
            let (a, p1, e1, l1, r1) =
              dp-IsLeast fuel (i + 1) costs payment (omega arith) g0 g1 g2 s r in
            let (b, p2, e2, l2, r2) =
              dp-IsLeast fuel (i + 7) costs p1 (omega arith) g0 g1 g2 s r1 in
            let (c, p3, e3, l3, r3) =
              dp-IsLeast fuel (i + 30) costs p2 (omega arith) g0 g1 g2 s r2 in
            let d = min (min (a + c0) (b + c1)) (c + c2) in
            let least = IsLeast-buy i a b c (ground arith) m l1 l2 l3 in
            let exact = buy_exact i a b c l1 l2 l3 s in
            (d, set p3 i d, ground arith, least, IsRight-set p3 i d r3 least)
      ]
    ]
  ]

-- For every list of travel days and three costs, when 366 passes for a day and one of each other kind
-- cost less than 2^63 together, the answer is the cost of a plan that covers the
-- travel days from day 1 on, and no plan is cheaper.
pub mincost_tickets-IsLeast :
    (days costs : List ℕ) (c0 c1 c2 : ℕ)
    → costs ≡ c0 ∷ c1 ∷ c2 ∷ []
    → 365 * c0 + (c0 + c1 + c2) < 0x8000_0000_0000_0000
    → (c : ℕ) × (mincost_tickets days costs ≡ some c) × IsLeast days c0 c1 c2 1 c
unfolding mincost_tickets
mincost_tickets-IsLeast days costs c0 c1 c2 q s =
    let blank : IsRight days c0 c1 c2 (replicate 366 0) = record {
      size = length-replicate {A = ℕ} 366 0;
      right = λ j p g. absurd (zeros 366 j p g);
    } in
    let (c, payment, e, l, r) =
      dp-IsLeast days c0 c1 c2 366 1 costs (replicate 366 0) (omega arith)
        (ap (λ x. get_elem? x 0) q) (ap (λ x. get_elem? x 1) q) (ap (λ x. get_elem? x 2) q) s
        blank in
    (c, ap (λ x. x >>= (λ r. some r.0)) e, l)
