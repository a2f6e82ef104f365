-- ===== src/Labs/Leaders/Claimants.antt =====
-- The claimants of a term, for `checkOneLeader` of 6.5840/src/raft/config.go: who they are.
use gopher.Prelude.{
  ℕ, zero, suc, ◌+◌, ◌≤◌, ◌<◌, ◌≡◌, refl, List, [], ◌∷◌, true, ◌==◌, length, member, arith, inl,
  inr, List-cases, Bool-cases, sym, subst,
}
use gopher.Prelude.Classes.{nat_key}
use gopher.Labs.Leaders.{Look}
use gopher.Labs.Leaders.Terms.{Leads, claims, claimants}

Leads-suc : {s : Look} {ss : List Look} {j term : ℕ} → Leads ss j term → Leads (s ∷ ss) (suc j) term
Leads-suc l = record {
  look = l.look;
  seen = l.seen;
  connected = l.connected;
  leader = l.leader;
  in_term = l.in_term;
}

Leads-zero : (s : Look) (ss : List Look) (term : ℕ) → claims term s ≡ true → Leads (s ∷ ss) 0 term
Leads-zero s ss term c = record {
  look = s;
  seen = refl;
  connected = ground arith;
  leader = ground arith;
  in_term = ground arith;
}

pub claimants-Leads :
    (term i j : ℕ) (ss : List Look) → Leads ss j term → member (i + j) (claimants term i ss) ≡ true
unfolding claimants
claimants-Leads term i j [] l = absurd (let q = l.seen in ground arith)
claimants-Leads term i zero (s ∷ ss) l =
    let q : s ≡ l.look = ground (arith, l.seen) in
    let c : claims term s ≡ true =
      subst (λ x. claims term x ≡ true) (sym q)
        (ground (arith, l.connected, l.leader, l.in_term)) in
    ground arith
claimants-Leads term i (suc j) (s ∷ ss) l =
    let l' : Leads ss j term = record {
      look = l.look;
      seen = l.seen;
      connected = l.connected;
      leader = l.leader;
      in_term = l.in_term;
    } in
    let m : member (i + suc j) (claimants term (suc i) ss) ≡ true =
      subst (λ k. member k (claimants term (suc i) ss) ≡ true)
        (let q : suc i + j ≡ i + suc j = omega arith in q) (claimants-Leads term (suc i) j ss l') in
    ground arith

pub Leads-claimants :
    (term i k : ℕ) (ss : List Look)
    → member k (claimants term i ss) ≡ true
    → (j : ℕ) × (k ≡ i + j) × Leads ss j term
unfolding claimants
Leads-claimants term i k [] m = absurd (ground arith)
Leads-claimants term i k (s ∷ ss) m = elim (Bool-cases (claims term s)) [
  | inr c ↦
      let (j, q, l) = Leads-claimants term (suc i) k ss (ground arith) in
      (suc j, omega (arith, q), Leads-suc l)
  | inl c ↦ elim (Bool-cases (i == k)) [
    | inl q ↦ (0, ground arith, Leads-zero s ss term c)
    | inr q ↦
        let (j, r, l) = Leads-claimants term (suc i) k ss (ground arith) in
        (suc j, omega (arith, r), Leads-suc l)
  ]
]

-- Two claimants are two servers.
pub two_claimants :
    (term i : ℕ) (ss : List Look)
    → 2 ≤ length (claimants term i ss)
    → (j : ℕ) × (k : ℕ) × (j < k) × Leads ss j term × Leads ss k term
unfolding claimants
two_claimants term i [] h = absurd (omega arith)
two_claimants term i (s ∷ ss) h = elim (Bool-cases (claims term s)) [
  | inr c ↦
      let (j, k, l, a, b) = two_claimants term (suc i) ss (ground arith) in
      (suc j, suc k, omega (arith, l), Leads-suc a, Leads-suc b)
  | inl c ↦ elim (List-cases (claimants term (suc i) ss)) [
    | inl e ↦ absurd (ground arith)
    | inr (x, xs, e) ↦
        let (j, q, l) = Leads-claimants term (suc i) x ss (ground arith) in
        (0, suc j, omega arith, Leads-zero s ss term c, Leads-suc l)
  ]
]
