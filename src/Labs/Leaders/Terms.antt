-- ===== src/Labs/Leaders/Terms.antt =====
-- The map from terms to leaders that `checkOneLeader` of 6.5840/src/raft/config.go makes, and the
-- loop over it.
use gopher.Prelude.{
  ℕ, suc, ◌≤◌, ◌≡◌, ◌≢◌, refl, List, [], ◌∷◌, ◌++◌, Option, none, some, Bool, true, false, ◌&&◌,
  ◌==◌, ltb, leb, if◌then◌else◌, length, get_elem?, arith, ◌⊎◌, inl, inr, Bool-cases, sym, ap,
  subst,
}
use gopher.Prelude.Dict.{Dict, lookup, insert, lookup-insert, Distinct, Distinct-insert}
use gopher.Prelude.Classes.{nat_key}
use gopher.Labs.Labrpc.{done}
use gopher.Labs.Leaders.{Look, or_empty, higher, leaders_from, last_term}

-- Server `i` is connected and claims to lead in the term.
pub record Leads (ss : List Look) (i term : ℕ) : Type 0 where
  pub look : Look
  pub seen : get_elem? ss i ≡ some look
  pub connected : look.connected ≡ true
  pub leader : look.leader ≡ true
  pub in_term : look.term ≡ term

abbrev pub claims : ℕ → Look → Bool
claims term s = (s.connected && s.leader) && s.term == term

-- The claimants in a term, in their order.
unfoldable pub claimants : ℕ → ℕ → List Look → List ℕ
claimants term i [] = []
claimants term i (s ∷ ss) =
    if claims term s then i ∷ claimants term (suc i) ss else claimants term (suc i) ss

append_assoc : (xs ys zs : List ℕ) → (xs ++ ys) ++ zs ≡ xs ++ (ys ++ zs)
append_assoc [] ys zs = refl
append_assoc (x ∷ xs) ys zs = ap (◌∷◌ x) (append_assoc xs ys zs)

pub lookup-leaders_from :
    (term i : ℕ) (ss : List Look) (d : Dict ℕ (List ℕ))
    → lookup term (leaders_from i ss d) ≡ (elim (claimants term i ss) [
      | [] ↦ lookup term d
      | j ∷ js ↦ some (or_empty (lookup term d) ++ (j ∷ js))
    ])
unfolding leaders_from claimants
lookup-leaders_from term i [] d = refl
lookup-leaders_from term i (s ∷ ss) d = elim (Bool-cases (s.connected && s.leader)) [
  | inr c ↦ ground (arith, lookup-leaders_from term (suc i) ss d)
  | inl c ↦
      let old = or_empty (lookup s.term d) in
      let here : s.term ≡ term → lookup s.term d ≡ lookup term d = (λ q. ap (λ t. lookup t d) q) in
      ground (
        arith,
        here,
        lookup-leaders_from term (suc i) ss (insert s.term (old ++ (i ∷ [])) d),
        lookup-insert s.term term (old ++ (i ∷ [])) d,
        append_assoc old (i ∷ []) (claimants term (suc i) ss),
      )
]

pub Distinct-leaders_from :
    (i : ℕ) (ss : List Look) (d : Dict ℕ (List ℕ)) → Distinct d → Distinct (leaders_from i ss d)
unfolding leaders_from
Distinct-leaders_from i [] d h = h
Distinct-leaders_from i (s ∷ ss) d h = elim (Bool-cases (s.connected && s.leader)) [
  | inr c ↦
      subst
        (λ b. Distinct (
          leaders_from (suc i) ss
            (if b then insert s.term (or_empty (lookup s.term d) ++ (i ∷ [])) d else d)))
        (sym c) (Distinct-leaders_from (suc i) ss d h)
  | inl c ↦
      subst
        (λ b. Distinct (
          leaders_from (suc i) ss
            (if b then insert s.term (or_empty (lookup s.term d) ++ (i ∷ [])) d else d)))
        (sym c)
        (Distinct-leaders_from (suc i) ss (insert s.term (or_empty (lookup s.term d) ++ (i ∷ [])) d)
          (Distinct-insert s.term (or_empty (lookup s.term d) ++ (i ∷ [])) d h))
]

abbrev pub at_most : ℕ → Option ℕ → Bool
at_most t none = false
at_most t (some u) = leb t u

last_term-at_most :
    (t : ℕ) (last r : Option ℕ) (d : Dict ℕ (List ℕ))
    → at_most t last ≡ true
    → last_term last d ≡ done r
    → at_most t r ≡ true
unfolding last_term
last_term-at_most t none r d h e = absurd (ground arith)
last_term-at_most t (some u) r [] h e = ground arith
last_term-at_most t (some u) r ((term, is) ∷ d) h e =
    last_term-at_most t (higher (some u) term) r d (ground arith) (ground arith)

at_most-higher : (t : ℕ) (last : Option ℕ) → at_most t (higher last t) ≡ true
at_most-higher t none = ground arith
at_most-higher t (some u) = ground arith

pub last_term-lookup :
    (t : ℕ) (is : List ℕ) (last r : Option ℕ) (d : Dict ℕ (List ℕ))
    → lookup t d ≡ some is
    → last_term last d ≡ done r
    → (length is ≤ 1) × (at_most t r ≡ true)
unfolding last_term lookup
last_term-lookup t is last r [] h e = absurd (ground arith)
last_term-lookup t is last r ((term, js) ∷ d) h e = elim (Bool-cases (ltb 1 (length js))) [
  | inl l ↦ absurd (ground arith)
  | inr l ↦ elim (Bool-cases (term == t)) [
    | inl q ↦
        let same : term ≡ t = ground arith in
        (
          ground arith,
          last_term-at_most t (higher last term) r d
              (subst (λ u. at_most t (higher last u) ≡ true) (sym same) (at_most-higher t last))
              (ground arith),
        )
    | inr q ↦ last_term-lookup t is (higher last term) r d (ground arith) (ground arith)
  ]
]

higher-ne : (last : Option ℕ) (term u : ℕ) → term ≢ u → higher last term ≡ some u → last ≡ some u
higher-ne none term u h e = absurd (ground arith)
higher-ne (some t) term u h e = ground arith

-- The term that is kept is one of those in the map.
pub last_term-some :
    (last : Option ℕ) (u : ℕ) (d : Dict ℕ (List ℕ))
    → last_term last d ≡ done (some u)
    → (last ≡ some u) ⊎ ((is : List ℕ) × (lookup u d ≡ some is))
unfolding last_term lookup
last_term-some last u [] e = inl (ground arith)
last_term-some last u ((term, js) ∷ d) e = elim (Bool-cases (ltb 1 (length js))) [
  | inl l ↦ absurd (ground arith)
  | inr l ↦ elim (Bool-cases (term == u)) [
    | inl q ↦ inr (js, ground arith)
    | inr q ↦ elim (last_term-some (higher last term) u d (ground arith)) [
      | inl n ↦ inl (higher-ne last term u (ground arith) n)
      | inr (is, g) ↦ inr (is, ground arith)
    ]
  ]
]

pub last_term-total :
    (last : Option ℕ) (d : Dict ℕ (List ℕ))
    → Distinct d
    → ((t : ℕ) (is : List ℕ) → lookup t d ≡ some is → length is ≤ 1)
    → (r : Option ℕ) × (last_term last d ≡ done r)
unfolding last_term lookup
last_term-total last [] h one = (last, refl)
last_term-total last ((term, js) ∷ d) h one =
    let (r, e) =
      last_term-total (higher last term) d h.1 (λ t is g. one t is (ground (arith, h.0))) in
    (r, ground (arith, one term js))
