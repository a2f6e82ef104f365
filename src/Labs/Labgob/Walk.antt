-- ===== src/Labs/Labgob/Walk.antt =====
-- What the walk of `checkType` in 6.5840/src/labgob/labgob.go visits and counts.
use gopher.Prelude.{
  ℕ, zero, suc, ◌+◌, ◌<◌, ◌≡◌, refl, List, [], ◌∷◌, ◌++◌, Option, some, Bool, true, false, ◌||◌,
  ◌==◌, ltb, length, get_elem?-none, member, arith, Bool-cases, inl, inr, subst, sym, ap,
}
use gopher.Labs.Labgob.{Kind, Checks, parts, kind_of, complain, visit, check_type}
use gopher.Labs.Labgob.Types.{
  NoDup, parts_at, targets, lowers, all_lowers, Reaches, here, step, member-append, NoDup-append,
  all_lowers-append, left, left-le, left-lt,
}

-- What a visit of some types does: the types that it checks first, each once.
pub record Walked (types : List Kind) (roots : List ℕ) (counted : ℕ) (st st' : Checks)
    : Type 0 where
  pub news : List ℕ
  pub checked : (x : ℕ) → member x st'.checked ≡ (member x news || member x st.checked)
  pub fresh : (x : ℕ) → member x news ≡ true → member x st.checked ≡ false
  pub once : NoDup news
  pub errors : st'.error_count ≡ st.error_count + counted + all_lowers types news
  pub closed :
      (u v : ℕ)
      → member u news ≡ true
      → member v (targets (parts_at types u)) ≡ true
      → member v st'.checked ≡ true
  pub at_roots : (v : ℕ) → member v roots ≡ true → member v st'.checked ≡ true
  pub reached :
      (u : ℕ) → member u news ≡ true → (r : ℕ) × (member r roots ≡ true) × Reaches types r u

complain-Walked :
    (types : List Kind) (b : Bool) (t : ℕ) (st : Checks)
    → (complain b st).error_count ≡ st.error_count + lowers ((b, t) ∷ [])
complain-Walked types true t st = omega arith
complain-Walked types false t st = omega arith

complain-checked : (b : Bool) (st : Checks) → (complain b st).checked ≡ st.checked
complain-checked true st = refl
complain-checked false st = refl

lowers-cons :
    (b : Bool) (t : ℕ) (ps : List (Bool × ℕ))
    → lowers ((b, t) ∷ ps) ≡ lowers ((b, t) ∷ []) + lowers ps
lowers-cons true t ps = omega arith
lowers-cons false t ps = omega arith

Walked-visit :
    (types : List Kind) (b : Bool) (t : ℕ) (ps : List (Bool × ℕ)) (st st1 st2 : Checks)
    → Walked types (t ∷ []) 0 (complain b st) st1
    → Walked types (targets ps) (lowers ps) st1 st2
    → Walked types (targets ((b, t) ∷ ps)) (lowers ((b, t) ∷ ps)) st st2
Walked-visit types b t ps st st1 st2 p q =
    let same : (complain b st).checked ≡ st.checked = complain-checked b st in
    let was : (x : ℕ) → member x (complain b st).checked ≡ member x st.checked =
      (λ x. ap (member x) same) in
    record {
      news = p.news ++ q.news;
      checked = λ x. ground (arith, member-append x p.news q.news, p.checked x, q.checked x, was x);
      fresh = λ x m.
          ground (arith, member-append x p.news q.news, p.fresh x, q.fresh x, p.checked x, was x);
      once =
          NoDup-append p.news q.news p.once q.once (λ x m. ground (arith, q.fresh x, p.checked x));
      errors = ground (
        arith,
        p.errors,
        q.errors,
        complain-Walked types b t st,
        lowers-cons b t ps,
        all_lowers-append types p.news q.news,
      );
      closed = λ u v m n.
          ground (arith, member-append u p.news q.news, p.closed u v, q.closed u v, q.checked v);
      at_roots = λ v m. ground (arith, p.at_roots v, q.at_roots v, q.checked v);
      reached = λ u m. elim (Bool-cases (member u p.news)) [
        | inl k ↦ let (r, n, w) = p.reached u k in (r, ground arith, w)
        | inr k ↦
            let (r, n, w) = q.reached u (ground (arith, member-append u p.news q.news)) in
            (r, ground arith, w)
      ];
    }

Walked-none : (types : List Kind) (st : Checks) → Walked types [] 0 st st
Walked-none types st = record {
  news = [];
  checked = λ x. refl;
  fresh = λ x m. ground arith;
  once = tt;
  errors = omega arith;
  closed = λ u v m n. ground arith;
  at_roots = λ v m. ground arith;
  reached = λ u m. absurd (ground arith);
}

-- A type that was checked before.
Walked-known :
    (types : List Kind) (t : ℕ) (st : Checks)
    → member t st.checked ≡ true
    → Walked types (t ∷ []) 0 st st
Walked-known types t st k = record {
  news = [];
  checked = λ x. refl;
  fresh = λ x m. ground arith;
  once = tt;
  errors = omega arith;
  closed = λ u v m n. ground arith;
  at_roots = λ v m. elim (Bool-cases (t == v)) [
    | inl q ↦ subst (λ x. member x st.checked ≡ true) (let e : t ≡ v = ground arith in e) k
    | inr q ↦ absurd (ground arith)
  ];
  reached = λ u m. absurd (ground arith);
}

-- A type that is checked now, after its parts.
Walked-type :
    (types : List Kind) (t : ℕ) (st st' : Checks)
    → member t st.checked ≡ false
    → Walked types
        (targets (parts_at types t))
        (lowers (parts_at types t))
        (record st { checked = t ∷ st.checked })
        st'
    → Walked types (t ∷ []) 0 st st'
Walked-type types t st st' new w =
    let fresh_t : member t w.news ≡ false = elim (Bool-cases (member t w.news)) [
      | inl m ↦ absurd (ground (arith, w.fresh t m))
      | inr m ↦ m
    ] in
    record {
      news = t ∷ w.news;
      checked = λ x. ground (arith, w.checked x);
      fresh = λ x m. elim (Bool-cases (t == x)) [
        | inl q ↦ subst (λ y. member y st.checked ≡ false) (let e : t ≡ x = ground arith in e) new
        | inr q ↦ ground (arith, w.fresh x)
      ];
      once = (fresh_t, w.once);
      errors = omega (arith, w.errors);
      closed = λ u v m n. elim (Bool-cases (t == u)) [
        | inr q ↦ w.closed u v (ground arith) n
        | inl q ↦ w.at_roots v (
            subst (λ y. member v (targets (parts_at types y)) ≡ true)
              (let e : u ≡ t = ground arith in e) n)
      ];
      at_roots = λ v m. ground (arith, w.checked v);
      reached = λ u m. elim (Bool-cases (t == u)) [
        | inl q ↦
            (t, ground arith, subst (Reaches types t) (let e : t ≡ u = ground arith in e) (here t))
        | inr q ↦ let (r, n, z) = w.reached u (ground arith) in (t, ground arith, step t r u n z)
      ];
    }

visit-Walked :
    (types : List Kind) (check : ℕ → Checks → Option Checks) (bound : ℕ)
    → ((t : ℕ) (st : Checks)
        → left (length types) st.checked < bound
        → (st' : Checks) × (check t st ≡ some st') × Walked types (t ∷ []) 0 st st')
    → (ps : List (Bool × ℕ)) (st : Checks) → left (length types) st.checked < bound
    → (st' : Checks) × (visit check ps st ≡ some st') × Walked types (targets ps) (lowers ps) st st'
unfolding visit
visit-Walked types check bound ih [] st h = (st, refl, Walked-none types st)
visit-Walked types check bound ih ((b, t) ∷ ps) st h =
    let same = complain-checked b st in
    let h1 : left (length types) (complain b st).checked < bound =
      subst (λ c. left (length types) c < bound) (sym same) h in
    let (st1, e1, w1) = ih t (complain b st) h1 in
    let grown =
      left-le (length types) (complain b st).checked st1.checked
        (λ x m. ground (arith, w1.checked x)) in
    let (st2, e2, w2) = visit-Walked types check bound ih ps st1 (omega (arith, grown, h1)) in
    (st2, ground arith, Walked-visit types b t ps st st1 st2 w1 w2)

visit_nothing :
    (types : List Kind) (check : ℕ → Checks → Option Checks) (ps : List (Bool × ℕ)) (st : Checks)
    → ps ≡ []
    → (st' : Checks) × (visit check ps st ≡ some st') × Walked types (targets ps) (lowers ps) st st'
unfolding visit
visit_nothing types check [] st q = (st, refl, Walked-none types st)
visit_nothing types check (p ∷ ps) st q = absurd (ground arith)

pub check_type-Walked :
    (types : List Kind) (fuel t : ℕ) (st : Checks)
    → left (length types) st.checked < fuel
    → (st' : Checks) × (check_type types fuel t st ≡ some st') × Walked types (t ∷ []) 0 st st'
unfolding check_type
check_type-Walked types zero t st h = absurd (omega arith)
check_type-Walked types (suc fuel) t st h = elim (Bool-cases (member t st.checked)) [
  | inl k ↦ (st, ground arith, Walked-known types t st k)
  | inr k ↦
      let st1 : Checks = record st { checked = t ∷ st.checked } in
      elim (Bool-cases (ltb t (length types))) [
        | inl l ↦
            let less = left-lt (length types) t st.checked (ground arith) k in
            let (st', e, w) =
              visit-Walked types (check_type types fuel) fuel (check_type-Walked types fuel)
                (parts_at types t) st1 (omega (arith, less, h)) in
            (st', ground arith, Walked-type types t st st' k w)
        | inr l ↦
            let nothing : parts_at types t ≡ [] =
              ap (λ o. parts (kind_of o)) (get_elem?-none types t (ground arith)) in
            let (st', e, w) =
              visit_nothing types (check_type types fuel) (parts_at types t) st1 nothing in
            (st', ground arith, Walked-type types t st st' k w)
      ]
]

pub Reaches-closed :
    (types : List Kind) (news : List ℕ) (t u : ℕ)
    → ((v w : ℕ)
        → member v news ≡ true
        → member w (targets (parts_at types v)) ≡ true
        → member w news ≡ true)
    → Reaches types t u
    → member t news ≡ true
    → member u news ≡ true
Reaches-closed types news t _ closed (here _) m = m
Reaches-closed types news t u closed (step _ v _ n r) m =
    Reaches-closed types news v u closed r (closed t v m n)
