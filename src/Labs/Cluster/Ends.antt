-- ===== src/Labs/Cluster/Ends.antt =====
-- The ends that `StartServer` and `makeClient` of 6.5840/src/kvraft/config.go make, and where the
-- names stand that a test drew.
use gopher.Prelude.{
  ℕ, zero, suc, ◌+◌, ◌≡◌, refl, List, [], ◌∷◌, Option, none, some, true, false, ◌==◌, map, length,
  get_elem?-lt, All, if◌then◌else◌, get_elem?, member, arith, Option-cases, inl, inr, subst, sym,
}
use gopher.Prelude.Dict.{lookup, insert, lookup-insert}
use gopher.Prelude.Classes.{nat_key}
use gopher.Labs.Labrpc.{done, Network, make_end, connect}
use gopher.Labs.Harness.{endname_at}
use gopher.Labs.Harness.Links.{IsWired, row_of}
use gopher.Labs.Cluster.{make_ends}

abbrev pub NoDup : List ℕ → Type 0
NoDup [] = Unit
NoDup (x ∷ xs) = (member x xs ≡ false) × NoDup xs

-- The index of a name, counted from `j`.
unfoldable pub index_from : ℕ → ℕ → List ℕ → Option ℕ
index_from j e [] = none
index_from j e (x ∷ xs) = if x == e then some j else index_from (suc j) e xs

-- The row and the index of a name, the rows counted from `i`.
unfoldable pub place : ℕ → ℕ → List (List ℕ) → Option (ℕ × ℕ)
place i e [] = none
place i e (row ∷ rows) = elim (index_from 0 e row) [
  | some j ↦ some (i, j)
  | none ↦ place (suc i) e rows
]

-- All the names of the rows are different.
abbrev pub Separate : List (List ℕ) → Type 0
Separate [] = Unit
Separate (row ∷ rows) =
    NoDup row × ((i e : ℕ) → member e row ≡ true → place i e rows ≡ none) × Separate rows

pub index_from-none : (j e : ℕ) (xs : List ℕ) → member e xs ≡ false → index_from j e xs ≡ none
unfolding index_from
index_from-none j e [] m = refl
index_from-none j e (x ∷ xs) m = ground (arith, index_from-none (suc j) e xs)

index_from-absent : (j e : ℕ) (xs : List ℕ) → index_from j e xs ≡ none → member e xs ≡ false
unfolding index_from
index_from-absent j e [] h = refl
index_from-absent j e (x ∷ xs) h = ground (arith, index_from-absent (suc j) e xs)

pub index_from-some : (j e k : ℕ) (xs : List ℕ) → index_from j e xs ≡ some k → member e xs ≡ true
unfolding index_from
index_from-some j e k [] h = absurd (ground arith)
index_from-some j e k (x ∷ xs) h = ground (arith, index_from-some (suc j) e k xs)

pub index_from-member :
    (j e : ℕ) (xs : List ℕ) → member e xs ≡ true → (k : ℕ) × (index_from j e xs ≡ some k)
index_from-member j e xs m = elim (Option-cases (index_from j e xs)) [
  | inr (k, h) ↦ (k, h)
  | inl h ↦ absurd (ground (arith, index_from-absent j e xs h))
]

pub member-get_elem? : (xs : List ℕ) (k e : ℕ) → get_elem? xs k ≡ some e → member e xs ≡ true
member-get_elem? [] k e g = absurd (ground arith)
member-get_elem? (x ∷ xs) zero e g = ground arith
member-get_elem? (x ∷ xs) (suc k) e g = ground (arith, member-get_elem? xs k e g)

index_from-get_elem? :
    (j e k : ℕ) (xs : List ℕ)
    → NoDup xs
    → get_elem? xs k ≡ some e
    → index_from j e xs ≡ some (j + k)
unfolding index_from
index_from-get_elem? j e k [] d g = absurd (ground arith)
index_from-get_elem? j e zero (x ∷ xs) d g = ground arith
index_from-get_elem? j e (suc k) (x ∷ xs) d g =
    ground (arith, d.0, member-get_elem? xs k e g, index_from-get_elem? (suc j) e k xs d.1 g)

-- Separate names are found where they stand.
pub place-get_elem? :
    (i e a j : ℕ) (rows : List (List ℕ)) (row : List ℕ)
    → Separate rows
    → get_elem? rows a ≡ some row
    → get_elem? row j ≡ some e
    → place i e rows ≡ some (i + a, j)
unfolding place
place-get_elem? i e a j [] row d g h = absurd (ground arith)
place-get_elem? i e zero j (r ∷ rows) row d g h =
    let q : r ≡ row = ground arith in
    let h' : get_elem? r j ≡ some e = subst (λ x. get_elem? x j ≡ some e) (sym q) h in
    ground (arith, index_from-get_elem? 0 e j r d.0 h')
place-get_elem? i e (suc a) j (r ∷ rows) row d g h =
    let rest = place-get_elem? (suc i) e a j rows row d.2 g h in
    elim (Option-cases (index_from 0 e r)) [
      | inl n ↦ ground arith
      | inr (k, n) ↦ absurd (ground (arith, d.1 (suc i) e (index_from-some 0 e k r n)))
    ]

pub get_elem?-rows :
    (rows : List (List ℕ)) (a : ℕ)
    → get_elem? (map some rows) a
      ≡ (elim (get_elem? rows a) [ none ↦ none | some row ↦ some (some row) ])
get_elem?-rows [] a = refl
get_elem?-rows (r ∷ rows) zero = refl
get_elem?-rows (r ∷ rows) (suc a) = get_elem?-rows rows a

pub All-get_elem? {ℓ κ} :
    {A : Type ℓ} (P : A → Type κ) (xs : List A) (j : ℕ) (a : A)
    → All P xs
    → get_elem? xs j ≡ some a
    → P a
All-get_elem? P [] j a h g = absurd (ground arith)
All-get_elem? P (x ∷ xs) zero a h g = subst P (let q : x ≡ a = ground arith in q) h.0
All-get_elem? P (x ∷ xs) (suc j) a h g = All-get_elem? P xs j a h.1 g

-- Rows of different names, one name for each server in each, wire the servers.
pub IsWired-rows :
    (rows : List (List ℕ))
    → Separate rows
    → All (λ r. length r ≡ length rows) rows
    → IsWired (map some rows) (length rows)
unfolding endname_at
IsWired-rows rows d square = record {
  named = λ a b ha hb.
      let (row, g) = get_elem?-lt rows a ha in
      let long : length row ≡ length rows =
        All-get_elem? (λ r. length r ≡ length rows) rows a row square g in
      let (e, h) = get_elem?-lt row b (omega (arith, long)) in
      (e, ground (arith, get_elem?-rows rows a));
  apart = λ a b k l e h h'.
      let (row, g, at) = row_of (map some rows) a b e h in
      let (row', g', at') = row_of (map some rows) k l e h' in
      let p = place-get_elem? 0 e a b rows row d (ground (arith, get_elem?-rows rows a)) at in
      let p' = place-get_elem? 0 e k l rows row' d (ground (arith, get_elem?-rows rows k)) at' in
      (ground arith, ground arith);
}

module _ {W : Type 0} where
  -- What making the ends of the given names, for the servers from `j` on, leaves.
  pub record EndsMade (j : ℕ) (names : List ℕ) (rn rn' : Network W) : Type 0 where
    pub rest :
        rn' ≡ record rn { ends = rn'.ends; enabled = rn'.enabled; connections = rn'.connections }
    pub made :
        (e : ℕ)
        → lookup e rn'.ends
          ≡ (elim (index_from j e names) [ none ↦ lookup e rn.ends | some _ ↦ some tt ])
    pub off :
        (e : ℕ)
        → lookup e rn'.enabled
          ≡ (elim (index_from j e names) [ none ↦ lookup e rn.enabled | some _ ↦ some false ])
    pub connected :
        (e : ℕ)
        → lookup e rn'.connections ≡ (elim (index_from j e names) [
          | none ↦ lookup e rn.connections
          | some k ↦ some (some k)
        ])

  -- Different names that were not used before make new ends, all of them off, each connected to the
  -- server at its place, and nothing else changes.
  pub make_ends-EndsMade :
      (j : ℕ) (names : List ℕ) (rn : Network W)
      → NoDup names
      → ((e : ℕ) → member e names ≡ true → lookup e rn.ends ≡ none)
      → (rn' : Network W) × (make_ends j names rn ≡ done rn') × EndsMade j names rn rn'
  unfolding make_ends make_end connect index_from
  make_ends-EndsMade j [] rn d fresh =
      (rn, refl, record { rest = refl; made = λ e. refl; off = λ e. refl; connected = λ e. refl })
  make_ends-EndsMade j (x ∷ names) rn d fresh =
      let rn1 : Network W = record rn {
        ends = insert x tt rn.ends;
        enabled = insert x false rn.enabled;
        connections = insert x (some j) (insert x none rn.connections);
      } in
      let first : lookup x rn.ends ≡ none = fresh x (ground arith) in
      let (rn', r, m) =
        make_ends-EndsMade (suc j) names rn1 d.1
          (λ e n. ground (arith, d.0, fresh e, lookup-insert x e tt rn.ends)) in
      (
        rn',
        ground arith,
        record {
          rest = m.rest;
          made = λ e.
              ground (
                arith,
                m.made e,
                d.0,
                index_from-none (suc j) e names,
                lookup-insert x e tt rn.ends,
              );
          off = λ e. ground (
            arith,
            m.off e,
            d.0,
            index_from-none (suc j) e names,
            lookup-insert x e false rn.enabled,
          );
          connected = λ e. ground (
            arith,
            m.connected e,
            d.0,
            index_from-none (suc j) e names,
            lookup-insert x e (some j) (insert x none rn.connections),
            lookup-insert x e none rn.connections,
          );
        },
      )
