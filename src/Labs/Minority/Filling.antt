-- ===== src/Labs/Minority/Filling.antt =====
-- What make_partition of 6.5840/src/kvraft/config.go makes of an odd number of servers.
use gopher.Prelude.{
  ℕ, zero, suc, ◌+◌, ◌-◌, ◌<◌, ◌≡◌, refl, List, some, ◌==◌, ltb, if◌then◌else◌, length, get_elem?,
  get_elem?-lt, get_elem?-set, length-set, set, arith, Bool-cases, inl, inr, subst,
}
use gopher.Labs.Harness.{all_from}
use gopher.Labs.Minority.{place_servers}

-- The place of a server among those that do not lead, and the server at a place.
abbrev pub rank : ℕ → ℕ → ℕ
rank l i = if ltb l i then i - 1 else i

abbrev pub server_at : ℕ → ℕ → ℕ
server_at l k = if ltb k l then k else k + 1

module _ (l m : ℕ) where
  pub record IsFilled (i : ℕ) (p1 p2 : List ℕ) : Type 0 where
    pub len1 : length p1 ≡ m + 1
    pub len2 : length p2 ≡ m
    pub left : (k : ℕ) → k < rank l i → k < m + 1 → get_elem? p1 k ≡ some (server_at l k)
    pub right : (k : ℕ) → k + (m + 1) < rank l i → get_elem? p2 k ≡ some (server_at l (k + (m + 1)))

  pub place_servers-IsFilled :
      (c i j : ℕ) (p1 p2 : List ℕ)
      → i + c ≡ m + m + 1
      → l < m + m + 1
      → j ≡ rank l i
      → IsFilled i p1 p2
      → (q1 : List ℕ) × (q2 : List ℕ) × (place_servers l (all_from i c) j p1 p2 ≡ some (q1, q2))
        × IsFilled (m + m + 1) q1 q2
  unfolding place_servers all_from
  place_servers-IsFilled zero i j p1 p2 hc hl hj f =
      (p1, p2, refl, subst (λ k. IsFilled k p1 p2) (let q : i ≡ m + m + 1 = omega arith in q) f)
  place_servers-IsFilled (suc c) i j p1 p2 hc hl hj f = elim (Bool-cases (i == l)) [
    | inl e ↦
        let (q1, q2, r, g) =
          place_servers-IsFilled c (suc i) j p1 p2 (omega arith) hl (ground arith) record {
            len1 = f.len1;
            len2 = f.len2;
            left = λ k a b. f.left k (ground arith) b;
            right = λ k a. f.right k (ground arith);
          } in
        (q1, q2, ground arith, g)
    | inr e ↦ elim (Bool-cases (ltb j (length p1))) [
      | inl s ↦
          let (q1, q2, r, g) =
            place_servers-IsFilled c (suc i) (j + 1) (set p1 j i) p2 (omega arith) hl (ground arith)
              record {
                len1 = omega (arith, length-set p1 j i, f.len1);
                len2 = f.len2;
                left = λ k a b.
                    let (old, at) = get_elem?-lt p1 k (omega (arith, f.len1)) in
                    ground (arith, get_elem?-set p1 j k i, f.left k);
                right = λ k a. absurd (ground (arith, f.len1));
              } in
          (q1, q2, ground arith, g)
      | inr s ↦
          let room : j - length p1 < length p2 = ground (arith, f.len1, f.len2) in
          let (old, at) = get_elem?-lt p2 (j - length p1) room in
          let (q1, q2, r, g) =
            place_servers-IsFilled c (suc i) (j + 1) p1 (set p2 (j - length p1) i) (omega arith) hl
              (ground arith)
              record {
                len1 = f.len1;
                len2 = omega (arith, length-set p2 (j - length p1) i, f.len2);
                left = λ k a b. f.left k (ground (arith, f.len1)) b;
                right = λ k a.
                    let (o, at_k) = get_elem?-lt p2 k (ground (arith, f.len1, f.len2)) in
                    ground (arith, get_elem?-set p2 (j - length p1) k i, f.right k, f.len1);
              } in
          (q1, q2, ground arith, g)
    ]
  ]
