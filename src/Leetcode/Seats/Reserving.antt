-- ===== src/Leetcode/Seats/Reserving.antt =====
-- What a reservation does.
use gopher.Prelude.{
  ℕ, zero, suc, ◌+◌, ◌≤◌, ◌<◌, ◌≡◌, ◌≢◌, refl, sym, ◌∙◌, some, ◌==◌, arith, length, get_elem?, set,
  length-set, ◌⊎◌, inl, inr, Bool-cases, ltb, subst,
}
use gopher.Prelude.Integers.{pos, negsuc}
use gopher.Leetcode.Seats.{SeatManager, next_free, reserve, IsReserved, IsFree, Inv}
use gopher.Leetcode.Seats.Writes.{get_elem?-write}

next_free-finds :
    (fuel : ℕ) (s : SeatManager) (i : ℕ)
    → i < s.n
    → s.n ≤ fuel + i
    → 0 < i
    → ((j : ℕ) → 0 < j → j < s.n → IsReserved s j ⊎ IsFree s j)
    → (k : ℕ) × (next_free fuel s i ≡ some k)
      × (i ≤ k)
      × (k ≤ s.n)
      × ((j : ℕ) → i ≤ j → j < k → IsReserved s j)
      × (k < s.n → IsFree s k)
unfolding next_free
next_free-finds zero s i h f l c = absurd (omega arith)
next_free-finds (suc fuel) s i h f l c = elim (c i l h) [
  | inr free ↦ (i, ground arith, omega arith, omega arith, λ j a b. absurd (omega arith), λ z. free)
  | inl taken ↦ elim (Bool-cases (i + 1 == s.n)) [
    | inl e ↦ (
      s.n,
      ground arith,
      omega arith,
      omega arith,
      λ j a b. let same : i ≡ j = ground arith in subst (IsReserved s) same taken,
      λ z. absurd (omega arith),
    )
    | inr e ↦
        let (k, r, a, b, below, free) =
          next_free-finds fuel s (i + 1) (ground arith) (omega arith) (omega arith) c in
        (
          k,
          ground arith,
          omega arith,
          b,
          λ j p q. elim (Bool-cases (i == j)) [
            | inl z ↦ let same : i ≡ j = ground arith in subst (IsReserved s) same taken
            | inr z ↦ below j (ground arith) q
          ],
          free,
        )
  ]
]

marked_cells :
    (s : SeatManager) (least : ℕ) (inv : Inv s least)
    → least < s.n
    → let marked = record s { ok = set s.ok least (negsuc 0) } in
      (j : ℕ) → 0 < j → j < s.n → IsReserved marked j ⊎ IsFree marked j
marked_cells s least inv room j p q =
    let inside : least < length s.ok = ground (arith, inv.size) in
    elim (Bool-cases (least == j)) [
      | inl e ↦
          let same : least ≡ j = ground arith in
          inl (
            subst (λ i. get_elem? (set s.ok least (negsuc 0)) i ≡ some (negsuc 0)) same
              (get_elem?-write s least j (negsuc 0) inside).1)
      | inr e ↦
          let n : least ≢ j = ground arith in
          let off = (get_elem?-write s least j (negsuc 0) inside).0 n in
          elim (inv.cells j p q) [ inl r ↦ inl (off ∙ r) | inr f ↦ inr (off ∙ f) ]
    ]

-- With the invariant, a reservation while a seat is free gives out the free seat with the smallest
-- number, marks it, changes no other seat, and keeps the invariant.
pub reserve-Inv :
    (s : SeatManager) (least : ℕ) (inv : Inv s least)
    → least < s.n
    → (t : SeatManager) × (reserve s ≡ some (t, least))
      × IsFree s least
      × ((j : ℕ) → 0 < j → j < s.n → IsFree s j → least ≤ j)
      × IsReserved t least
      × ((j : ℕ) → 0 < j → j ≢ least → get_elem? t.ok j ≡ get_elem? s.ok j)
      × (t.n ≡ s.n)
      × (next : ℕ) × Inv t next
unfolding reserve
reserve-Inv s least inv room =
    let m : ℕ = least in
    let marked = record s { ok = set s.ok m (negsuc 0) } in
    let inside : m < length s.ok = ground (arith, inv.size) in
    let at : get_elem? marked.ok m ≡ some (negsuc 0) =
      (get_elem?-write s m m (negsuc 0) inside).1 in
    let off : (j : ℕ) → m ≢ j → get_elem? marked.ok j ≡ get_elem? s.ok j =
      λ j n. (get_elem?-write s m j (negsuc 0) inside).0 n in
    let (k, found, l, h, below, free) =
      next_free-finds s.n marked m room (omega arith) inv.low (marked_cells s least inv room) in
    let t = record marked { ok = set marked.ok 0 (pos k) } in
    let inside0 : 0 < length marked.ok = ground (arith, length-set s.ok m (negsuc 0)) in
    let first : get_elem? t.ok 0 ≡ some (pos k) = (get_elem?-write marked 0 0 (pos k) inside0).1 in
    let rest : (j : ℕ) → 0 < j → get_elem? t.ok j ≡ get_elem? marked.ok j =
      λ j p. (get_elem?-write marked 0 j (pos k) inside0).0 (omega arith) in
    (
      t,
      ground (arith, inv.first, found, inv.here room),
      inv.here room,
      λ j p q f. elim (Bool-cases (ltb j m)) [
        | inl e ↦ absurd (ground (arith, inv.below j p (ground arith)))
        | inr e ↦ ground arith
      ],
      rest m inv.low ∙ at,
      λ j p n. rest j p ∙ off j (λ e. n (sym e)),
      refl,
      k,
      record {
        first = first;
        low = omega (arith, inv.low);
        high = h;
        size = length-set marked.ok 0 (pos k) ∙ length-set s.ok m (negsuc 0) ∙ inv.size;
        cells = λ j p q. elim (marked_cells s least inv room j p q) [
          | inl r ↦ inl (rest j p ∙ r)
          | inr f ↦ inr (rest j p ∙ f)
        ];
        below = λ j p q. elim (Bool-cases (ltb j m)) [
          | inl e ↦ rest j p ∙ off j (ground arith) ∙ inv.below j p (ground arith)
          | inr e ↦ rest j p ∙ below j (ground arith) q
        ];
        here = λ z. rest k (omega (arith, inv.low)) ∙ free z;
      },
    )
