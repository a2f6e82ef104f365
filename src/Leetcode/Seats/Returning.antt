-- ===== src/Leetcode/Seats/Returning.antt =====
-- What giving back a seat does.
use gopher.Prelude.{
  ℕ, ◌<◌, ◌≡◌, ◌≢◌, sym, ◌∙◌, some, ◌==◌, arith, length, get_elem?, set, length-set, ◌⊎◌, inl, inr,
  Bool-cases, ltb, subst,
}
use gopher.Prelude.Integers.{pos}
use gopher.Leetcode.Seats.{SeatManager, unreserve, IsReserved, IsFree, Inv}
use gopher.Leetcode.Seats.Writes.{get_elem?-bound, get_elem?-write}

-- Giving back a seat that there is frees it, changes no other seat, and keeps the invariant.
pub unreserve-Inv :
    (s : SeatManager) (least : ℕ) (inv : Inv s least) (seat : ℕ)
    → 0 < seat
    → seat < s.n
    → (t : SeatManager) × (unreserve s seat ≡ some t)
      × IsFree t seat
      × ((j : ℕ) → 0 < j → j ≢ seat → get_elem? t.ok j ≡ get_elem? s.ok j)
      × (next : ℕ) × Inv t next
unfolding unreserve
unreserve-Inv s least inv seat low room =
    let t = record s { ok = set s.ok seat (pos 0) } in
    let inside : seat < length s.ok = ground (arith, inv.size) in
    let at : get_elem? t.ok seat ≡ some (pos 0) = (get_elem?-write s seat seat (pos 0) inside).1 in
    let off : (j : ℕ) → seat ≢ j → get_elem? t.ok j ≡ get_elem? s.ok j =
      λ j n. (get_elem?-write s seat j (pos 0) inside).0 n in
    let first : get_elem? t.ok 0 ≡ some (pos least) = off 0 (omega arith) ∙ inv.first in
    let size : length t.ok ≡ s.n = length-set s.ok seat (pos 0) ∙ inv.size in
    let there = get_elem?-bound s.ok seat inside in
    let cells : (j : ℕ) → 0 < j → j < s.n → IsReserved t j ⊎ IsFree t j = λ j p q.
      elim (Bool-cases (seat == j)) [
        | inl e ↦ let same : seat ≡ j = ground arith in inr (subst (IsFree t) same at)
        | inr e ↦
            let n : seat ≢ j = ground arith in
            elim (inv.cells j p q) [ inl r ↦ inl (off j n ∙ r) | inr f ↦ inr (off j n ∙ f) ]
      ] in
    elim (Bool-cases (ltb seat least)) [
      | inr e ↦ (
        t,
        ground (arith, there, first),
        at,
        λ j p n. off j (λ z. n (sym z)),
        least,
        record {
          first = first;
          low = inv.low;
          high = inv.high;
          size = size;
          cells = cells;
          below = λ j p q. off j (ground arith) ∙ inv.below j p q;
          here = λ z. elim (Bool-cases (seat == least)) [
            | inl b ↦ let same : seat ≡ least = ground arith in subst (IsFree t) same at
            | inr b ↦ off least (ground arith) ∙ inv.here z
          ];
        },
      )
      | inl e ↦
          let u = record t { ok = set t.ok 0 (pos seat) } in
          let inside0 : 0 < length t.ok = omega (arith, size) in
          let rest : (j : ℕ) → 0 < j → get_elem? u.ok j ≡ get_elem? t.ok j =
            λ j p. (get_elem?-write t 0 j (pos seat) inside0).0 (omega arith) in
          (
            u,
            ground (arith, there, first),
            rest seat low ∙ at,
            λ j p n. rest j p ∙ off j (λ z. n (sym z)),
            seat,
            record {
              first = (get_elem?-write t 0 0 (pos seat) inside0).1;
              low = low;
              high = omega arith;
              size = length-set t.ok 0 (pos seat) ∙ size;
              cells = λ j p q. elim (cells j p q) [
                | inl r ↦ inl (rest j p ∙ r)
                | inr f ↦ inr (rest j p ∙ f)
              ];
              below = λ j p q. rest j p ∙ off j (omega arith) ∙ inv.below j p (ground arith);
              here = λ z. rest seat low ∙ at;
            },
          )
    ]
