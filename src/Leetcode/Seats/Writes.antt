-- ===== src/Leetcode/Seats/Writes.antt =====
-- What a write changes in the seats, and the seats at first.
use gopher.Prelude.{
  ℕ, zero, suc, ◌+◌, ◌<◌, ◌≡◌, ◌≢◌, refl, ◌∙◌, List, [], ◌∷◌, some, arith, length, get_elem?, set,
  replicate, length-set, length-replicate, get_elem?-set, inr,
}
use gopher.Prelude.Integers.{ℤ, pos}
use gopher.Leetcode.Seats.{SeatManager, constructor, IsFree, Inv}

pub get_elem?-bound : (xs : List ℤ) (k : ℕ) → k < length xs → (v : ℤ) × (get_elem? xs k ≡ some v)
get_elem?-bound [] k h = absurd (omega arith)
get_elem?-bound (x ∷ xs) zero h = (x, refl)
get_elem?-bound (x ∷ xs) (suc k) h = get_elem?-bound xs k (omega arith)

-- A write to one seat.
pub get_elem?-write :
    (s : SeatManager) (k j : ℕ) (v : ℤ)
    → k < length s.ok
    → (k ≢ j → get_elem? (set s.ok k v) j ≡ get_elem? s.ok j)
      × (get_elem? (set s.ok k v) k ≡ some v)
get_elem?-write s k j v h = (
  λ n. ground (arith, get_elem?-set s.ok k j v),
  ground (arith, get_elem?-set s.ok k k v, get_elem?-bound s.ok k h),
)

get_elem?-replicate : (n j : ℕ) (v : ℤ) → j < n → get_elem? (replicate n v) j ≡ some v
get_elem?-replicate zero j v h = absurd (omega arith)
get_elem?-replicate (suc n) zero v h = refl
get_elem?-replicate (suc n) (suc j) v h = get_elem?-replicate n j v (omega arith)

-- At first all seats are free and the first is the one to give out.
pub constructor-Inv : (n : ℕ) → Inv (constructor n) 1
unfolding constructor
constructor-Inv n =
    let zeros = replicate (n + 1) (pos 0) in
    let free : (j : ℕ) → 0 < j → j < n + 1 → IsFree (constructor n) j = λ j p q.
      ground (arith, get_elem?-set zeros 0 j (pos 1), get_elem?-replicate (n + 1) j (pos 0) q) in
    record {
      first = ground (
        arith,
        get_elem?-set zeros 0 0 (pos 1),
        get_elem?-replicate (n + 1) 0 (pos 0) (omega arith),
      );
      low = omega arith;
      high = omega arith;
      size = length-set zeros 0 (pos 1) ∙ length-replicate (n + 1) (pos 0);
      cells = λ j p q. inr (free j p q);
      below = λ j p q. absurd (omega arith);
      here = λ z. free 1 (omega arith) z;
    }
