-- ===== src/Leetcode/Tests.antt =====
-- The solutions at concrete inputs.
use gopher.Prelude.{
  ℕ, ◌≤◌, ◌<◌, ◌≡◌, ◌≢◌, refl, some, arith, get_elem?, List, [], ◌∷◌, if◌then◌else◌, leb, Bool, All,
  length, keep, ◌∙◌, Bool-cases, inl, inr, subst, sym,
}
use gopher.Prelude.Integers.{pos, negsuc}
use gopher.Leetcode.Seats.{
  SeatManager, constructor, reserve, unreserve, Inv, IsFree, IsReserved, next_free,
}
use gopher.Leetcode.Seats.Writes.{constructor-Inv}
use gopher.Leetcode.Seats.Reserving.{reserve-Inv}
use gopher.Leetcode.Seats.Returning.{unreserve-Inv}
use gopher.Leetcode.Tickets.{mincost_tickets}
use gopher.Leetcode.Tickets.Passes.{IsLeast, mincost_tickets-IsLeast}
use gopher.Leetcode.Pairs.{number_of_pairs, number_of_pairs2}
use gopher.Leetcode.Pairs.Counting.{Ascending, SortLaws, pairs, number_of_pairs2-number_of_pairs}

first_seat :
    reserve (constructor 2) ≡ some (record { n = 3; ok = pos 2 ∷ negsuc 0 ∷ pos 0 ∷ [] }, 1)
unfolding reserve constructor next_free
first_seat = refl

reserve-Inv_example :
    (t : SeatManager) × (reserve (constructor 2) ≡ some (t, 1))
    × IsFree (constructor 2) 1
    × ((j : ℕ) → 0 < j → j < 3 → IsFree (constructor 2) j → 1 ≤ j)
    × IsReserved t 1
    × ((j : ℕ) → 0 < j → j ≢ 1 → get_elem? t.ok j ≡ get_elem? (constructor 2).ok j)
    × (t.n ≡ 3)
    × (next : ℕ) × Inv t next
unfolding constructor
reserve-Inv_example = reserve-Inv (constructor 2) 1 (constructor-Inv 2) (omega arith)

unreserve-Inv_example :
    (t : SeatManager) × (unreserve (constructor 2) 2 ≡ some t)
    × IsFree t 2
    × ((j : ℕ) → 0 < j → j ≢ 2 → get_elem? t.ok j ≡ get_elem? (constructor 2).ok j)
    × (next : ℕ) × Inv t next
unfolding constructor
unreserve-Inv_example =
    unreserve-Inv (constructor 2) 1 (constructor-Inv 2) 2 (omega arith) (omega arith)

-- A pass for seven days and one for a day.
mincost_tickets-IsLeast_example :
    (c : ℕ) × (mincost_tickets (1 ∷ 4 ∷ 6 ∷ 7 ∷ 8 ∷ 20 ∷ []) (2 ∷ 7 ∷ 15 ∷ []) ≡ some c)
    × IsLeast (1 ∷ 4 ∷ 6 ∷ 7 ∷ 8 ∷ 20 ∷ []) 2 7 15 1 c
mincost_tickets-IsLeast_example =
    mincost_tickets-IsLeast (1 ∷ 4 ∷ 6 ∷ 7 ∷ 8 ∷ 20 ∷ []) (2 ∷ 7 ∷ 15 ∷ []) 2 7 15 refl
      (omega arith)

insert_sorted : ℕ → List ℕ → List ℕ
insert_sorted x [] = x ∷ []
insert_sorted x (y ∷ ys) = if leb x y then x ∷ y ∷ ys else y ∷ insert_sorted x ys

unfoldable sort_ints : List ℕ → List ℕ
unfolding insert_sorted
sort_ints [] = []
sort_ints (x ∷ xs) = insert_sorted x (sort_ints xs)

insert_sorted-All :
    (z x : ℕ) (ys : List ℕ) → z ≤ x → All (λ y. z ≤ y) ys → All (λ y. z ≤ y) (insert_sorted x ys)
unfolding insert_sorted
insert_sorted-All z x [] h a = (h, tt)
insert_sorted-All z x (y ∷ ys) h a = elim (Bool-cases (leb x y)) [
  | inl l ↦
      subst (λ b. All (λ y. z ≤ y) (if b then x ∷ y ∷ ys else y ∷ insert_sorted x ys)) (sym l)
        (h, a)
  | inr l ↦
      subst (λ b. All (λ y. z ≤ y) (if b then x ∷ y ∷ ys else y ∷ insert_sorted x ys)) (sym l)
        (a.0, insert_sorted-All z x ys h a.1)
]

All-le : (x y : ℕ) (ys : List ℕ) → x ≤ y → All (λ z. y ≤ z) ys → All (λ z. x ≤ z) ys
All-le x y [] h a = tt
All-le x y (z ∷ ys) h a = (omega (arith, a.0), All-le x y ys h a.1)

insert_sorted-Ascending : (x : ℕ) (ys : List ℕ) → Ascending ys → Ascending (insert_sorted x ys)
unfolding insert_sorted
insert_sorted-Ascending x [] a = (tt, tt)
insert_sorted-Ascending x (y ∷ ys) a = elim (Bool-cases (leb x y)) [
  | inl l ↦
      subst (λ b. Ascending (if b then x ∷ y ∷ ys else y ∷ insert_sorted x ys)) (sym l)
        ((ground arith, All-le x y ys (ground arith) a.0), a)
  | inr l ↦
      subst (λ b. Ascending (if b then x ∷ y ∷ ys else y ∷ insert_sorted x ys)) (sym l)
        (insert_sorted-All y x ys (ground arith) a.0, insert_sorted-Ascending x ys a.1)
]

insert_sorted-keep :
    (x : ℕ) (ys : List ℕ) (p : ℕ → Bool)
    → length (keep p (insert_sorted x ys)) ≡ length (keep p (x ∷ ys))
unfolding insert_sorted
insert_sorted-keep x [] p = refl
insert_sorted-keep x (y ∷ ys) p = ground (arith, insert_sorted-keep x ys p)

sort_ints-Ascending : (xs : List ℕ) → Ascending (sort_ints xs)
unfolding sort_ints
sort_ints-Ascending [] = tt
sort_ints-Ascending (x ∷ xs) = insert_sorted-Ascending x (sort_ints xs) (sort_ints-Ascending xs)

sort_ints-keep : (xs : List ℕ) (p : ℕ → Bool) → length (keep p (sort_ints xs)) ≡ length (keep p xs)
unfolding sort_ints
sort_ints-keep [] p = refl
sort_ints-keep (x ∷ xs) p =
    insert_sorted-keep x (sort_ints xs) p ∙ ground (arith, sort_ints-keep xs p)

sort_ints-SortLaws : SortLaws sort_ints
sort_ints-SortLaws = record { ascending = sort_ints-Ascending; same = sort_ints-keep }

pairs_now : pairs 2 (8 ∷ 4 ∷ 8 ∷ []) (4 ∷ 1 ∷ 3 ∷ []) ≡ 5
unfolding pairs
pairs_now = refl

number_of_pairs2-number_of_pairs_example :
    (number_of_pairs2 sort_ints (8 ∷ 4 ∷ 8 ∷ []) (4 ∷ 1 ∷ 3 ∷ []) 2
      ≡ number_of_pairs sort_ints (8 ∷ 4 ∷ 8 ∷ []) (4 ∷ 1 ∷ 3 ∷ []) 2)
    × (number_of_pairs2 sort_ints (8 ∷ 4 ∷ 8 ∷ []) (4 ∷ 1 ∷ 3 ∷ []) 2
        ≡ some (pairs 2 (8 ∷ 4 ∷ 8 ∷ []) (4 ∷ 1 ∷ 3 ∷ [])))
number_of_pairs2-number_of_pairs_example =
    number_of_pairs2-number_of_pairs sort_ints (8 ∷ 4 ∷ 8 ∷ []) (4 ∷ 1 ∷ 3 ∷ []) 2
      sort_ints-SortLaws (omega arith) (omega arith, (omega arith, (omega arith, tt)))
      (omega arith, (omega arith, (omega arith, tt)))
      (omega arith, (omega arith, (omega arith, tt))) (ground (arith, pairs_now))

-- 8 is divided by 2 * 4 and by 2 * 1, twice, and 4 by 2 * 1.
pairs_run : number_of_pairs2 sort_ints (8 ∷ 4 ∷ 8 ∷ []) (4 ∷ 1 ∷ 3 ∷ []) 2 ≡ some 5
unfolding number_of_pairs2 gopher.Leetcode.Pairs.each_new_number gopher.Prelude.Dict.lookup
    gopher.Leetcode.Pairs.count_divisors sort_ints gopher.Prelude.Dict.insert
    gopher.Leetcode.Pairs.lt_int gopher.Leetcode.Pairs.mul_int gopher.Leetcode.Pairs.add_count
    gopher.Leetcode.Pairs.abs_int
pairs_run = refl
