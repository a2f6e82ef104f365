-- ===== src/Leetcode/Pairs/Counting.antt =====
-- The two programs go-leetcode/src/solution3162.go and solution3164.go count the same pairs.
use native.Mathlib.Nat.{mod-eq_of_lt, mul-le-mul_right, one-le-mul}
use gopher.Prelude.{
  ℕ, ◌+◌, ◌*◌, ◌%◌, ◌≤◌, ◌<◌, ◌≡◌, ◌≢◌, refl, List, [], ◌∷◌, some, Bool, false, ◌==◌, ltb, length,
  keep, not, if◌then◌else◌, All, arith, ap, sym, ◌∙◌, Option-cases, Bool-cases, inl, inr,
}
use gopher.Prelude.Dict.{Dict, lookup, insert, lookup-insert}
use gopher.Prelude.Classes.{nat_key}
use gopher.Leetcode.Pairs.{
  mul_int, add_count, lt_int, abs_int, count_divisors, each_number, number_of_pairs,
  each_new_number, number_of_pairs2,
}

abbrev pub Ascending : List ℕ → Type 0
Ascending [] = Unit
Ascending (x ∷ xs) = All (λ y. x ≤ y) xs × Ascending xs

-- What sort.Ints does: it puts the numbers in order, and neither adds nor loses one.
pub record SortLaws (sort : List ℕ → List ℕ) : Type 0 where
  pub ascending : (xs : List ℕ) → Ascending (sort xs)
  pub same : (xs : List ℕ) (p : ℕ → Bool) → length (keep p (sort xs)) ≡ length (keep p xs)

-- The number and k times the other that divides it.
abbrev pub divides : ℕ → ℕ → ℕ → Bool
divides k n1 n2 = n1 % (n2 * k) == 0

-- The pairs, counted for each number in turn.
unfoldable pub pairs : ℕ → List ℕ → List ℕ → ℕ
pairs k [] nums2 = 0
pairs k (n1 ∷ nums1) nums2 = length (keep (λ n2. divides k n1 n2) nums2) + pairs k nums1 nums2

abbrev IsPositive : ℕ → Type 0
IsPositive x = 1 ≤ x

-- The product with the factor is an int.
abbrev pub Fits : ℕ → ℕ → Type 0
Fits k x = x * k < 0x8000_0000_0000_0000

keep_nothing :
    (k n1 x : ℕ) (xs : List ℕ)
    → 1 ≤ n1
    → n1 < x * k
    → All (λ y. x ≤ y) xs
    → length (keep (λ n2. divides k n1 n2) xs) ≡ 0
keep_nothing k n1 x [] hn h a = refl
keep_nothing k n1 x (y ∷ xs) hn h a =
    let larger : x * k ≤ y * k = mul-le-mul_right k a.0 in
    let small : n1 % (y * k) ≡ n1 = mod-eq_of_lt (omega arith) in
    ground (arith, keep_nothing k n1 x xs hn h a.1)

mul_int-fits : (a b : ℕ) → a * b < 0x8000_0000_0000_0000 → mul_int a b ≡ a * b
unfolding mul_int
mul_int-fits a b h = mod-eq_of_lt (omega arith)

add_count-fits : (a b : ℕ) → a + b < 0x8000_0000_0000_0000 → add_count a b ≡ a + b
unfolding add_count
add_count-fits a b h = mod-eq_of_lt (omega arith)

lt_int-fits : (n p : ℕ) → p < 0x8000_0000_0000_0000 → lt_int n p ≡ ltb n p
unfolding lt_int
lt_int-fits n p h = ground arith

abs_int-fits : (p : ℕ) → p < 0x8000_0000_0000_0000 → abs_int p ≡ p
unfolding abs_int
abs_int-fits p h = ground arith

-- The loop body, when the product is an int.
count_divisors-step :
    (n1 k n2 : ℕ) (nums2 : List ℕ) (num : ℕ)
    → n2 * k < 0x8000_0000_0000_0000
    → 1 ≤ n2 * k
    → count_divisors n1 k (n2 ∷ nums2) num ≡ (
        if ltb n1 (n2 * k)
        then some num
        else count_divisors n1 k nums2 (if divides k n1 n2 then add_count num 1 else num))
unfolding count_divisors
count_divisors-step n1 k n2 nums2 num h l =
    let p = n2 * k in
    let product = mul_int-fits n2 k h in
    let less : lt_int n1 (mul_int n2 k) ≡ ltb n1 p =
      ap (λ x. lt_int n1 x) product ∙ lt_int-fits n1 p h in
    let positive : (mul_int n2 k == 0) ≡ false = ground arith in
    let same : (n1 % abs_int (mul_int n2 k) == 0) ≡ divides k n1 n2 =
      ap (λ x. n1 % abs_int x == 0) product ∙ ap (λ x. n1 % x == 0) (abs_int-fits p h) in
    elim (Bool-cases (ltb n1 p)) [ inl b ↦ ground arith | inr b ↦ ground arith ]

count_divisors-keep :
    (k n1 : ℕ) (nums2 : List ℕ) (num : ℕ)
    → 1 ≤ k
    → 1 ≤ n1
    → Ascending nums2
    → All IsPositive nums2
    → All (Fits k) nums2
    → num + length (keep (λ n2. divides k n1 n2) nums2) < 0x8000_0000_0000_0000
    → count_divisors n1 k nums2 num ≡ some (num + length (keep (λ n2. divides k n1 n2) nums2))
count_divisors-keep k n1 [] num hk hn a p f s =
    unfold count_divisors in ap some (let e : num ≡ num + 0 = omega arith in e)
count_divisors-keep k n1 (n2 ∷ nums2) num hk hn a p f s =
    let positive : 1 ≤ n2 * k = one-le-mul p.0 hk in
    let body = count_divisors-step n1 k n2 nums2 num f.0 positive in
    elim (Bool-cases (ltb n1 (n2 * k))) [
      | inl l ↦
          let small : n1 % (n2 * k) ≡ n1 = mod-eq_of_lt (ground arith) in
          ground (arith, body, keep_nothing k n1 n2 nums2 hn (ground arith) a.0)
      | inr l ↦ elim (Bool-cases (n1 % (n2 * k) == 0)) [
        | inl z ↦
            let one_more : add_count num 1 ≡ num + 1 = add_count-fits num 1 (ground arith) in
            ground (
              arith,
              body,
              count_divisors-keep k n1 nums2 (num + 1) hk hn a.1 p.1 f.1 (ground arith),
            )
        | inr z ↦
            ground
              (arith, body, count_divisors-keep k n1 nums2 num hk hn a.1 p.1 f.1 (ground arith))
      ]
    ]

each_number-pairs :
    (k : ℕ) (nums2 nums1 : List ℕ) (ans : ℕ)
    → 1 ≤ k
    → Ascending nums2
    → All IsPositive nums2
    → All (Fits k) nums2
    → All IsPositive nums1
    → ans + pairs k nums1 nums2 < 0x8000_0000_0000_0000
    → each_number k nums2 nums1 ans ≡ some (ans + pairs k nums1 nums2)
unfolding each_number pairs
each_number-pairs k nums2 [] ans hk a p f q s = ap some (let e : ans ≡ ans + 0 = omega arith in e)
each_number-pairs k nums2 (n1 ∷ nums1) ans hk a p f q s =
    let found = length (keep (λ n2. divides k n1 n2) nums2) in
    ground (
      arith,
      count_divisors-keep k n1 nums2 ans hk q.0 a p f (omega arith),
      each_number-pairs k nums2 nums1 (ans + found) hk a p f q.1 (omega arith),
    )

kept_now :
    (n1 : ℕ) (nums2 : List ℕ) (k : ℕ) (n1_num : Dict ℕ ℕ)
    → ((j v : ℕ) → lookup j n1_num ≡ some v → v ≡ length (keep (λ n2. divides k j n2) nums2))
    → (j v : ℕ) → lookup j (insert n1 (length (keep (λ n2. divides k n1 n2) nums2)) n1_num) ≡ some v
    → v ≡ length (keep (λ n2. divides k j n2) nums2)
kept_now n1 nums2 k n1_num kept j v g =
    let found = length (keep (λ n2. divides k n1 n2) nums2) in
    let at = lookup-insert n1 j found n1_num in
    elim (Bool-cases (n1 == j)) [
      | inr n ↦ kept j v (ground arith)
      | inl n ↦
          let q : n1 ≡ j = ground arith in
          let w : v ≡ found = ground arith in
          w ∙ ap (λ i. length (keep (λ n2. divides k i n2) nums2)) q
    ]

each_new_number-pairs :
    (k : ℕ) (nums2 nums1 : List ℕ) (n1_num : Dict ℕ ℕ) (ans : ℕ)
    → 1 ≤ k
    → Ascending nums2
    → All IsPositive nums2
    → All (Fits k) nums2
    → All IsPositive nums1
    → ans + pairs k nums1 nums2 < 0x8000_0000_0000_0000
    → ((j v : ℕ) → lookup j n1_num ≡ some v → v ≡ length (keep (λ n2. divides k j n2) nums2))
    → each_new_number k nums2 nums1 n1_num ans ≡ some (ans + pairs k nums1 nums2)
unfolding each_new_number pairs
each_new_number-pairs k nums2 [] n1_num ans hk a p f q s kept =
    ap some (let e : ans ≡ ans + 0 = omega arith in e)
each_new_number-pairs k nums2 (n1 ∷ nums1) n1_num ans hk a p f q s kept =
    let found = length (keep (λ n2. divides k n1 n2) nums2) in
    let added : add_count ans found ≡ ans + found = add_count-fits ans found (omega arith) in
    elim (Option-cases (lookup n1 n1_num)) [
      | inr (num, l) ↦ ground (
        arith,
        kept n1 num l,
        each_new_number-pairs k nums2 nums1 n1_num (ans + found) hk a p f q.1 (omega arith) kept,
      )
      | inl l ↦ ground (
        arith,
        count_divisors-keep k n1 nums2 0 hk q.0 a p f (omega arith),
        each_new_number-pairs k nums2 nums1 (insert n1 found n1_num) (ans + found) hk a p f q.1
            (omega arith) (kept_now n1 nums2 k n1_num kept),
      )
    ]

unfoldable by_divisor : ℕ → List ℕ → List ℕ → ℕ
by_divisor k nums1 [] = 0
by_divisor k nums1 (n2 ∷ nums2) =
    length (keep (λ n1. divides k n1 n2) nums1) + by_divisor k nums1 nums2

by_divisor-none : (k : ℕ) (nums2 : List ℕ) → by_divisor k [] nums2 ≡ 0
unfolding by_divisor
by_divisor-none k [] = refl
by_divisor-none k (n2 ∷ nums2) = omega (arith, by_divisor-none k nums2)

by_divisor-one :
    (k n1 : ℕ) (nums1 nums2 : List ℕ)
    → by_divisor k (n1 ∷ nums1) nums2
      ≡ length (keep (λ n2. divides k n1 n2) nums2) + by_divisor k nums1 nums2
unfolding by_divisor
by_divisor-one k n1 nums1 [] = omega arith
by_divisor-one k n1 nums1 (n2 ∷ nums2) = ground (arith, by_divisor-one k n1 nums1 nums2)

pairs-by_divisor : (k : ℕ) (nums1 nums2 : List ℕ) → pairs k nums1 nums2 ≡ by_divisor k nums1 nums2
unfolding pairs
pairs-by_divisor k [] nums2 = sym (by_divisor-none k nums2)
pairs-by_divisor k (n1 ∷ nums1) nums2 =
    omega (arith, pairs-by_divisor k nums1 nums2, by_divisor-one k n1 nums1 nums2)

by_divisor-sort :
    (sort : List ℕ → List ℕ) (k : ℕ) (nums1 nums2 : List ℕ)
    → SortLaws sort
    → by_divisor k (sort nums1) nums2 ≡ by_divisor k nums1 nums2
unfolding by_divisor
by_divisor-sort sort k nums1 [] laws = refl
by_divisor-sort sort k nums1 (n2 ∷ nums2) laws =
    omega (arith, laws.same nums1 (λ n1. divides k n1 n2), by_divisor-sort sort k nums1 nums2 laws)

pairs-sort :
    (sort : List ℕ → List ℕ) (k : ℕ) (nums1 nums2 : List ℕ)
    → SortLaws sort
    → pairs k nums1 (sort nums2) ≡ pairs k nums1 nums2
unfolding pairs
pairs-sort sort k [] nums2 laws = refl
pairs-sort sort k (n1 ∷ nums1) nums2 laws =
    omega (arith, laws.same nums2 (λ n2. divides k n1 n2), pairs-sort sort k nums1 nums2 laws)

no_zero : (xs : List ℕ) → All IsPositive xs → length (keep (λ x. x == 0) xs) ≡ 0
no_zero [] h = refl
no_zero (x ∷ xs) h = ground (arith, h.0, no_zero xs h.1)

IsPositive-again : (xs : List ℕ) → length (keep (λ x. x == 0) xs) ≡ 0 → All IsPositive xs
IsPositive-again [] h = tt
IsPositive-again (x ∷ xs) h = (ground arith, IsPositive-again xs (ground arith))

too_large : ℕ → ℕ → Bool
too_large k x = not (ltb (x * k) 0x8000_0000_0000_0000)

none_large : (k : ℕ) (xs : List ℕ) → All (Fits k) xs → length (keep (too_large k) xs) ≡ 0
unfolding too_large
none_large k [] h = refl
none_large k (x ∷ xs) h = ground (arith, h.0, none_large k xs h.1)

Fits-again : (k : ℕ) (xs : List ℕ) → length (keep (too_large k) xs) ≡ 0 → All (Fits k) xs
unfolding too_large
Fits-again k [] h = tt
Fits-again k (x ∷ xs) h = (ground arith, Fits-again k xs (ground arith))

nothing : (j v : ℕ) → lookup j [] ≢ some v
unfolding lookup
nothing j v g = ground arith

-- For every sort that puts numbers in order and keeps them all, positive numbers and a positive
-- factor, when the products with the factor and the number of pairs are less than 2^63, the program
-- with the map and the one without both end without a division by zero, and both give the number of
-- pairs of the lists as they were passed in.
pub number_of_pairs2-number_of_pairs :
    (sort : List ℕ → List ℕ) (nums1 nums2 : List ℕ) (k : ℕ)
    → SortLaws sort
    → 1 ≤ k
    → All (λ x. 1 ≤ x) nums1
    → All (λ x. 1 ≤ x) nums2
    → All (λ x. x * k < 0x8000_0000_0000_0000) nums2
    → pairs k nums1 nums2 < 0x8000_0000_0000_0000
    → (number_of_pairs2 sort nums1 nums2 k ≡ number_of_pairs sort nums1 nums2 k)
      × (number_of_pairs2 sort nums1 nums2 k ≡ some (pairs k nums1 nums2))
unfolding number_of_pairs2 number_of_pairs
number_of_pairs2-number_of_pairs sort nums1 nums2 k laws hk p q f few =
    let sorted1 : All IsPositive (sort nums1) =
      IsPositive-again (sort nums1) (laws.same nums1 (λ x. x == 0) ∙ no_zero nums1 p) in
    let sorted2 : All IsPositive (sort nums2) =
      IsPositive-again (sort nums2) (laws.same nums2 (λ x. x == 0) ∙ no_zero nums2 q) in
    let fits : All (Fits k) (sort nums2) =
      Fits-again k (sort nums2) (laws.same nums2 (too_large k) ∙ none_large k nums2 f) in
    let same : pairs k (sort nums1) (sort nums2) ≡ pairs k nums1 (sort nums2) =
      pairs-by_divisor k (sort nums1) (sort nums2)
      ∙ by_divisor-sort sort k nums1 (sort nums2) laws
      ∙ sym (pairs-by_divisor k nums1 (sort nums2)) in
    let back = pairs-sort sort k nums1 nums2 laws in
    let with_map =
      each_new_number-pairs k (sort nums2) nums1 [] 0 hk (laws.ascending nums2) sorted2 fits p
        (omega arith) (λ j v g. absurd (nothing j v g)) in
    let direct =
      each_number-pairs k (sort nums2) (sort nums1) 0 hk (laws.ascending nums2) sorted2 fits sorted1
        (omega arith) in
    (ground arith, ground arith)
