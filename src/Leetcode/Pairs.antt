-- ===== src/Leetcode/Pairs.antt =====
-- go-leetcode/src/solution3162.go and solution3164.go: the pairs of a number and another, times k,
-- that divides it; once directly, and once with the numbers of pairs kept in a map. `sort` stands for
-- sort.Ints. The numbers that are passed in are not negative; a product or a count is the 64 bits of
-- an int, and wraps around as in Go.
pub mod Counting
use gopher.Prelude.{
  ℕ, zero, suc, ◌+◌, ◌-◌, ◌*◌, ◌%◌, List, [], ◌∷◌, Option, none, some, Bool, true, false, ◌&&◌,
  ◌==◌, ltb, if◌then◌else◌,
}
use gopher.Prelude.Dict.{Dict, lookup, insert}
use gopher.Prelude.Classes.{nat_key}

abbrev pub int_bound : ℕ
int_bound = 0x8000_0000_0000_0000

abbrev pub word : ℕ
word = 0x1_0000_0000_0000_0000

unfoldable pub mul_int : ℕ → ℕ → ℕ
mul_int a b = (a * b) % word

unfoldable pub add_count : ℕ → ℕ → ℕ
add_count a b = (a + b) % word

-- A number is less than an int, which may be negative.
unfoldable pub lt_int : ℕ → ℕ → Bool
lt_int n p = ltb n p && ltb p int_bound

-- What a remainder by an int is computed with: its sign does not matter.
unfoldable pub abs_int : ℕ → ℕ
abs_int p = if ltb p int_bound then p else word - p

-- The inner loop, from a count on. `none` is a division by zero.
unfoldable pub count_divisors : ℕ → ℕ → List ℕ → ℕ → Option ℕ
count_divisors n1 k [] num = some num
count_divisors n1 k (n2 ∷ nums2) num = elim (lt_int n1 (mul_int n2 k)) [
  | true ↦ some num
  | false ↦ elim (mul_int n2 k == 0) [
    | true ↦ none
    | false ↦
        let divided = n1 % abs_int (mul_int n2 k) == 0 in
        count_divisors n1 k nums2 (if divided then add_count num 1 else num)
  ]
]

unfoldable pub each_number : ℕ → List ℕ → List ℕ → ℕ → Option ℕ
each_number k nums2 [] ans = some ans
each_number k nums2 (n1 ∷ nums1) ans = elim (count_divisors n1 k nums2 ans) [
  | none ↦ none
  | some ans' ↦ each_number k nums2 nums1 ans'
]

-- solution3162.go
unfoldable pub number_of_pairs : (List ℕ → List ℕ) → List ℕ → List ℕ → ℕ → Option ℕ
number_of_pairs sort nums1 nums2 k = each_number k (sort nums2) (sort nums1) 0

unfoldable pub each_new_number : ℕ → List ℕ → List ℕ → Dict ℕ ℕ → ℕ → Option ℕ
each_new_number k nums2 [] n1_num ans = some ans
each_new_number k nums2 (n1 ∷ nums1) n1_num ans = elim (lookup n1 n1_num) [
  | some num ↦ each_new_number k nums2 nums1 n1_num (add_count ans num)
  | none ↦ elim (count_divisors n1 k nums2 0) [
    | none ↦ none
    | some num ↦ each_new_number k nums2 nums1 (insert n1 num n1_num) (add_count ans num)
  ]
]

-- solution3164.go
unfoldable pub number_of_pairs2 : (List ℕ → List ℕ) → List ℕ → List ℕ → ℕ → Option ℕ
number_of_pairs2 sort nums1 nums2 k = each_new_number k (sort nums2) nums1 [] 0
