-- ===== src/Labs/Labgob/Types.antt =====
-- Types that are made of types, for 6.5840/src/labgob/labgob.go: what they reach, what is to be
-- complained of in them, and how many are not checked yet.
use gopher.Prelude.{
  ℕ, zero, suc, ◌+◌, ◌≤◌, ◌<◌, ◌≡◌, refl, List, [], ◌∷◌, ◌++◌, Bool, true, false, ◌||◌, ◌==◌,
  if◌then◌else◌, get_elem?, member, arith, Bool-cases, inl, inr, subst,
}
use gopher.Labs.Labgob.{Kind, parts, kind_of}

abbrev pub NoDup : List ℕ → Type 0
NoDup [] = Unit
NoDup (x ∷ xs) = (member x xs ≡ false) × NoDup xs

abbrev pub parts_at : List Kind → ℕ → List (Bool × ℕ)
parts_at types t = parts (kind_of (get_elem? types t))

abbrev pub targets : List (Bool × ℕ) → List ℕ
targets [] = []
targets ((b, t) ∷ ps) = t ∷ targets ps

-- How many of the parts are lower-case fields.
abbrev pub lowers : List (Bool × ℕ) → ℕ
lowers [] = 0
lowers ((true, t) ∷ ps) = lowers ps
lowers ((false, t) ∷ ps) = 1 + lowers ps

-- The lower-case fields of some types together.
abbrev pub all_lowers : List Kind → List ℕ → ℕ
all_lowers types [] = 0
all_lowers types (t ∷ ts) = lowers (parts_at types t) + all_lowers types ts

-- A type that another is made of, directly or through others.
pub data Reaches (types : List Kind) : ℕ → ℕ → Type 0 where
  here : (t : ℕ) → Reaches types t t
  step :
      (t u v : ℕ)
      → member u (targets (parts_at types t)) ≡ true
      → Reaches types u v
      → Reaches types t v

pub member-append : (x : ℕ) (xs ys : List ℕ) → member x (xs ++ ys) ≡ (member x xs || member x ys)
member-append x [] ys = refl
member-append x (y ∷ xs) ys = ground (arith, member-append x xs ys)

pub NoDup-append :
    (xs ys : List ℕ)
    → NoDup xs
    → NoDup ys
    → ((x : ℕ) → member x xs ≡ true → member x ys ≡ false)
    → NoDup (xs ++ ys)
NoDup-append [] ys h k d = k
NoDup-append (x ∷ xs) ys h k d = (
  ground (arith, member-append x xs ys, h.0, d x),
  NoDup-append xs ys h.1 k (λ z m. d z (ground arith)),
)

pub all_lowers-append :
    (types : List Kind) (xs ys : List ℕ)
    → all_lowers types (xs ++ ys) ≡ all_lowers types xs + all_lowers types ys
all_lowers-append types [] ys = omega arith
all_lowers-append types (x ∷ xs) ys = omega (arith, all_lowers-append types xs ys)

-- How many of the first types are not checked yet.
unfoldable pub left : ℕ → List ℕ → ℕ
left zero checked = 0
left (suc n) checked = (if member n checked then 0 else 1) + left n checked

pub left-le :
    (n : ℕ) (xs ys : List ℕ)
    → ((x : ℕ) → member x xs ≡ true → member x ys ≡ true)
    → left n ys ≤ left n xs
unfolding left
left-le zero xs ys h = omega arith
left-le (suc n) xs ys h = ground (arith, left-le n xs ys h, h n)

pub left-lt : (n t : ℕ) (xs : List ℕ) → t < n → member t xs ≡ false → left n (t ∷ xs) < left n xs
unfolding left
left-lt zero t xs h m = absurd (omega arith)
left-lt (suc n) t xs h m = elim (Bool-cases (t == n)) [
  | inl q ↦
      let e : t ≡ n = ground arith in
      let mn : member n xs ≡ false = subst (λ k. member k xs ≡ false) e m in
      ground (arith, left-le n xs (t ∷ xs) (λ x k. ground arith))
  | inr q ↦ ground (arith, left-lt n t xs (ground arith) m)
]

pub left-bound : (n : ℕ) (xs : List ℕ) → left n xs ≤ n
unfolding left
left-bound zero xs = omega arith
left-bound (suc n) xs = ground (arith, left-bound n xs)
