-- ===== src/Proj/Dao/Pages.antt =====
-- The pages of users: together they are all users, and what happens when no limit is given.
use gopher.Prelude.{
  ℕ, zero, suc, ◌+◌, ◌*◌, ◌≤◌, ◌<◌, ◌≡◌, refl, sym, ap, ◌∙◌, List, [], ◌∷◌, ◌++◌, arith,
  if◌then◌else◌, length, take, drop,
}
use gopher.Prelude.Integers.{ℤ, pos, negsuc, neg, diff, ◌+ℤ◌, ◌*ℤ◌, wrap64, wrap64-pos, is_nonpos}
use gopher.Proj.Base.{Result, ok, err, User, Deps, World}
use gopher.Proj.Dto.{PaginateDto, get_page, get_limit}
use gopher.Proj.Dao.{get_paginate, select_paginated_users}

take-nil : {A : Type 0} (n : ℕ) → take {A = A} n [] ≡ []
take-nil zero = refl
take-nil (suc n) = refl

take-suc :
    {A : Type 0} (a b : ℕ) (x : A) (xs : List A)
    → take (suc (a + b)) (x ∷ xs) ≡ take (suc a + b) (x ∷ xs)
take-suc a b x xs = let e : suc (a + b) ≡ suc a + b = omega arith in ap (λ n. take n (x ∷ xs)) e

take-add : {A : Type 0} (a b : ℕ) (xs : List A) → take a xs ++ take b (drop a xs) ≡ take (a + b) xs
take-add zero b xs = ap (λ n. take n xs) (omega arith)
take-add (suc a) b [] = take-nil b ∙ sym (take-nil (suc a + b))
take-add (suc a) b (x ∷ xs) = ap (λ ys. x ∷ ys) (take-add a b xs) ∙ take-suc a b x xs

take-length : {A : Type 0} (n : ℕ) (xs : List A) → length xs ≤ n → take n xs ≡ xs
take-length zero [] h = refl
take-length zero (x ∷ xs) h = absurd (omega arith)
take-length (suc n) [] h = refl
take-length (suc n) (x ∷ xs) h = ap (λ ys. x ∷ ys) (take-length n xs (omega arith))

-- A database that holds these users and lists them in the same order each time, which the query does
-- not ask for.
pub record Holds (d : Deps) (db : d.Db) (users : List User) : Type 0 where
  pub find :
      (offset lim : ℕ)
      → 0 < lim
      → d.db_find db (pos offset) (pos lim) ≡ ok (take lim (drop offset users))
  pub count : d.db_count db ≡ ok (length users)

abbrev pub users_of : Result (List User × ℕ) → List User
users_of (ok r) = r.0
users_of (err e) = []

-- The first pages, one after the other.
unfoldable pub pages : (d : Deps) → World d → ℕ → ℕ → List User
pages d w lim zero = []
pages d w lim (suc n) =
    pages d w lim n
    ++ users_of (select_paginated_users d w (record { curr = pos (suc n); limit = pos lim }))

get_paginate-pos :
    (d : Deps) (c lim : ℕ)
    → 0 < lim
    → c * lim < 0x8000_0000_0000_0000
    → c < 0x8000_0000_0000_0000
    → get_paginate d (record { curr = pos (suc c); limit = pos lim }) ≡ (pos (c * lim), pos lim)
unfolding get_paginate get_page get_limit is_nonpos ◌+ℤ◌ ◌*ℤ◌ diff
get_paginate-pos d c lim h small page =
    ground (arith, wrap64-pos c page, wrap64-pos (c * lim) small)

select_paginated_users-page :
    (d : Deps) (w : World d) (users : List User) (c lim : ℕ)
    → Holds d w.db users
    → 0 < lim
    → c * lim < 0x8000_0000_0000_0000
    → c < 0x8000_0000_0000_0000
    → select_paginated_users d w (record { curr = pos (suc c); limit = pos lim })
      ≡ ok (take lim (drop (c * lim) users), length users)
unfolding select_paginated_users
select_paginated_users-page d w users c lim held h small page =
    ground (arith, get_paginate-pos d c lim h small page, held.find (c * lim) lim h, held.count)

suc_mul : (n k : ℕ) → suc n * k ≡ n * k + k
suc_mul n k = omega arith

le_mul : (n k : ℕ) → 0 < k → n ≤ n * k
le_mul zero k h = omega arith
le_mul (suc n) k h = omega (arith, suc_mul n k, le_mul n k h)

pages-take :
    (d : Deps) (w : World d) (users : List User) (n lim : ℕ)
    → Holds d w.db users
    → 0 < lim
    → n * lim < 0x8000_0000_0000_0000
    → pages d w lim n ≡ take (n * lim) users
unfolding pages
pages-take d w users zero lim held h small =
    let z : 0 ≡ zero * lim = omega arith in ap (λ k. take k users) z
pages-take d w users (suc n) lim held h small =
    let rest = pages-take d w users n lim held h (omega (arith, suc_mul n lim)) in
    let page =
      select_paginated_users-page d w users n lim held h (omega (arith, suc_mul n lim))
        (omega (arith, suc_mul n lim, le_mul n lim h)) in
    ground (arith, rest, page, take-add (n * lim) lim users, suc_mul n lim)

-- With a limit that is given, and numbers that fit into 64 bits, the pages from the first on are
-- all users in their order, none twice and none left out, once they are enough.
pub select_paginated_users-pages :
    (d : Deps) (w : World d) (users : List User) (n lim : ℕ)
    → Holds d w.db users
    → 0 < lim
    → n * lim < 0x8000_0000_0000_0000
    → length users ≤ n * lim
    → pages d w lim n ≡ users
select_paginated_users-pages d w users n lim held h small enough =
    pages-take d w users n lim held h small ∙ take-length (n * lim) users enough

mul_zero : (z : ℤ) → wrap64 (z *ℤ pos 0) ≡ pos 0
unfolding ◌*ℤ◌
mul_zero (pos a) =
    let z : a * 0 ≡ 0 = omega arith in ap (λ n. wrap64 (pos n)) z ∙ wrap64-pos 0 (omega arith)
mul_zero (negsuc a) =
    let z : (a + 1) * 0 ≡ 0 = omega arith in ap (λ n. wrap64 (neg n)) z ∙ wrap64-pos 0 (omega arith)

-- Without a limit every page is the first one, with the configured limit: the offset is zero
-- whatever page is asked for.
pub get_paginate-no_limit :
    (d : Deps) (p : PaginateDto) → p.limit ≡ pos 0 → get_paginate d p ≡ (pos 0, d.paginate_limit)
unfolding get_paginate get_page get_limit is_nonpos
get_paginate-no_limit d p e =
    let z = (if is_nonpos p.curr then d.paginate_curr else p.curr) in
    ground (arith, mul_zero (wrap64 (z +ℤ negsuc 0)))
