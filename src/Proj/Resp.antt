-- ===== src/Proj/Resp.antt =====
-- go-proj/src/api/resp.go and tag_validate.go: the responses, and the test of user names.
use gopher.Prelude.{
  ℕ, ◌+◌, ◌≤◌, ◌<◌, ◌≡◌, ◌≢◌, refl, List, [], ◌∷◌, ◌++◌, Option, none, some, Bool, true, false, not,
  ◌&&◌, ◌||◌, ◌==◌, ltb, arith, if◌then◌else◌, ◌⊎◌, inl, inr, Bool-cases,
}
use gopher.Prelude.Integers.{ℤ, pos, negsuc, ltℤ}
use gopher.Prelude.Classes.{bytes_eq, bytes_eq_iff}
use gopher.Proj.Base.{Text, User}
use gopher.Proj.Dto.{UserInsertDto}

pub data Data : Type 0 where
  no_data : Data
  token_user : Text → User → Data
  inserted : UserInsertDto → Data
  one_user : User → Data
  users_total : List User → ℕ → Data

pub record Resp : Type 0 where
  pub code : ℤ
  pub msg : Text
  pub data_ : Data

-- What the context is aborted with: a status alone, or with a response as JSON.
pub record Sent : Type 0 where
  pub status : ℤ
  pub body : Option Resp

abbrev pub is_no_data : Data → Bool
is_no_data no_data = true
is_no_data (token_user t u) = false
is_no_data (inserted t) = false
is_no_data (one_user u) = false
is_no_data (users_total us n) = false

abbrev pub is_zero : ℤ → Bool
is_zero (pos n) = n == 0
is_zero (negsuc n) = false

unfoldable pub is_empty : Resp → Bool
is_empty resp = is_zero resp.code && bytes_eq resp.msg [] && is_no_data resp.data_

-- What `Ok` and `Err` have in common: a code outside of [low, low + 100) is replaced by `low`.
unfoldable pub send : ℕ → Resp → Sent
send low resp =
    if is_empty resp
    then record { status = pos low; body = none }
    else (let code =
          if ltℤ resp.code (pos low) || not (ltℤ resp.code (pos (low + 100)))
          then pos low
          else resp.code in
        record { status = code; body = some (record resp { code = code }) })

-- `Ok`
unfoldable pub send_ok : Resp → Sent
send_ok resp = send 200 resp

-- `Err`
unfoldable pub send_err : Resp → Sent
send_err resp = send 400 resp

abbrev pub HasClass : ℕ → Sent → Type 0
HasClass low s = (n : ℕ) × (s.status ≡ pos n) × (low ≤ n) × (n < low + 100)

-- The code in the body is the status.
abbrev pub IsConsistent : Sent → Type 0
IsConsistent s = (resp : Resp) → s.body ≡ some resp → resp.code ≡ s.status

ℤ-cases : (z : ℤ) → ((n : ℕ) × (z ≡ pos n)) ⊎ ((n : ℕ) × (z ≡ negsuc n))
ℤ-cases (pos n) = inl (n, refl)
ℤ-cases (negsuc n) = inr (n, refl)

send-HasClass : (low : ℕ) (resp : Resp) → HasClass low (send low resp)
unfolding send ltℤ
send-HasClass low resp = elim (Bool-cases (is_empty resp)) [
  | inl e ↦ (low, ground arith, omega arith, omega arith)
  | inr e ↦ elim (ℤ-cases resp.code) [
    | inr (n, z) ↦ (low, ground arith, omega arith, omega arith)
    | inl (n, z) ↦ elim (Bool-cases (ltb n low || not (ltb n (low + 100)))) [
      | inl o ↦ (low, ground arith, omega arith, omega arith)
      | inr o ↦ (n, ground arith, ground arith, ground arith)
    ]
  ]
]

send-IsConsistent : (low : ℕ) (resp : Resp) → IsConsistent (send low resp)
unfolding send
send-IsConsistent low resp body b = ground arith

send-kept :
    (low : ℕ) (resp : Resp) (n : ℕ)
    → resp.code ≡ pos n
    → 0 < low
    → low ≤ n
    → n < low + 100
    → (send low resp).status ≡ pos n
unfolding send ltℤ is_empty
send-kept low resp n e z l h = ground arith

-- Whatever the response, `Ok` sends a status of the class 2xx and `Err` one of the class 4xx, with
-- that status in the body when there is one; a code that is already of the class is sent as it is.
pub send_ok-send_err :
    (resp : Resp)
    → HasClass 200 (send_ok resp)
      × HasClass 400 (send_err resp)
      × IsConsistent (send_ok resp)
      × IsConsistent (send_err resp)
      × ((n : ℕ) → resp.code ≡ pos n → 200 ≤ n → n < 300 → (send_ok resp).status ≡ pos n)
      × ((n : ℕ) → resp.code ≡ pos n → 400 ≤ n → n < 500 → (send_err resp).status ≡ pos n)
unfolding send_ok send_err
send_ok-send_err resp = (
  send-HasClass 200 resp,
  send-HasClass 400 resp,
  send-IsConsistent 200 resp,
  send-IsConsistent 400 resp,
  λ n e l h. send-kept 200 resp n e (omega arith) l h,
  λ n e l h. send-kept 400 resp n e (omega arith) l h,
)

-- The validation `not_admin` of a field that is a text.
unfoldable pub has_prefix : Text → Text → Bool
has_prefix [] s = true
has_prefix (c ∷ p) [] = false
has_prefix (c ∷ p) (x ∷ s) = let rest = has_prefix p s in if c == x then rest else false

-- `strings.Index(s, p) != 0` holds exactly when `p` is no prefix of `s`.
unfoldable pub not_admin : Text → Bool
not_admin field =
    not (bytes_eq field []) && not (has_prefix (97 ∷ 100 ∷ 109 ∷ 105 ∷ 110 ∷ []) field)

pub has_prefix-append : (p s : Text) → has_prefix p (p ++ s) ≡ true
unfolding has_prefix
has_prefix-append [] s = refl
has_prefix-append (c ∷ p) s = ground (arith, has_prefix-append p s)

pub has_prefix-true : (p s : Text) → has_prefix p s ≡ true → (back : Text) × (s ≡ p ++ back)
unfolding has_prefix
has_prefix-true [] s h = (s, refl)
has_prefix-true (c ∷ p) [] h = absurd (ground arith)
has_prefix-true (c ∷ p) (x ∷ s) h =
    let (back, e) = has_prefix-true p s (ground arith) in (back, ground arith)

-- A name is accepted exactly when it is not empty and is not "admin" followed by anything.
pub not_admin-accepts :
    (field : Text)
    → (not_admin field ≡ true
        → (field ≢ []) × ((back : Text) → field ≢ (97 ∷ 100 ∷ 109 ∷ 105 ∷ 110 ∷ []) ++ back))
      × (field ≢ []
          → ((back : Text) → field ≢ (97 ∷ 100 ∷ 109 ∷ 105 ∷ 110 ∷ []) ++ back)
          → not_admin field ≡ true)
unfolding not_admin
not_admin-accepts field =
    let admin : Text = 97 ∷ 100 ∷ 109 ∷ 105 ∷ 110 ∷ [] in
    (
      λ h. (
        λ e. ground (arith, bytes_eq_iff field []),
        λ back e. ground (arith, has_prefix-append admin back),
      ),
      λ n h. elim (Bool-cases (has_prefix admin field)) [
        | inl p ↦ let (back, e) = has_prefix-true admin field p in absurd (h back e)
        | inr p ↦ ground (arith, bytes_eq_iff field [])
      ],
    )
