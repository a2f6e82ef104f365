-- ===== src/Labs/Labgob.antt =====
-- 6.5840/src/labgob/labgob.go: the check for lower-case fields, which walks a type by reflection.
-- The types of a program are the places of a list, since they may refer to each other in circles.
pub mod Types
pub mod Walk
pub mod Report
use gopher.Prelude.{
  ℕ, zero, suc, ◌+◌, List, [], ◌∷◌, Option, none, some, Bool, true, false, member, get_elem?,
}

-- What reflection says of a type. A field is whether its name begins with a capital, and its type.
pub data Kind : Type 0 where
  struct : List (Bool × ℕ) → Kind
  slice array ptr : ℕ → Kind
  dict : ℕ → ℕ → Kind
  other : Kind

-- `checked` holds the types that were checked, `error_count` the complaints.
pub record Checks : Type 0 where
  pub checked : List ℕ
  pub error_count : ℕ

-- The types that a type is made of, in the order in which they are visited, and whether they are
-- complained of before.
abbrev pub parts : Kind → List (Bool × ℕ)
parts (struct fields) = fields
parts (slice elem') = (true, elem') ∷ []
parts (array elem') = (true, elem') ∷ []
parts (ptr elem') = (true, elem') ∷ []
parts (dict key elem') = (true, elem') ∷ (true, key) ∷ []
parts other = []

abbrev pub kind_of : Option Kind → Kind
kind_of none = other
kind_of (some k) = k

abbrev pub complain : Bool → Checks → Checks
complain true st = st
complain false st = record st { error_count = st.error_count + 1 }

unfoldable pub visit : (ℕ → Checks → Option Checks) → List (Bool × ℕ) → Checks → Option Checks
visit check [] st = some st
visit check ((is_upper, t) ∷ ps) st = elim (check t (complain is_upper st)) [
  | none ↦ none
  | some st1 ↦ visit check ps st1
]

-- `checkType`; `none` is the end of the fuel.
unfoldable pub check_type : List Kind → ℕ → ℕ → Checks → Option Checks
check_type types zero t st = none
check_type types (suc fuel) t st = elim (member t st.checked) [
  | true ↦ some st
  | false ↦
      visit (check_type types fuel) (parts (kind_of (get_elem? types t)))
        (record st { checked = t ∷ st.checked })
]
