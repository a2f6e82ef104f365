-- ===== src/Labs/Labgob/Report.antt =====
-- What the check of `checkType` in 6.5840/src/labgob/labgob.go reports: the lower-case fields of all
-- that a type is made of.
use gopher.Prelude.{
  ℕ, ◌+◌, ◌<◌, ◌≡◌, ◌≢◌, refl, List, [], ◌∷◌, ◌++◌, Option, none, some, Bool, ◌==◌, if◌then◌else◌,
  sym, ◌∙◌, true, false, length, member, get_elem?, arith, subst, ap, inl, inr, Bool-cases,
  Option-cases,
}
use gopher.Labs.Labgob.{
  Kind, struct, slice, array, ptr, dict, other, Checks, parts, kind_of, check_type,
}
use gopher.Labs.Labgob.Types
use gopher.Labs.Labgob.Types.{NoDup, parts_at, targets, lowers, all_lowers, Reaches, left-bound}
use gopher.Labs.Labgob.Walk.{Reaches-closed, check_type-Walked}

-- What a kind of type is made of: the types of its fields, the elements, and for a map also the keys.
pub data Has : Kind → ℕ → Type 0 where
  field :
      (before after : List (Bool × ℕ)) (is_upper : Bool) (u : ℕ)
      → Has (struct (before ++ ((is_upper, u) ∷ after))) u
  slice_of : (u : ℕ) → Has (slice u) u
  array_of : (u : ℕ) → Has (array u) u
  points_to : (u : ℕ) → Has (ptr u) u
  map_key : (key value : ℕ) → Has (dict key value) key
  map_value : (key value : ℕ) → Has (dict key value) value

-- A type of the table that another is made of, directly or through others.
pub data Contains (types : List Kind) : ℕ → ℕ → Type 0 where
  itself : (t : ℕ) → Contains types t t
  through :
      (t u v : ℕ) (k : Kind)
      → get_elem? types t ≡ some k
      → Has k u
      → Contains types u v
      → Contains types t v

-- The fields of a struct that begin with a lower-case letter; no other kind has any.
abbrev pub lower_fields : List (Bool × ℕ) → ℕ
lower_fields [] = 0
lower_fields ((is_upper, u) ∷ fields) = (if is_upper then 0 else 1) + lower_fields fields

abbrev pub complaints : Option Kind → ℕ
complaints none = 0
complaints (some (struct fields)) = lower_fields fields
complaints (some (slice u)) = 0
complaints (some (array u)) = 0
complaints (some (ptr u)) = 0
complaints (some (dict key value)) = 0
complaints (some other) = 0

abbrev pub all_complaints : List Kind → List ℕ → ℕ
all_complaints types [] = 0
all_complaints types (t ∷ ts) = complaints (get_elem? types t) + all_complaints types ts

member-field :
    (before after : List (Bool × ℕ)) (b : Bool) (u : ℕ)
    → member u (targets (before ++ ((b, u) ∷ after))) ≡ true
member-field [] after b u = ground arith
member-field ((c, v) ∷ before) after b u = ground (arith, member-field before after b u)

Has-parts : (k : Kind) (u : ℕ) → Has k u → member u (targets (parts k)) ≡ true
Has-parts _ u (field before after b _) = member-field before after b u
Has-parts _ u (slice_of _) = ground arith
Has-parts _ u (array_of _) = ground arith
Has-parts _ u (points_to _) = ground arith
Has-parts _ u (map_key _ value) = ground arith
Has-parts _ u (map_value key _) = ground arith

a_field :
    (fields : List (Bool × ℕ)) (u : ℕ)
    → member u (targets fields) ≡ true
    → (before after : List (Bool × ℕ)) × (b : Bool) × (fields ≡ before ++ ((b, u) ∷ after))
a_field [] u m = absurd (ground arith)
a_field ((b, v) ∷ fields) u m = elim (Bool-cases (v == u)) [
  | inl q ↦ let e : v ≡ u = ground arith in ([], fields, b, ap (λ x. (b, x) ∷ fields) e)
  | inr q ↦
      let (before, after, c, e) = a_field fields u (ground arith) in
      ((b, v) ∷ before, after, c, ap (λ x. (b, v) ∷ x) e)
]

only : (v u : ℕ) → member u (v ∷ []) ≡ true → v ≡ u
only v u m = ground arith

parts-Has : (k : Kind) (u : ℕ) → member u (targets (parts k)) ≡ true → Has k u
parts-Has (struct fields) u m =
    let (before, after, b, e) = a_field fields u m in
    subst (λ x. Has (struct x) u) (sym e) (field before after b u)
parts-Has (slice v) u m = subst (Has (slice v)) (only v u m) (slice_of v)
parts-Has (array v) u m = subst (Has (array v)) (only v u m) (array_of v)
parts-Has (ptr v) u m = subst (Has (ptr v)) (only v u m) (points_to v)
parts-Has (dict key value) u m = elim (Bool-cases (value == u)) [
  | inl q ↦
      subst (Has (dict key value)) (let e : value ≡ u = ground arith in e) (map_value key value)
  | inr q ↦ subst (Has (dict key value)) (let e : key ≡ u = ground arith in e) (map_key key value)
]
parts-Has other u m = absurd (ground arith)

distinct_tests : true ≢ false
distinct_tests h = ground arith

Contains-Reaches : (types : List Kind) (t u : ℕ) → Contains types t u → Reaches types t u
Contains-Reaches types t _ (itself _) = Types.here t
Contains-Reaches types t v (through _ u _ k g h c) =
    Types.step t u v (ap (λ x. member u (targets (parts (kind_of x)))) g ∙ Has-parts k u h)
      (Contains-Reaches types u v c)

Reaches-Contains : (types : List Kind) (t u : ℕ) → Reaches types t u → Contains types t u
Reaches-Contains types t _ (Types.here _) = itself t
Reaches-Contains types t v (Types.step _ u _ m r) = elim (Option-cases (get_elem? types t)) [
  | inl g ↦ absurd (distinct_tests (sym m ∙ ap (λ x. member u (targets (parts (kind_of x)))) g))
  | inr (k, g) ↦
      through t u v k g
        (parts-Has k u (sym (ap (λ x. member u (targets (parts (kind_of x)))) g) ∙ m))
        (Reaches-Contains types u v r)
]

lowers-fields : (fields : List (Bool × ℕ)) → lowers fields ≡ lower_fields fields
lowers-fields [] = refl
lowers-fields ((true, u) ∷ fields) = omega (arith, lowers-fields fields)
lowers-fields ((false, u) ∷ fields) = omega (arith, lowers-fields fields)

lowers-complaints : (k : Option Kind) → lowers (parts (kind_of k)) ≡ complaints k
lowers-complaints none = refl
lowers-complaints (some (struct fields)) = lowers-fields fields
lowers-complaints (some (slice u)) = refl
lowers-complaints (some (array u)) = refl
lowers-complaints (some (ptr u)) = refl
lowers-complaints (some (dict key value)) = refl
lowers-complaints (some other) = refl

all_lowers-complaints :
    (types : List Kind) (ts : List ℕ) → all_lowers types ts ≡ all_complaints types ts
all_lowers-complaints types [] = refl
all_lowers-complaints types (t ∷ ts) =
    omega (arith, lowers-complaints (get_elem? types t), all_lowers-complaints types ts)

-- The types that are visited are those that the type contains, each once, and the complaints are
-- their lower-case fields.
pub record IsReport (types : List Kind) (t : ℕ) (st : Checks) : Type 0 where
  pub visited : List ℕ
  pub once : NoDup visited
  pub sound : (u : ℕ) → member u visited ≡ true → Contains types t u
  pub complete : (u : ℕ) → Contains types t u → member u visited ≡ true
  pub kept : (u : ℕ) → member u st.checked ≡ member u visited
  pub errors : st.error_count ≡ all_complaints types visited

-- Before anything was checked, the check of a type ends for every fuel above the number of types,
-- also when types refer to each other in circles: it visits the type and all that it is made of, by
-- its fields, elements and map keys, each once, keeps exactly those as checked, and counts each
-- lower-case field of a struct among them once.
pub check_type-IsReport :
    (types : List Kind) (fuel t : ℕ)
    → length types < fuel
    → (st : Checks) × (check_type types fuel t (record { checked = []; error_count = 0 }) ≡ some st)
      × IsReport types t st
check_type-IsReport types fuel t h =
    let blank : Checks = record { checked = []; error_count = 0 } in
    let (st, e, w) =
      check_type-Walked types fuel t blank (omega (arith, h, left-bound (length types) [])) in
    let all : (x : ℕ) → member x st.checked ≡ member x w.news =
      (λ x. ground (arith, w.checked x)) in
    (
      st,
      e,
      record {
        visited = w.news;
        once = w.once;
        sound = λ u m.
            let (r, n, z) = w.reached u m in
            Reaches-Contains types t u
              (subst (λ x. Reaches types x u) (let q : r ≡ t = ground arith in q) z);
        complete = λ u c.
            Reaches-closed types w.news t u (λ v x m n. ground (arith, w.closed v x m n, all x))
              (Contains-Reaches types t u c) (ground (arith, w.at_roots t, all t));
        kept = all;
        errors = omega (arith, w.errors, all_lowers-complaints types w.news);
      },
    )
