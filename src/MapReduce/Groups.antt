-- ===== src/MapReduce/Groups.antt =====
-- The groups of sorted pairs: each key once, with all its values.
use gopher.Prelude.{
  ℕ, zero, suc, ◌≤◌, ◌≡◌, ◌≢◌, refl, subst, List, [], ◌∷◌, Option, none, some, false, arith, length,
  map, keep, All, inl, inr, Bool-cases,
}
use gopher.Prelude.Dict.{lookup, Distinct}
use gopher.Prelude.Classes.{bytes_key, bytes_eq, bytes_eq_iff}
use gopher.MapReduce.{Text, KeyValue, less_text, less, run_of, groups}

-- Ascending as `sort.Sort` leaves it: no pair is less than an earlier one.
unfoldable pub Sorted : List KeyValue → Type 0
Sorted [] = Unit
Sorted (kv ∷ kvs) = All (λ other. less other kv ≡ false) kvs × Sorted kvs

-- Texts of which neither is less are the same.
less_text-total : (a b : Text) → less_text a b ≡ false → less_text b a ≡ false → a ≡ b
unfolding less_text
less_text-total [] [] h k = refl
less_text-total [] (y ∷ b) h k = absurd (ground arith)
less_text-total (x ∷ a) [] h k = absurd (ground arith)
less_text-total (x ∷ a) (y ∷ b) h k =
    let same : x ≡ y = ground arith in
    ground (arith, less_text-total a b (ground arith) (ground arith))

-- The pairs of a key, and their values.
abbrev pub with_key : Text → List KeyValue → List KeyValue
with_key k = keep (λ kv. bytes_eq kv.key k)

abbrev pub values_of : Text → List KeyValue → List Text
values_of k kvs = map (λ kv. kv.value) (with_key k kvs)

abbrev pub if_any : List Text → Option (List Text)
if_any [] = none
if_any (v ∷ vs) = some (v ∷ vs)

-- Every pair is at least one with the key.
abbrev From : Text → List KeyValue → Type 0
From k = All (λ kv. less_text kv.key k ≡ false)

with_key-later :
    (k : Text) (kv : KeyValue) (kvs : List KeyValue)
    → less_text kv.key k ≡ false
    → kv.key ≢ k
    → All (λ other. less other kv ≡ false) kvs
    → with_key k kvs ≡ []
with_key-later k kv [] f n h = refl
with_key-later k kv (other ∷ kvs) f n h = elim (Bool-cases (bytes_eq other.key k)) [
  | inl e ↦ absurd (
      ground (
        arith,
        bytes_eq_iff other.key k,
        less_text-total kv.key other.key (ground (arith, bytes_eq_iff other.key k)) h.0,
      ))
  | inr e ↦ ground (arith, with_key-later k kv kvs f n h.1)
]

-- The run of a key is all its values, and what follows is as sorted as before and has all other
-- pairs.
record Run (k : Text) (kvs : List KeyValue) : Type 0 where
  taken : (run_of k kvs).0 ≡ values_of k kvs
  gone : with_key k (run_of k kvs).1 ≡ []
  others : (j : Text) → j ≢ k → with_key j (run_of k kvs).1 ≡ with_key j kvs
  still : Sorted (run_of k kvs).1
  shorter : length (run_of k kvs).1 ≤ length kvs

run_of-Sorted : (k : Text) (kvs : List KeyValue) → From k kvs → Sorted kvs → Run k kvs
unfolding run_of Sorted
run_of-Sorted k [] f s = record {
  taken = refl;
  gone = refl;
  others = λ j n. refl;
  still = tt;
  shorter = omega arith;
}
run_of-Sorted k (kv ∷ kvs) f s =
    let run = run_of-Sorted k kvs f.1 s.1 in
    elim (Bool-cases (bytes_eq kv.key k)) [
      | inl e ↦
          let cut : (run_of k kvs).1 ≡ (run_of k (kv ∷ kvs)).1 = ground arith in
          record {
            taken = ground (arith, run.taken);
            gone = ground (arith, run.gone);
            others =
                λ j n. ground (arith, run.others j n, bytes_eq_iff kv.key k, bytes_eq_iff kv.key j);
            still = subst Sorted cut run.still;
            shorter = ground (arith, run.shorter);
          }
      | inr e ↦
          let stop : kv ∷ kvs ≡ (run_of k (kv ∷ kvs)).1 = ground arith in
          let other : kv.key ≢ k = ground (arith, bytes_eq_iff kv.key k) in
          let later = with_key-later k kv kvs f.0 other s.0 in
          record {
            taken = ground (arith, later);
            gone = ground (arith, later);
            others = λ j n. ground arith;
            still = subst Sorted stop s;
            shorter = ground arith;
          }
    ]

-- When the pairs are sorted, the groups have each key once, a key of the pairs with all its values
-- in the order in which the pairs stand, and no other key.
pub groups-Sorted :
    (fuel : ℕ) (kvs : List KeyValue)
    → Sorted kvs
    → length kvs ≤ fuel
    → Distinct (groups fuel kvs)
      × ((k : Text) → lookup k (groups fuel kvs) ≡ if_any (values_of k kvs))
unfolding groups Sorted lookup
groups-Sorted zero [] s h = (tt, λ k. refl)
groups-Sorted (suc fuel) [] s h = (tt, λ k. refl)
groups-Sorted zero (kv ∷ kvs) s h = absurd (omega arith)
groups-Sorted (suc fuel) (kv ∷ kvs) s h =
    let run = run_of-Sorted kv.key kvs s.0 s.1 in
    let rest = (run_of kv.key kvs).1 in
    let (once, all) = groups-Sorted fuel rest run.still (omega (arith, run.shorter)) in
    (
      (ground (arith, all kv.key, run.gone), once),
      λ k. elim (Bool-cases (bytes_eq kv.key k)) [
        | inl e ↦ ground (arith, bytes_eq_iff kv.key k, run.taken)
        | inr e ↦ ground (arith, bytes_eq_iff kv.key k, all k, run.others k)
      ],
    )
