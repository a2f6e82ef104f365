-- ===== src/MapReduce/Tests.antt =====
-- Two files are counted.
use gopher.Prelude.{
  ℕ, ◌≡◌, ◌≢◌, refl, sym, ap, ◌∙◌, subst, List, [], ◌∷◌, ◌++◌, none, some, Bool, true, false, not,
  ltb, ◌==◌, arith, if◌then◌else◌, length, map, keep, All, Bool-cases, inl, inr,
}
use gopher.Prelude.Integers.{pos, itoa}
use gopher.Prelude.Dict.{lookup, Distinct}
use gopher.Prelude.Classes.{bytes_key, bytes_eq}
use gopher.MapReduce.{
  Text, KeyValue, less_text, map_files, groups, sequential, fields_func, wc_map, wc_reduce, run_of,
}
use gopher.MapReduce.Groups.{Sorted}
use gopher.MapReduce.WordCount.{words_of, count, sequential-wc_map}

abbrev letter : ℕ → Bool
letter c = ltb 96 c

-- "b, a" and "b."
abbrev texts : List (Text × Text)
texts = ([], 98 ∷ 44 ∷ 32 ∷ 97 ∷ []) ∷ ([], 98 ∷ 46 ∷ []) ∷ []

abbrev one : Text → KeyValue
one w = record { key = w; value = 49 ∷ [] }

abbrev insert_pair : KeyValue → List KeyValue → List KeyValue
insert_pair kv [] = kv ∷ []
insert_pair kv (other ∷ kvs) =
    let rest = insert_pair kv kvs in
    if less_text other.key kv.key then other ∷ rest else kv ∷ other ∷ kvs

abbrev sort_pairs : List KeyValue → List KeyValue
sort_pairs [] = []
sort_pairs (kv ∷ kvs) = insert_pair kv (sort_pairs kvs)

mapped : map_files (wc_map letter) texts ≡ one (98 ∷ []) ∷ one (97 ∷ []) ∷ one (98 ∷ []) ∷ []
unfolding map_files wc_map fields_func bytes_eq
mapped = refl

in_order :
    sort_pairs (map_files (wc_map letter) texts)
    ≡ one (97 ∷ []) ∷ one (98 ∷ []) ∷ one (98 ∷ []) ∷ []
unfolding map_files wc_map fields_func bytes_eq less_text
in_order = refl

order-Sorted : Sorted (one (97 ∷ []) ∷ one (98 ∷ []) ∷ one (98 ∷ []) ∷ [])
unfolding Sorted less_text
order-Sorted = ((refl, (refl, tt)), ((refl, tt), (tt, tt)))

texts-Sorted : Sorted (sort_pairs (map_files (wc_map letter) texts))
texts-Sorted = subst Sorted (sym in_order) order-Sorted

kept_alike :
    (p : KeyValue → Bool)
    → length (keep p (sort_pairs (map_files (wc_map letter) texts)))
      ≡ length (keep p (map_files (wc_map letter) texts))
kept_alike p =
    ap (λ kvs. length (keep p kvs)) in_order ∙ swap ∙ sym (ap (λ kvs. length (keep p kvs)) mapped)
  where
    swap :
        length (keep p (one (97 ∷ []) ∷ one (98 ∷ []) ∷ one (98 ∷ []) ∷ []))
        ≡ length (keep p (one (98 ∷ []) ∷ one (97 ∷ []) ∷ one (98 ∷ []) ∷ []))
    swap = elim (Bool-cases (p (one (97 ∷ [])))) [
      | inl a ↦ elim (Bool-cases (p (one (98 ∷ [])))) [
        | inl b ↦ ground arith
        | inr b ↦ ground arith
      ]
      | inr a ↦ elim (Bool-cases (p (one (98 ∷ [])))) [
        | inl b ↦ ground arith
        | inr b ↦ ground arith
      ]
    ]

counted :
    sequential (wc_map letter) wc_reduce sort_pairs texts
    ≡ (97 ∷ [], 49 ∷ []) ∷ (98 ∷ [], 50 ∷ []) ∷ []
unfolding sequential groups map_files wc_map fields_func bytes_eq less_text wc_reduce run_of itoa
    gopher.Prelude.Integers.digits
counted = refl

sequential-wc_map_example :
    let output = sequential (wc_map letter) wc_reduce sort_pairs texts in
    Distinct output
    × ((w : Text)
        → lookup w output ≡ (
            if count w (words_of letter texts) == 0
            then none
            else some (itoa (pos (count w (words_of letter texts))))))
sequential-wc_map_example = sequential-wc_map letter sort_pairs texts texts-Sorted kept_alike
