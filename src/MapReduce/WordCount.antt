-- ===== src/MapReduce/WordCount.antt =====
-- What the whole program computes with the word count application.
use mathlib.Core.List.{append_assoc}
use gopher.Prelude.{
  ℕ, ◌≡◌, ◌≢◌, refl, sym, ap, ◌∙◌, List, [], ◌∷◌, ◌++◌, Option, none, some, Bool, not, subst, ◌==◌,
  arith, if◌then◌else◌, length, map, keep, keep-append, length-append, All, inl, inr, Bool-cases,
}
use gopher.Prelude.Integers.{pos, itoa}
use gopher.Prelude.Dict.{lookup, Distinct}
use gopher.Prelude.Classes.{bytes_key, bytes_eq, bytes_eq_iff}
use gopher.MapReduce.{Text, KeyValue, map_files, groups, sequential, fields_func, wc_map, wc_reduce}
use gopher.MapReduce.Groups.{Sorted, with_key, values_of, if_any, groups-Sorted}

-- The words of all files, and how often a word stands among them.
abbrev pub words_of : (ℕ → Bool) → List (Text × Text) → List Text
words_of is_letter [] = []
words_of is_letter ((filename, contents) ∷ files) =
    fields_func (λ r. not (is_letter r)) [] contents ++ words_of is_letter files

abbrev pub count : Text → List Text → ℕ
count w ws = length (keep (λ v. bytes_eq v w) ws)

keep-map :
    (w : Text) (ws : List Text)
    → length (with_key w (map (λ v. record { key = v; value = 49 ∷ [] }) ws)) ≡ count w ws
keep-map w [] = refl
keep-map w (v ∷ ws) = ground (arith, keep-map w ws)

with_key-map_files :
    (is_letter : ℕ → Bool) (w : Text) (files : List (Text × Text))
    → length (with_key w (map_files (wc_map is_letter) files)) ≡ count w (words_of is_letter files)
unfolding map_files wc_map
with_key-map_files is_letter w [] = refl
with_key-map_files is_letter w ((filename, contents) ∷ files) =
    let ws = fields_func (λ r. not (is_letter r)) [] contents in
    let p : KeyValue → Bool = λ kv. bytes_eq kv.key w in
    let q : Text → Bool = λ v. bytes_eq v w in
    let kvs : List KeyValue = map (λ v. record { key = v; value = 49 ∷ [] }) ws in
    let others = map_files (wc_map is_letter) files in
    let rest = with_key-map_files is_letter w files in
    let here = keep-map w ws in
    let split = ap length (keep-append p kvs others) ∙ length-append (keep p kvs) (keep p others) in
    let split2 =
      ap length (keep-append q ws (words_of is_letter files))
      ∙ length-append (keep q ws) (keep q (words_of is_letter files)) in
    omega (arith, rest, here, split, split2)

lookup-map :
    (f : Text → List Text → Text) (k : Text) (gs : List (Text × List Text))
    → lookup k (map (λ g. (g.0, f g.0 g.1)) gs)
      ≡ (elim (lookup k gs) [ none ↦ none | some vs ↦ some (f k vs) ])
unfolding lookup
lookup-map f k [] = refl
lookup-map f k ((j, vs) ∷ gs) = ground (arith, bytes_eq_iff j k, lookup-map f k gs)

Distinct-map :
    (f : Text → List Text → Text) (gs : List (Text × List Text))
    → Distinct gs
    → Distinct (map (λ g. (g.0, f g.0 g.1)) gs)
Distinct-map f [] d = tt
Distinct-map f ((j, vs) ∷ gs) d = (ground (arith, lookup-map f j gs, d.0), Distinct-map f gs d.1)

if_any-count :
    (k : Text) (vs : List Text) (n : ℕ)
    → length vs ≡ n
    → (elim (if_any vs) [ none ↦ none | some us ↦ some (wc_reduce k us) ])
      ≡ (if n == 0 then none else some (itoa (pos n)))
unfolding wc_reduce
if_any-count k [] n e = ground arith
if_any-count k (v ∷ vs) n e = ground arith

length-values :
    (k : Text) (kvs : List KeyValue) → length (values_of k kvs) ≡ length (with_key k kvs)
length-values k [] = refl
length-values k (kv ∷ kvs) = ground (arith, length-values k kvs)

-- When sorting leaves the pairs ascending and neither adds nor loses one, the output has one line
-- for each word that stands in some file, with the number of times that it stands in all files, and
-- no other line.
pub sequential-wc_map :
    (is_letter : ℕ → Bool) (sort : List KeyValue → List KeyValue) (files : List (Text × Text))
    → Sorted (sort (map_files (wc_map is_letter) files))
    → ((p : KeyValue → Bool)
        → length (keep p (sort (map_files (wc_map is_letter) files)))
          ≡ length (keep p (map_files (wc_map is_letter) files)))
    → let output = sequential (wc_map is_letter) wc_reduce sort files in
      Distinct output
      × ((w : Text)
          → lookup w output ≡ (
              if count w (words_of is_letter files) == 0
              then none
              else some (itoa (pos (count w (words_of is_letter files))))))
unfolding sequential
sequential-wc_map is_letter sort files sorted same =
    let kvs = sort (map_files (wc_map is_letter) files) in
    let grouped = groups-Sorted (length kvs) kvs sorted (omega arith) in
    let lines = groups (length kvs) kvs in
    (
      Distinct-map wc_reduce lines grouped.0,
      λ w.
          lookup-map wc_reduce w lines
          ∙ ap
              (λ (found : Option (List Text)). elim found [
                | none ↦ none
                | some us ↦ some (wc_reduce w us)
              ])
              (grouped.1 w)
          ∙ if_any-count w (values_of w kvs) (count w (words_of is_letter files)) (
              length-values w kvs
              ∙ same (λ kv. bytes_eq kv.key w)
              ∙ with_key-map_files is_letter w files),
    )

abbrev pub joined : List Text → Text
joined [] = []
joined (w ∷ ws) = w ++ joined ws

joined-fields_func :
    (sep : ℕ → Bool) (word s : Text)
    → joined (fields_func sep word s) ≡ word ++ keep (λ c. not (sep c)) s
unfolding fields_func
joined-fields_func sep word [] = elim (Bool-cases (bytes_eq word [])) [
  | inl e ↦ ground (arith, bytes_eq_iff word [])
  | inr e ↦ ground arith
]
joined-fields_func sep word (c ∷ s) =
    let next = joined-fields_func sep [] s in
    elim (Bool-cases (sep c)) [
      | inl t ↦ elim (Bool-cases (bytes_eq word [])) [
        | inl e ↦ ground (arith, bytes_eq_iff word [], next)
        | inr e ↦ ground (arith, next)
      ]
      | inr t ↦ ground (
        arith,
        joined-fields_func sep (word ++ (c ∷ [])) s,
        append_assoc word (c ∷ []) (keep (λ r. not (sep r)) s),
      )
    ]

All-flush :
    (word : Text) (next : List Text)
    → All (λ w. w ≢ []) next
    → All (λ w. w ≢ []) (if bytes_eq word [] then next else word ∷ next)
All-flush word next h = elim (Bool-cases (bytes_eq word [])) [
  | inl e ↦ subst (λ b. All (λ (w : Text). w ≢ []) (if b then next else word ∷ next)) (sym e) h
  | inr e ↦
      subst (λ b. All (λ (w : Text). w ≢ []) (if b then next else word ∷ next)) (sym e)
        (λ n. ground (arith, bytes_eq_iff word []), h)
]

All-fields_func : (sep : ℕ → Bool) (word s : Text) → All (λ w. w ≢ []) (fields_func sep word s)
unfolding fields_func
All-fields_func sep word [] = All-flush word [] tt
All-fields_func sep word (c ∷ s) =
    let next = fields_func sep [] s in
    let flushed = (if bytes_eq word [] then next else word ∷ next) in
    let more = fields_func sep (word ++ (c ∷ [])) s in
    elim (Bool-cases (sep c)) [
      | inl t ↦
          subst (λ b. All (λ (w : Text). w ≢ []) (if b then flushed else more)) (sym t)
            (All-flush word next (All-fields_func sep [] s))
      | inr t ↦
          subst (λ b. All (λ (w : Text). w ≢ []) (if b then flushed else more)) (sym t)
            (All-fields_func sep (word ++ (c ∷ [])) s)
    ]

letters_only :
    (is_letter : ℕ → Bool) (s : Text) → keep (λ c. not (not (is_letter c))) s ≡ keep is_letter s
letters_only is_letter [] = refl
letters_only is_letter (c ∷ s) = elim (Bool-cases (is_letter c)) [
  | inl e ↦ ground (arith, letters_only is_letter s)
  | inr e ↦ ground (arith, letters_only is_letter s)
]

-- The words of a file, one after the other, are exactly its letters in their order, and no word is
-- empty.
pub wc_map-fields_func :
    (is_letter : ℕ → Bool) (filename contents : Text)
    → let words = map (λ (kv : KeyValue). kv.key) (wc_map is_letter filename contents) in
      (joined words ≡ keep is_letter contents) × All (λ w. w ≢ []) words
unfolding wc_map
wc_map-fields_func is_letter filename contents =
    let ws = fields_func (λ r. not (is_letter r)) [] contents in
    (
      ap joined (keys ws)
          ∙ joined-fields_func (λ r. not (is_letter r)) [] contents
          ∙ letters_only is_letter contents,
      subst (All (λ (w : Text). w ≢ [])) (sym (keys ws))
          (All-fields_func (λ r. not (is_letter r)) [] contents),
    )
  where
    keys :
        (ws : List Text)
        → map (λ (kv : KeyValue). kv.key) (map (λ w. record { key = w; value = 49 ∷ [] }) ws) ≡ ws
    keys [] = refl
    keys (w ∷ ws) = ap (λ vs. w ∷ vs) (keys ws)
