-- ===== src/MapReduce.antt =====
-- 6.5840/src/main/mrsequential.go and the applications of 6.5840/src/mrapps. Texts are lists of
-- runes, and compared as such.
pub mod Groups
pub mod WordCount
mod Tests
use gopher.Prelude.{
  ℕ, zero, suc, List, [], ◌∷◌, ◌++◌, Bool, true, false, not, ltb, ◌==◌, if◌then◌else◌, length, map,
}
use gopher.Prelude.Integers.{pos, itoa}
use gopher.Prelude.Classes.{bytes_eq}

abbrev pub Text : Type 0
Text = List ℕ

pub record KeyValue : Type 0 where
  pub key : Text
  pub value : Text

-- `<` on texts.
unfoldable pub less_text : Text → Text → Bool
less_text [] [] = false
less_text [] (y ∷ b) = true
less_text (x ∷ a) [] = false
less_text (x ∷ a) (y ∷ b) =
    let rest = less_text a b in if ltb x y then true else if x == y then rest else false

-- `ByKey.Less`
abbrev pub less : KeyValue → KeyValue → Bool
less a b = less_text a.key b.key

-- The first loop of `main`: a file is its name and its contents.
unfoldable pub map_files : (Text → Text → List KeyValue) → List (Text × Text) → List KeyValue
map_files mapf [] = []
map_files mapf ((filename, content) ∷ files) = mapf filename content ++ map_files mapf files

-- The inner loops: the values of the pairs at the front that have the key, and what follows.
unfoldable pub run_of : Text → List KeyValue → List Text × List KeyValue
run_of key [] = ([], [])
run_of key (kv ∷ kvs) =
    let rest = run_of key kvs in
    if bytes_eq kv.key key then (kv.value ∷ rest.0, rest.1) else ([], kv ∷ kvs)

-- The outer loop: each run of a key, with its values. A round takes at least one pair, so that the
-- number of pairs is enough fuel.
unfoldable pub groups : ℕ → List KeyValue → List (Text × List Text)
groups zero kvs = []
groups (suc fuel) [] = []
groups (suc fuel) (kv ∷ kvs) =
    (kv.key, kv.value ∷ (run_of kv.key kvs).0) ∷ groups fuel (run_of kv.key kvs).1

-- The lines of the output: a key, and what Reduce makes of its values. `sort` stands for
-- `sort.Sort`, which may put pairs with the same key in any order.
unfoldable pub sequential :
    (Text → Text → List KeyValue)
    → (Text → List Text → Text)
    → (List KeyValue → List KeyValue)
    → List (Text × Text)
    → List (Text × Text)
sequential mapf reducef sort files =
    let intermediate = sort (map_files mapf files) in
    map (λ g. (g.0, reducef g.0 g.1)) (groups (length intermediate) intermediate)

-- `strings.FieldsFunc`: the longest runs of runes that are no separators.
unfoldable pub fields_func : (ℕ → Bool) → Text → Text → List Text
fields_func sep word [] = if bytes_eq word [] then [] else word ∷ []
fields_func sep word (c ∷ s) =
    let more = fields_func sep (word ++ (c ∷ [])) s in
    let next = fields_func sep [] s in
    if sep c then (if bytes_eq word [] then next else word ∷ next) else more

-- wc.go: `is_letter` stands for `unicode.IsLetter`.
unfoldable pub wc_map : (ℕ → Bool) → Text → Text → List KeyValue
wc_map is_letter filename contents =
    map (λ w. record { key = w; value = 49 ∷ [] })
      (fields_func (λ r. not (is_letter r)) [] contents)

unfoldable pub wc_reduce : Text → List Text → Text
wc_reduce key values = itoa (pos (length values))
