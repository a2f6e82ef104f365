-- ===== src/Labs/KvModel.antt =====
-- 6.5840/src/models/kv.go: the sequential model of one key against which histories are checked.
-- Texts are lists of bytes, and the other fields of a checked operation stand in `A`.
use mathlib.Core.List.{append_assoc, append-nil}
use mathlib.Core.Path.{fun_ext}
use gopher.Prelude.{
  ℕ, ◌≡◌, refl, ◌∙◌, List, [], ◌∷◌, ◌++◌, Option, none, some, Bool, true, ◌==◌, arith,
  if◌then◌else◌, map, keep, ap, sym, ◌&&◌, All, Bool-cases, inl, inr, ◌≢◌,
}
use gopher.Prelude.Dict.{Dict, lookup, insert, lookup-insert, Distinct, Distinct-insert}
use gopher.Prelude.Classes.{bytes_key, bytes_eq, bytes_eq_iff}

-- 0 is get, 1 is put, and any other number is append.
pub record KvInput : Type 0 where
  pub op : ℕ
  pub key : List ℕ
  pub value : List ℕ

pub record Operation (A : Type 0) : Type 0 where
  pub input : KvInput
  pub output : List ℕ
  pub rest : A

abbrev pub init : List ℕ
init = []

unfoldable pub step : List ℕ → KvInput → List ℕ → Bool × List ℕ
step state inp out =
    if inp.op == 0
    then (bytes_eq out state, state)
    else if inp.op == 1
    then (true, inp.value)
    else (true, state ++ inp.value)

module _ {A : Type 0} where
  abbrev pub or_empty : Option (List (Operation A)) → List (Operation A)
  or_empty none = []
  or_empty (some ops) = ops

  -- The first loop of `Partition`.
  unfoldable pub by_key :
      List (Operation A) → Dict (List ℕ) (List (Operation A)) → Dict (List ℕ) (List (Operation A))
  by_key [] m = m
  by_key (v ∷ history) m =
      by_key history (insert v.input.key (or_empty (lookup v.input.key m) ++ (v ∷ [])) m)

  -- `sort` stands for `sort.Strings`, on the keys of the dictionary.
  unfoldable pub partition :
      (List (List ℕ) → List (List ℕ)) → List (Operation A) → List (List (Operation A))
  unfolding by_key
  partition sort history =
      let m = by_key history [] in map (λ k. or_empty (lookup k m)) (sort (map (λ e. e.0) m))

  -- The operations on one key.
  abbrev pub on_key : List ℕ → List (Operation A) → List (Operation A)
  on_key k = keep (λ v. bytes_eq v.input.key k)

  -- What a key has after a history: what it had, and its operations in their order.
  abbrev with_ops : Option (List (Operation A)) → List (Operation A) → Option (List (Operation A))
  with_ops old [] = old
  with_ops old (v ∷ ops) = some (or_empty old ++ (v ∷ ops))

  with_ops-cons :
      (old : Option (List (Operation A))) (v : Operation A) (ops : List (Operation A))
      → with_ops (some (or_empty old ++ (v ∷ []))) ops ≡ with_ops old (v ∷ ops)
  with_ops-cons old v [] = refl
  with_ops-cons old v (w ∷ ops) = ap some (append_assoc (or_empty old) (v ∷ []) (w ∷ ops))

  lookup-by_key :
      (history : List (Operation A)) (m : Dict (List ℕ) (List (Operation A))) (k : List ℕ)
      → lookup k (by_key history m) ≡ with_ops (lookup k m) (on_key k history)
  unfolding by_key
  lookup-by_key [] m k = refl
  lookup-by_key (v ∷ history) m k =
      let ops = or_empty (lookup v.input.key m) ++ (v ∷ []) in
      lookup-by_key history (insert v.input.key ops m) k
      ∙ (elim (Bool-cases (bytes_eq v.input.key k)) [
        | inl e ↦ ground (
          arith,
          bytes_eq_iff v.input.key k,
          lookup-insert v.input.key k ops m,
          with_ops-cons (lookup k m) v (on_key k history),
        )
        | inr e ↦ ground (arith, lookup-insert v.input.key k ops m)
      ])

  Distinct-by_key :
      (history : List (Operation A)) (m : Dict (List ℕ) (List (Operation A)))
      → Distinct m
      → Distinct (by_key history m)
  unfolding by_key
  Distinct-by_key [] m d = d
  Distinct-by_key (v ∷ history) m d =
      let ops = or_empty (lookup v.input.key m) ++ (v ∷ []) in
      Distinct-by_key history (insert v.input.key ops m) (Distinct-insert v.input.key ops m d)

  or_empty-with_ops : (ops : List (Operation A)) → or_empty (with_ops none ops) ≡ ops
  or_empty-with_ops [] = refl
  or_empty-with_ops (v ∷ ops) = refl

  -- The partitions are, for the sorted keys, the operations of the history on that key in their
  -- order; no key stands twice, and a key stands there exactly when the history has it.
  pub partition-on_key :
      (sort : List (List ℕ) → List (List ℕ)) (history : List (Operation A))
      → (partition sort history
          ≡ map (λ k. on_key k history) (sort (map (λ e. e.0) (by_key history []))))
        × Distinct (by_key history [])
        × ((k : List ℕ)
            → lookup k (by_key history [])
              ≡ (elim (on_key k history) [ [] ↦ none | v ∷ ops ↦ some (v ∷ ops) ]))
  unfolding partition lookup
  partition-on_key sort history = (
    ap (λ (f : List ℕ → List (Operation A)). map f (sort (map (λ e. e.0) (by_key history []))))
        (fun_ext
          λ k. ap or_empty (lookup-by_key history [] k) ∙ or_empty-with_ops (on_key k history)),
    Distinct-by_key history [] tt,
    λ k. lookup-by_key history [] k ∙ as_lookup (on_key k history),
  )
    where
      as_lookup :
          (ops : List (Operation A))
          → with_ops none ops ≡ (elim ops [ [] ↦ none | v ∷ ops ↦ some (v ∷ ops) ])
      as_lookup [] = refl
      as_lookup (v ∷ ops) = refl

-- A sequence of operations with their outputs, checked one after the other from a state.
unfoldable pub run_steps : List ℕ → List (KvInput × List ℕ) → Bool × List ℕ
run_steps state [] = (true, state)
run_steps state ((inp, out) ∷ ops) =
    let (ok, next) = step state inp out in let rest = run_steps next ops in (ok && rest.0, rest.1)

-- What the operations append, each get and append in its order.
abbrev pub appended : List (KvInput × List ℕ) → List ℕ
appended [] = []
appended ((inp, out) ∷ ops) =
    let rest = appended ops in if inp.op == 0 then rest else inp.value ++ rest

abbrev pub NoPut : List (KvInput × List ℕ) → Type 0
NoPut = All (λ o. o.0.op ≢ 1)

run_steps-NoPut :
    (state : List ℕ) (ops : List (KvInput × List ℕ))
    → NoPut ops
    → (run_steps state ops).1 ≡ state ++ appended ops
unfolding run_steps step
run_steps-NoPut state [] h = sym (append-nil state)
run_steps-NoPut state ((inp, out) ∷ ops) h = elim (Bool-cases (inp.op == 0)) [
  | inl e ↦ ground (arith, run_steps-NoPut state ops h.1)
  | inr e ↦ ground (
    arith,
    h.0,
    run_steps-NoPut (state ++ inp.value) ops h.1,
    append_assoc state inp.value (appended ops),
  )
]

run_steps-append :
    (state : List ℕ) (before after : List (KvInput × List ℕ))
    → (run_steps state (before ++ after)).1 ≡ (run_steps (run_steps state before).1 after).1
unfolding run_steps
run_steps-append state [] after = refl
run_steps-append state ((inp, out) ∷ before) after =
    run_steps-append (step state inp out).1 before after

-- Whatever came before, when a put is followed by gets and appends only, a get is accepted exactly
-- when it saw the value of that put followed by the appended values in their order.
pub step-run_steps :
    (state v k out : List ℕ) (before after : List (KvInput × List ℕ)) (o : List ℕ) (get : KvInput)
    → NoPut after
    → get.op ≡ 0
    → let put : KvInput = record { op = 1; key = k; value = v } in
      let now = (run_steps state (before ++ ((put, o) ∷ after))).1 in
      ((step now get out).0 ≡ true → out ≡ v ++ appended after)
      × (out ≡ v ++ appended after → (step now get out).0 ≡ true)
      × ((step now get out).1 ≡ now)
unfolding step run_steps
step-run_steps state v k out before after o get h z =
    let put : KvInput = record { op = 1; key = k; value = v } in
    let now = (run_steps state (before ++ ((put, o) ∷ after))).1 in
    let value : now ≡ v ++ appended after =
      run_steps-append state before ((put, o) ∷ after) ∙ run_steps-NoPut v after h in
    (
      λ s. ground (arith, bytes_eq_iff out now),
      λ e. ground (arith, bytes_eq_iff out now),
      ground arith,
    )
