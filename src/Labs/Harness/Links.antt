-- ===== src/Labs/Harness/Links.antt =====
-- The loops of 6.5840/src/kvraft/config.go as changes of the matrix of links: which end of which
-- server is switched on.
use gopher.Prelude.{
  ℕ, suc, ◌+◌, ◌<◌, ◌≤◌, ◌≡◌, refl, List, [], ◌∷◌, none, some, Bool, true, false, ◌&&◌, ◌||◌, ◌==◌,
  if◌then◌else◌, length, get_elem?, All, member, arith, Option-cases, inl, inr,
}
use gopher.Prelude.Dict.{lookup, lookup-insert}
use gopher.Prelude.Classes.{nat_key}
use gopher.Labs.Labrpc.{Run, done, Network, enable, enabled_or_false}
use gopher.Labs.Harness.{
  Endnames, endname_at, enable_outgoing, enable_incoming, connect_unlocked, disable_outgoing,
  disable_incoming, disconnect_unlocked,
}

-- Every server has an end for every server, and no two ends have the same name.
pub record IsWired (names : Endnames) (n : ℕ) : Type 0 where
  pub named : (i j : ℕ) → i < n → j < n → (e : ℕ) × (endname_at names i j ≡ some e)
  pub apart :
      (i j k l e : ℕ)
      → endname_at names i j ≡ some e
      → endname_at names k l ≡ some e
      → (i ≡ k) × (j ≡ l)

pub row_of :
    (names : Endnames) (i j e : ℕ)
    → endname_at names i j ≡ some e
    → (row : List ℕ) × (get_elem? names i ≡ some (some row)) × (get_elem? row j ≡ some e)
unfolding endname_at
row_of names i j e h = elim (Option-cases (get_elem? names i)) [
  | inl o ↦ absurd (ground arith)
  | inr (none, o) ↦ absurd (ground arith)
  | inr (some row, o) ↦ (row, o, ground arith)
]

-- The matrix after `i` was attached to `to`, and after it was detached from `from`.
abbrev pub attached : ℕ → List ℕ → (ℕ → ℕ → Bool) → ℕ → ℕ → Bool
attached i to links a b =
    if (a == i && member b to) || (b == i && member a to) then true else links a b

abbrev pub detached : ℕ → List ℕ → (ℕ → ℕ → Bool) → ℕ → ℕ → Bool
detached i from links a b =
    if (a == i && member b from) || (b == i && member a from) then false else links a b

module _ {W : Type 0} where
  abbrev pub is_on : Network W → ℕ → Bool
  is_on rn endname = enabled_or_false (lookup endname rn.enabled)

  -- The end from server `a` to server `b` is switched on exactly where the matrix says so.
  abbrev pub HasLinks : Endnames → Network W → (ℕ → ℕ → Bool) → Type 0
  HasLinks names rn links = (a b e : ℕ) → endname_at names a b ≡ some e → is_on rn e ≡ links a b

  -- A call that ends with the given links and changes nothing but switches.
  abbrev pub Sets : Endnames → Network W → (Network W → Run (Network W)) → (ℕ → ℕ → Bool) → Type 0
  Sets names rn f links =
      (rn' : Network W) × (f rn ≡ done rn')
      × (rn' ≡ record rn { enabled = rn'.enabled })
      × HasLinks names rn' links

  -- The links of a network as they are.
  abbrev pub links_of : Endnames → Network W → ℕ → ℕ → Bool
  links_of names rn a b = elim (endname_at names a b) [ none ↦ false | some e ↦ is_on rn e ]

  pub HasLinks-links_of :
      (names : Endnames) (rn : Network W) → HasLinks names rn (links_of names rn)
  HasLinks-links_of names rn a b e named = ground arith

  pub HasLinks-enable :
      (names : Endnames) (n : ℕ) (rn : Network W) (links : ℕ → ℕ → Bool) (i j e : ℕ) (on : Bool)
      → IsWired names n
      → HasLinks names rn links
      → endname_at names i j ≡ some e
      → HasLinks names (enable rn e on) (λ a b. if a == i && b == j then on else links a b)
  unfolding enable
  HasLinks-enable names n rn links i j e on wired h found a b d named =
      ground (arith, lookup-insert e d on rn.enabled, h a b d named, wired.apart i j a b e found)

  pub enable_outgoing-Sets :
      (names : Endnames) (n i : ℕ) (to : List ℕ) (rn : Network W) (links : ℕ → ℕ → Bool)
      → IsWired names n
      → i < n
      → All (λ t. t < n) to
      → HasLinks names rn links
      → Sets names rn
          (enable_outgoing names i to)
          (λ a b. if a == i && member b to then true else links a b)
  unfolding enable_outgoing enable
  enable_outgoing-Sets names n i [] rn links wired hi ht h =
      (rn, refl, refl, λ a b e named. ground (arith, h a b e named))
  enable_outgoing-Sets names n i (t ∷ to) rn links wired hi ht h =
      let (e, found) = wired.named i t hi ht.0 in
      let (rn', r, same, h') =
        enable_outgoing-Sets names n i to (enable rn e true)
          (λ a b. if a == i && b == t then true else links a b) wired hi ht.1
          (HasLinks-enable names n rn links i t e true wired h found) in
      (rn', ground arith, same, λ a b d named. ground (arith, h' a b d named))

  pub enable_incoming-Sets :
      (names : Endnames) (n i : ℕ) (to : List ℕ) (rn : Network W) (links : ℕ → ℕ → Bool)
      → IsWired names n
      → i < n
      → All (λ t. t < n) to
      → HasLinks names rn links
      → Sets names rn
          (enable_incoming names i to)
          (λ a b. if b == i && member a to then true else links a b)
  unfolding enable_incoming enable
  enable_incoming-Sets names n i [] rn links wired hi ht h =
      (rn, refl, refl, λ a b e named. ground (arith, h a b e named))
  enable_incoming-Sets names n i (t ∷ to) rn links wired hi ht h =
      let (e, found) = wired.named t i ht.0 hi in
      let (rn', r, same, h') =
        enable_incoming-Sets names n i to (enable rn e true)
          (λ a b. if a == t && b == i then true else links a b) wired hi ht.1
          (HasLinks-enable names n rn links t i e true wired h found) in
      (rn', ground arith, same, λ a b d named. ground (arith, h' a b d named))

  -- Both ends between `i` and each server of `to` are switched on, the others stay.
  pub connect_unlocked-Sets :
      (names : Endnames) (n i : ℕ) (to : List ℕ) (rn : Network W) (links : ℕ → ℕ → Bool)
      → IsWired names n
      → i < n
      → All (λ t. t < n) to
      → HasLinks names rn links
      → Sets names rn (connect_unlocked names i to) (attached i to links)
  unfolding connect_unlocked
  connect_unlocked-Sets names n i to rn links wired hi ht h =
      let (rn1, r1, same1, h1) = enable_outgoing-Sets names n i to rn links wired hi ht h in
      let (rn2, r2, same2, h2) =
        enable_incoming-Sets names n i to rn1
          (λ a b. if a == i && member b to then true else links a b) wired hi ht h1 in
      (rn2, ground arith, cc, λ a b d named. ground (arith, h2 a b d named))

  pub disable_outgoing-Sets :
      (names : Endnames) (n i : ℕ) (from : List ℕ) (rn : Network W) (links : ℕ → ℕ → Bool)
      → IsWired names n
      → i < n
      → All (λ f. f < n) from
      → HasLinks names rn links
      → Sets names rn
          (disable_outgoing names i from)
          (λ a b. if a == i && member b from then false else links a b)
  unfolding disable_outgoing enable
  disable_outgoing-Sets names n i [] rn links wired hi hf h =
      (rn, refl, refl, λ a b e named. ground (arith, h a b e named))
  disable_outgoing-Sets names n i (f ∷ from) rn links wired hi hf h =
      let (e, found) = wired.named i f hi hf.0 in
      let (row, o, g) = row_of names i f e found in
      let (rn', r, same, h') =
        disable_outgoing-Sets names n i from (enable rn e false)
          (λ a b. if a == i && b == f then false else links a b) wired hi hf.1
          (HasLinks-enable names n rn links i f e false wired h found) in
      (rn', ground arith, same, λ a b d named. ground (arith, h' a b d named))

  pub disable_incoming-Sets :
      (names : Endnames) (n i j : ℕ) (from : List ℕ) (rn : Network W) (links : ℕ → ℕ → Bool)
      → IsWired names n
      → i < n
      → j + length from ≤ n
      → All (λ f. f < n) from
      → HasLinks names rn links
      → Sets names rn
          (disable_incoming names i j from)
          (λ a b. if b == i && member a from then false else links a b)
  unfolding disable_incoming enable
  disable_incoming-Sets names n i j [] rn links wired hi hj hf h =
      (rn, refl, refl, λ a b e named. ground (arith, h a b e named))
  disable_incoming-Sets names n i j (f ∷ from) rn links wired hi hj hf h =
      let (e, found) = wired.named f i hf.0 hi in
      let (d, found') = wired.named j i (omega arith) hi in
      let (row, o, g) = row_of names j i d found' in
      let (rn', r, same, h') =
        disable_incoming-Sets names n i (suc j) from (enable rn e false)
          (λ a b. if a == f && b == i then false else links a b) wired hi (omega arith) hf.1
          (HasLinks-enable names n rn links f i e false wired h found) in
      (rn', ground arith, same, λ a b d named. ground (arith, h' a b d named))

  -- Both ends between `i` and each server of `from` are switched off, the others stay.
  pub disconnect_unlocked-Sets :
      (names : Endnames) (n i : ℕ) (from : List ℕ) (rn : Network W) (links : ℕ → ℕ → Bool)
      → IsWired names n
      → i < n
      → length from ≤ n
      → All (λ f. f < n) from
      → HasLinks names rn links
      → Sets names rn (disconnect_unlocked names i from) (detached i from links)
  unfolding disconnect_unlocked
  disconnect_unlocked-Sets names n i from rn links wired hi hl hf h =
      let (rn1, r1, same1, h1) = disable_outgoing-Sets names n i from rn links wired hi hf h in
      let (rn2, r2, same2, h2) =
        disable_incoming-Sets names n i 0 from rn1
          (λ a b. if a == i && member b from then false else links a b) wired hi (omega arith) hf
          h1 in
      (rn2, ground arith, cc, λ a b d named. ground (arith, h2 a b d named))
