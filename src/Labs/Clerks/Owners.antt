-- ===== src/Labs/Clerks/Owners.antt =====
-- Whom an operation on a key asks.
use gopher.Prelude.{
  ℕ, zero, suc, ◌+◌, ◌≡◌, ◌≢◌, refl, ap, ◌∙◌, List, [], ◌∷◌, ◌++◌, true, false, none, some, Bool,
  arith, ◌⊎◌, inl, inr, Bool-cases, Option-cases,
}
use gopher.Prelude.Integers.{negsuc}
use gopher.Prelude.Classes.{nat_key}
use gopher.Labs.Clerks.{
  wrong_group, Config, CtrlReply, Call, Controller, query, KvReply, ask_group, ask_owner, owner,
  ask, is_wrong_group,
}
use gopher.Labs.Clerks.Holding.{Holds, owner-Holds, Holds-owner, wrong_group-yes, wrong_group-no}
use gopher.Labs.Clerks.Asking.{here, Answered, one_more}

module _ {E : Type 0} where
  ask_group-Answered :
      (call : Call E KvReply) (ends : KvReply → Bool) (e e' : E) (servers : List ℕ) (r : KvReply)
      → ask_group call ends e servers ≡ (e', some r)
      → Answered call ends servers e' r
  unfolding ask_group
  ask_group-Answered call ends e e' [] r h = absurd (ground arith)
  ask_group-Answered call ends e e' (srv ∷ servers) r h =
      let e1 = (call e srv).0 in
      let rest = ask_group-Answered call ends e1 e' servers r in
      elim (Option-cases (call e srv).1) [
        | inl n ↦ one_more call ends srv servers e' r (rest (ground arith))
        | inr (x, n) ↦ elim (Bool-cases (ends x)) [
          | inr b ↦ elim (Bool-cases (is_wrong_group x)) [
            | inl g ↦ absurd (ground arith)
            | inr g ↦ one_more call ends srv servers e' r (rest (ground arith))
          ]
          | inl b ↦ record {
            server = srv;
            listed = here srv servers;
            before = e;
            gave = ground arith;
            accepted = ground arith;
          }
        ]
      ]

  -- The configuration that the clerk had, or one that a query for the latest returned to it.
  abbrev pub Known : Controller E → List ℕ → ℕ → Config → Config → Type 0
  Known c ctrlers fuel config used =
      (used ≡ config)
      ⊎ ((e0 : E) × (e1 : E) × (l : CtrlReply Config) × (query c ctrlers fuel e0 (negsuc 0)
            ≡ (e1, some l))
          × (used ≡ l.body))

  -- Where an answer comes from.
  abbrev pub FromOwner :
      Controller E
      → List ℕ
      → Call E KvReply
      → (KvReply → Bool)
      → ℕ
      → E
      → Config
      → Config
      → List ℕ
      → KvReply
      → Type 0
  FromOwner c ctrlers call ends query_fuel e' config used key r =
      Known c ctrlers query_fuel config used
      × (servers : List ℕ) × Holds used key servers
      × Answered call ends servers e' r

  ask-Answered :
      (c : Controller E) (ctrlers : List ℕ) (call : Call E KvReply) (ends : KvReply → Bool)
      (query_fuel fuel : ℕ) (e e' : E) (config used : Config) (key : List ℕ) (r : KvReply)
      → ask c ctrlers call ends query_fuel fuel e config key ≡ (e', used, some r)
      → FromOwner c ctrlers call ends query_fuel e' config used key r
  unfolding ask
  ask-Answered c ctrlers call ends query_fuel zero e e' config used key r h = absurd (ground arith)
  ask-Answered c ctrlers call ends query_fuel (suc fuel) e e' config used key r h =
      let asked = ask_owner call ends e (owner config key) in
      let queried = query c ctrlers query_fuel (c.sleep asked.0) (negsuc 0) in
      elim (Option-cases asked.1) [
        | inl n ↦ elim (Option-cases queried.1) [
          | inl m ↦ absurd (ground arith)
          | inr (l, m) ↦
              let (known, servers, o, answer) =
                ask-Answered c ctrlers call ends query_fuel fuel queried.0 e' l.body used key r
                  (ground arith) in
              (
                elim known [
                  | inl same ↦ inr (c.sleep asked.0, queried.0, l, ground arith, same)
                  | inr fetched ↦ inr fetched
                ],
                servers,
                o,
                answer,
              )
        ]
        | inr (x, n) ↦ elim (Option-cases (owner config key)) [
          | inl o ↦ absurd (ground arith)
          | inr (servers, o) ↦ (
            inl (ground arith),
            servers,
            owner-Holds used key servers (ground arith),
            ask_group-Answered call ends e e' servers r (ground arith),
          )
        ]
      ]

  -- The calls at servers of a group that do not end the operation, and after which the next server
  -- is called: lost ones, and replies that neither end it nor name a wrong group.
  pub data Asked (call : Call E KvReply) (ends : KvReply → Bool) : List ℕ → E → E → Type 0 where
    nobody : (e : E) → Asked call ends [] e e
    lost :
        (s : ℕ) (ss : List ℕ) (e e1 e2 : E)
        → call e s ≡ (e1, none)
        → Asked call ends ss e1 e2
        → Asked call ends (s ∷ ss) e e2
    refused :
        (s : ℕ) (ss : List ℕ) (e e1 e2 : E) (r : KvReply)
        → call e s ≡ (e1, some r)
        → ends r ≡ false
        → r.err ≢ wrong_group
        → Asked call ends ss e1 e2
        → Asked call ends (s ∷ ss) e e2

  -- A round without an answer: no group holds the shard, none of its servers ends the operation, or
  -- one of them says that the group is the wrong one.
  pub data Unanswered (call : Call E KvReply) (ends : KvReply → Bool) (config : Config)
      (key : List ℕ) : E → E → Type 0 where
    no_group :
        (e : E) → ((ss : List ℕ) → ¬ Holds config key ss) → Unanswered call ends config key e e
    no_answer :
        (ss : List ℕ) (e e1 : E)
        → Holds config key ss
        → Asked call ends ss e e1
        → Unanswered call ends config key e e1
    wrong_one :
        (first rest : List ℕ) (s : ℕ) (e e1 e2 : E) (r : KvReply)
        → Holds config key (first ++ (s ∷ rest))
        → Asked call ends first e e1
        → call e1 s ≡ (e2, some r)
        → ends r ≡ false
        → r.err ≡ wrong_group
        → Unanswered call ends config key e e2

  ask_group-Asked :
      (call : Call E KvReply) (ends : KvReply → Bool) (first rest : List ℕ) (e e1 : E)
      → Asked call ends first e e1
      → ask_group call ends e (first ++ rest) ≡ ask_group call ends e1 rest
  unfolding ask_group
  ask_group-Asked call ends [] rest e _ (nobody _) = refl
  ask_group-Asked call ends (s ∷ ss) rest e e2 (lost _ _ _ e1 _ c p) =
      ground (arith, c, ask_group-Asked call ends ss rest e1 e2 p)
  ask_group-Asked call ends (s ∷ ss) rest e e2 (refused _ _ _ e1 _ r c a n p) =
      ground (arith, c, a, wrong_group-no r n, ask_group-Asked call ends ss rest e1 e2 p)

  ask_group-none :
      (call : Call E KvReply) (ends : KvReply → Bool) (ss : List ℕ) (e e1 : E)
      → Asked call ends ss e e1
      → ask_group call ends e ss ≡ (e1, none)
  unfolding ask_group
  ask_group-none call ends [] e _ (nobody _) = refl
  ask_group-none call ends (s ∷ ss) e e2 (lost _ _ _ e1 _ c p) =
      ground (arith, c, ask_group-none call ends ss e1 e2 p)
  ask_group-none call ends (s ∷ ss) e e2 (refused _ _ _ e1 _ r c a n p) =
      ground (arith, c, a, wrong_group-no r n, ask_group-none call ends ss e1 e2 p)

  ask_group-at :
      (call : Call E KvReply) (ends : KvReply → Bool) (s : ℕ) (rest : List ℕ) (e e1 : E)
      (r : KvReply)
      → call e s ≡ (e1, some r)
      → ends r ≡ true
      → ask_group call ends e (s ∷ rest) ≡ (e1, some r)
  unfolding ask_group
  ask_group-at call ends s rest e e1 r c a = ground (arith, c, a)

  ask_group-wrong :
      (call : Call E KvReply) (ends : KvReply → Bool) (s : ℕ) (rest : List ℕ) (e e1 : E)
      (r : KvReply)
      → call e s ≡ (e1, some r)
      → ends r ≡ false
      → r.err ≡ wrong_group
      → ask_group call ends e (s ∷ rest) ≡ (e1, none)
  unfolding ask_group
  ask_group-wrong call ends s rest e e1 r c a g = ground (arith, c, a, wrong_group-yes r g)

  at_owner :
      (call : Call E KvReply) (ends : KvReply → Bool) (config : Config) (key ss : List ℕ) (e : E)
      → Holds config key ss
      → ask_owner call ends e (owner config key) ≡ ask_group call ends e ss
  at_owner call ends config key ss e h = ap (ask_owner call ends e) (Holds-owner config key ss h)

  ask_owner-Unanswered :
      (call : Call E KvReply) (ends : KvReply → Bool) (config : Config) (key : List ℕ) (e e1 : E)
      → Unanswered call ends config key e e1
      → ask_owner call ends e (owner config key) ≡ (e1, none)
  ask_owner-Unanswered call ends config key e _ (no_group _ n) =
      elim (Option-cases (owner config key)) [
        | inl o ↦ ap (ask_owner call ends e) o
        | inr (ss, o) ↦ absurd (n ss (owner-Holds config key ss o))
      ]
  ask_owner-Unanswered call ends config key e e1 (no_answer ss _ _ h p) =
      at_owner call ends config key ss e h ∙ ask_group-none call ends ss e e1 p
  ask_owner-Unanswered call ends config key e e2 (wrong_one first rest s _ e1 _ r h p c a g) =
      at_owner call ends config key (first ++ (s ∷ rest)) e h
      ∙ ask_group-Asked call ends first (s ∷ rest) e e1 p
      ∙ ask_group-wrong call ends s rest e1 e2 r c a g

  -- The rounds of an operation: how many end without an answer, and the one that gets it.
  pub data Rounds (c : Controller E) (ctrlers : List ℕ) (call : Call E KvReply)
      (ends : KvReply → Bool) (query_fuel : ℕ) (key : List ℕ)
      : ℕ → E → Config → E → Config → KvReply → Type 0 where
    answered :
        (first rest : List ℕ) (s : ℕ) (e e1 e' : E) (config : Config) (r : KvReply)
        → Holds config key (first ++ (s ∷ rest))
        → Asked call ends first e e1
        → call e1 s ≡ (e', some r)
        → ends r ≡ true
        → Rounds c ctrlers call ends query_fuel key zero e config e' config r
    asked_again :
        (n : ℕ) (e e1 e2 e' : E) (config used : Config) (l : CtrlReply Config) (r : KvReply)
        → Unanswered call ends config key e e1
        → query c ctrlers query_fuel (c.sleep e1) (negsuc 0) ≡ (e2, some l)
        → Rounds c ctrlers call ends query_fuel key n e2 l.body e' used r
        → Rounds c ctrlers call ends query_fuel key (suc n) e config e' used r

  ask-Rounds :
      (c : Controller E) (ctrlers : List ℕ) (call : Call E KvReply) (ends : KvReply → Bool)
      (query_fuel n k : ℕ) (e e' : E) (config used : Config) (key : List ℕ) (r : KvReply)
      → Rounds c ctrlers call ends query_fuel key n e config e' used r
      → (fuel : ℕ) → fuel ≡ n + suc k
      → ask c ctrlers call ends query_fuel fuel e config key ≡ (e', used, some r)
  unfolding ask
  ask-Rounds c ctrlers call ends query_fuel n k e e' config used key r w zero f =
      absurd (omega arith)
  ask-Rounds c ctrlers call ends query_fuel n k e e' config used key r
        (answered first rest s _ e1 _ _ _ h p a b) (suc fuel) f =
      ground (
        arith,
        at_owner call ends config key (first ++ (s ∷ rest)) e h,
        ask_group-Asked call ends first (s ∷ rest) e e1 p,
        ask_group-at call ends s rest e1 e' r a b,
      )
  ask-Rounds c ctrlers call ends query_fuel (suc n) k e e' config used key r
        (asked_again _ _ e1 e2 _ _ _ l _ a q w) (suc fuel) f =
      ground (
        arith,
        ask_owner-Unanswered call ends config key e e1 a,
        q,
        ask-Rounds c ctrlers call ends query_fuel n k e2 e' l.body used key r w fuel (omega arith),
      )

  -- An operation on a key whose rounds come to an answer returns it, for every fuel above the number
  -- of rounds without one. The answer is one that may end it, from a server
  -- of the group that holds the key's shard, which is the last digit of its first byte or 0, in the
  -- configuration that the clerk started with or one that a query for the latest returned.
  pub ask-FromOwner :
      (c : Controller E) (ctrlers : List ℕ) (call : Call E KvReply) (ends : KvReply → Bool)
      (query_fuel n k : ℕ) (e e' : E) (config used : Config) (key : List ℕ) (r : KvReply)
      → Rounds c ctrlers call ends query_fuel key n e config e' used r
      → (ask c ctrlers call ends query_fuel (n + suc k) e config key ≡ (e', used, some r))
        × FromOwner c ctrlers call ends query_fuel e' config used key r
  ask-FromOwner c ctrlers call ends query_fuel n k e e' config used key r w =
      let returned =
        ask-Rounds c ctrlers call ends query_fuel n k e e' config used key r w (n + suc k) refl in
      (
        returned,
        ask-Answered c ctrlers call ends query_fuel (n + suc k) e e' config used key r returned,
      )
