-- ===== src/Labs/Clerks/Asking.antt =====
-- What an answer of a clerk means, and when there is one.
use gopher.Prelude.{
  ℕ, zero, suc, ◌+◌, ◌≡◌, refl, List, [], ◌∷◌, ◌++◌, none, some, Bool, true, false, not, arith, inl,
  inr, Bool-cases, Option-cases,
}
use gopher.Prelude.Integers.{ℤ}
use gopher.Labs.Clerks.{Config, CtrlReply, Call, try_each, retry, Controller, query}

pub data In : ℕ → List ℕ → Type 0 where
  here : (s : ℕ) (ss : List ℕ) → In s (s ∷ ss)
  there : (s t : ℕ) (ss : List ℕ) → In s ss → In s (t ∷ ss)

module _ {E R : Type 0} where
  -- One of the servers gave the reply, and it is an accepted one.
  pub record Answered (call : Call E R) (accepts : R → Bool) (servers : List ℕ) (e' : E) (r : R)
      : Type 0 where
    pub server : ℕ
    pub listed : In server servers
    pub before : E
    pub gave : call before server ≡ (e', some r)
    pub accepted : accepts r ≡ true

  -- The calls of one pass that gets no accepted reply: a call is lost, or its reply is refused, and
  -- the next server is called.
  pub data Passed (call : Call E R) (accepts : R → Bool) : List ℕ → E → E → Type 0 where
    nobody : (e : E) → Passed call accepts [] e e
    lost :
        (s : ℕ) (ss : List ℕ) (e e1 e2 : E)
        → call e s ≡ (e1, none)
        → Passed call accepts ss e1 e2
        → Passed call accepts (s ∷ ss) e e2
    refused :
        (s : ℕ) (ss : List ℕ) (e e1 e2 : E) (r : R)
        → call e s ≡ (e1, some r)
        → accepts r ≡ false
        → Passed call accepts ss e1 e2
        → Passed call accepts (s ∷ ss) e e2

  -- A number of such passes over all servers, each with the pause after it.
  pub data Waits (call : Call E R) (accepts : R → Bool) (sleep : E → E) (servers : List ℕ)
      : ℕ → E → E → Type 0 where
    at_once : (e : E) → Waits call accepts sleep servers zero e e
    after :
        (n : ℕ) (e e1 e2 : E)
        → Passed call accepts servers e e1
        → Waits call accepts sleep servers n (sleep e1) e2
        → Waits call accepts sleep servers (suc n) e e2

  pub one_more :
      (call : Call E R) (accepts : R → Bool) (t : ℕ) (servers : List ℕ) (e' : E) (r : R)
      → Answered call accepts servers e' r
      → Answered call accepts (t ∷ servers) e' r
  one_more call accepts t servers e' r a = record {
    server = a.server;
    listed = there a.server t servers a.listed;
    before = a.before;
    gave = a.gave;
    accepted = a.accepted;
  }

  try_each-Answered :
      (call : Call E R) (accepts : R → Bool) (e e' : E) (servers : List ℕ) (r : R)
      → try_each call accepts e servers ≡ (e', some r)
      → Answered call accepts servers e' r
  unfolding try_each
  try_each-Answered call accepts e e' [] r h = absurd (ground arith)
  try_each-Answered call accepts e e' (srv ∷ servers) r h =
      let e1 = (call e srv).0 in
      let rest = try_each-Answered call accepts e1 e' servers r in
      elim (Option-cases (call e srv).1) [
        | inl n ↦ one_more call accepts srv servers e' r (rest (ground arith))
        | inr (x, n) ↦ elim (Bool-cases (accepts x)) [
          | inr b ↦ one_more call accepts srv servers e' r (rest (ground arith))
          | inl b ↦ record {
            server = srv;
            listed = here srv servers;
            before = e;
            gave = ground arith;
            accepted = ground arith;
          }
        ]
      ]

  -- A pass without an accepted reply over the first servers goes on with the others.
  try_each-Passed :
      (call : Call E R) (accepts : R → Bool) (first rest : List ℕ) (e e1 : E)
      → Passed call accepts first e e1
      → try_each call accepts e (first ++ rest) ≡ try_each call accepts e1 rest
  unfolding try_each
  try_each-Passed call accepts [] rest e _ (nobody _) = refl
  try_each-Passed call accepts (s ∷ ss) rest e e2 (lost _ _ _ e1 _ c p) =
      ground (arith, c, try_each-Passed call accepts ss rest e1 e2 p)
  try_each-Passed call accepts (s ∷ ss) rest e e2 (refused _ _ _ e1 _ r c a p) =
      ground (arith, c, a, try_each-Passed call accepts ss rest e1 e2 p)

  try_each-all :
      (call : Call E R) (accepts : R → Bool) (servers : List ℕ) (e e1 : E)
      → Passed call accepts servers e e1
      → try_each call accepts e servers ≡ (e1, none)
  unfolding try_each
  try_each-all call accepts [] e _ (nobody _) = refl
  try_each-all call accepts (s ∷ ss) e e2 (lost _ _ _ e1 _ c p) =
      ground (arith, c, try_each-all call accepts ss e1 e2 p)
  try_each-all call accepts (s ∷ ss) e e2 (refused _ _ _ e1 _ r c a p) =
      ground (arith, c, a, try_each-all call accepts ss e1 e2 p)

  -- The accepted reply comes from the server behind those that gave none.
  try_each-found :
      (call : Call E R) (accepts : R → Bool) (first rest : List ℕ) (s : ℕ) (e e1 e2 : E) (r : R)
      → Passed call accepts first e e1
      → call e1 s ≡ (e2, some r)
      → accepts r ≡ true
      → try_each call accepts e (first ++ (s ∷ rest)) ≡ (e2, some r)
  unfolding try_each
  try_each-found call accepts first rest s e e1 e2 r p c a =
      ground (arith, c, a, try_each-Passed call accepts first (s ∷ rest) e e1 p)

  retry-Answered :
      (call : Call E R) (accepts : R → Bool) (sleep : E → E) (fuel : ℕ) (e e' : E)
      (servers : List ℕ) (r : R)
      → retry call accepts sleep fuel e servers ≡ (e', some r)
      → Answered call accepts servers e' r
  unfolding retry
  retry-Answered call accepts sleep zero e e' servers r h = absurd (ground arith)
  retry-Answered call accepts sleep (suc fuel) e e' servers r h =
      let pass = try_each call accepts e servers in
      elim (Option-cases pass.1) [
        | inl n ↦ retry-Answered call accepts sleep fuel (sleep pass.0) e' servers r (ground arith)
        | inr (x, n) ↦ try_each-Answered call accepts e e' servers r (ground arith)
      ]

  retry-Waits :
      (call : Call E R) (accepts : R → Bool) (sleep : E → E) (n k : ℕ) (e e1 e2 : E)
      (servers : List ℕ) (r : R)
      → Waits call accepts sleep servers n e e1
      → try_each call accepts e1 servers ≡ (e2, some r)
      → (fuel : ℕ) → fuel ≡ n + suc k
      → retry call accepts sleep fuel e servers ≡ (e2, some r)
  unfolding retry
  retry-Waits call accepts sleep n k e e1 e2 servers r w t zero f = absurd (omega arith)
  retry-Waits call accepts sleep n k e e1 e2 servers r (at_once _) t (suc fuel) f = ground arith
  retry-Waits call accepts sleep (suc n) k e e1 e2 servers r (after _ _ e0 _ x w) t (suc fuel) f =
      ground (
        arith,
        try_each-all call accepts servers e e0 x,
        retry-Waits call accepts sleep n k (sleep e0) e1 e2 servers r w t fuel (omega arith),
      )

-- When, after some passes over all servers in which every call is lost or answered by a server that
-- says that it is not the leader, the calls of a pass come to a server that answers and does not say
-- so, the query returns that answer, whatever servers come behind it, for every fuel above the number
-- of the passes before; and nothing but such an answer of a listed server is ever returned.
pub query-Answered :
    {E : Type 0} (c : Controller E) (first rest : List ℕ) (s : ℕ) (num : ℤ) (n k : ℕ)
    (e e1 e2 e3 : E) (r : CtrlReply Config)
    → Waits (c.call_query num) (λ x. not x.wrong_leader) c.sleep (first ++ (s ∷ rest)) n e e1
    → Passed (c.call_query num) (λ x. not x.wrong_leader) first e1 e2
    → c.call_query num e2 s ≡ (e3, some r)
    → r.wrong_leader ≡ false
    → (query c (first ++ (s ∷ rest)) (n + suc k) e num ≡ (e3, some r))
      × ((fuel : ℕ) (e' e'' : E) (r' : CtrlReply Config)
          → query c (first ++ (s ∷ rest)) fuel e' num ≡ (e'', some r')
          → Answered (c.call_query num) (λ x. not x.wrong_leader) (first ++ (s ∷ rest)) e'' r')
unfolding query
query-Answered c first rest s num n k e e1 e2 e3 r w p a y =
    let accepts : CtrlReply Config → Bool = λ x. not x.wrong_leader in
    let call = c.call_query num in
    let servers = first ++ (s ∷ rest) in
    (
      retry-Waits call accepts c.sleep n k e e1 e3 servers r w
          (try_each-found call accepts first rest s e1 e2 e3 r p a (ground arith)) (n + suc k) refl,
      λ fuel e' e'' r' h. retry-Answered call accepts c.sleep fuel e' e'' servers r' h,
    )
