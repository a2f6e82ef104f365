-- ===== src/Labs/RaftNet/Flags.antt =====
-- The flags of 6.5840/src/raft/config.go and the ends that are switched on.
use gopher.Prelude.{
  ℕ, ◌<◌, ◌≤◌, ◌≡◌, refl, List, [], ◌∷◌, none, some, Bool, true, false, ◌&&◌, ◌==◌, ltb,
  if◌then◌else◌, length, get_elem?, get_elem?-lt, get_elem?-set, get_elem?-none, length-set, set,
  All, member, arith, Bool-cases, inl, inr, subst, sym,
}
use gopher.Labs.Labrpc.{done, Network, enable}
use gopher.Labs.Harness.{all_from}
use gopher.Labs.Harness.Links.{IsWired, HasLinks, Sets, HasLinks-enable, disconnect_unlocked-Sets}
use gopher.Labs.Harness.Sides.{member-all_from, All-all_from, length-all_from}
use gopher.Labs.RaftNet.{
  RaftNet, attach_outgoing, attach_incoming, connect_server, disconnect_server, switch_all,
}

abbrev pub flag : List Bool → ℕ → Bool
flag connected a = elim (get_elem? connected a) [ none ↦ false | some b ↦ b ]

flag-set :
    (connected : List Bool) (i a : ℕ) (on : Bool)
    → i < length connected
    → flag (set connected i on) a ≡ (if i == a then on else flag connected a)
flag-set connected i a on h =
    let (b, g) = get_elem?-lt connected i h in
    let there : i ≡ a → get_elem? connected a ≡ some b =
      (λ q. subst (λ x. get_elem? connected x ≡ some b) q g) in
    ground (arith, get_elem?-set connected i a on, there)

flag-lt : (connected : List Bool) (a : ℕ) → flag connected a ≡ true → a < length connected
flag-lt connected a f = elim (Bool-cases (ltb a (length connected))) [
  | inl l ↦ ground arith
  | inr l ↦ absurd (ground (arith, get_elem?-none connected a (ground arith)))
]

module _ {W : Type 0} where
  -- An end is switched on exactly when both of its servers are on the net.
  pub record IsSynced (cfg : RaftNet W) : Type 0 where
    pub wired : IsWired cfg.endnames cfg.n
    pub flags : length cfg.connected ≡ cfg.n
    pub links : HasLinks cfg.endnames cfg.net (λ a b. flag cfg.connected a && flag cfg.connected b)

  attach_outgoing-Sets :
      (cfg : RaftNet W) (i : ℕ) (js : List ℕ) (rn : Network W) (links : ℕ → ℕ → Bool)
      → IsWired cfg.endnames cfg.n
      → length cfg.connected ≡ cfg.n
      → i < cfg.n
      → All (λ j. j < cfg.n) js
      → HasLinks cfg.endnames rn links
      → Sets cfg.endnames rn
          (attach_outgoing cfg i js)
          (λ a b. if a == i && (member b js && flag cfg.connected b) then true else links a b)
  unfolding attach_outgoing enable
  attach_outgoing-Sets cfg i [] rn links wired len hi hj h =
      (rn, refl, refl, λ a b e named. ground (arith, h a b e named))
  attach_outgoing-Sets cfg i (j ∷ js) rn links wired len hi hj h =
      let (b, g) = get_elem?-lt cfg.connected j (omega (arith, hj.0, len)) in
      let at_j : (k : ℕ) → j ≡ k → flag cfg.connected k ≡ b =
        (λ k q. subst (λ x. flag cfg.connected x ≡ b) q (ground arith)) in
      elim (Bool-cases b) [
        | inr f ↦
            let (rn', r, same, h') = attach_outgoing-Sets cfg i js rn links wired len hi hj.1 h in
            (rn', ground arith, same, λ a k d named. ground (arith, h' a k d named, at_j k))
        | inl t ↦
            let (e, found) = wired.named i j hi hj.0 in
            let (rn', r, same, h') =
              attach_outgoing-Sets cfg i js (enable rn e true)
                (λ a k. if a == i && k == j then true else links a k) wired len hi hj.1
                (HasLinks-enable cfg.endnames cfg.n rn links i j e true wired h found) in
            (rn', ground arith, same, λ a k d named. ground (arith, h' a k d named, at_j k))
      ]

  attach_incoming-Sets :
      (cfg : RaftNet W) (i : ℕ) (js : List ℕ) (rn : Network W) (links : ℕ → ℕ → Bool)
      → IsWired cfg.endnames cfg.n
      → length cfg.connected ≡ cfg.n
      → i < cfg.n
      → All (λ j. j < cfg.n) js
      → HasLinks cfg.endnames rn links
      → Sets cfg.endnames rn
          (attach_incoming cfg i js)
          (λ a b. if b == i && (member a js && flag cfg.connected a) then true else links a b)
  unfolding attach_incoming enable
  attach_incoming-Sets cfg i [] rn links wired len hi hj h =
      (rn, refl, refl, λ a b e named. ground (arith, h a b e named))
  attach_incoming-Sets cfg i (j ∷ js) rn links wired len hi hj h =
      let (b, g) = get_elem?-lt cfg.connected j (omega (arith, hj.0, len)) in
      let at_j : (k : ℕ) → j ≡ k → flag cfg.connected k ≡ b =
        (λ k q. subst (λ x. flag cfg.connected x ≡ b) q (ground arith)) in
      elim (Bool-cases b) [
        | inr f ↦
            let (rn', r, same, h') = attach_incoming-Sets cfg i js rn links wired len hi hj.1 h in
            (rn', ground arith, same, λ k a d named. ground (arith, h' k a d named, at_j k))
        | inl t ↦
            let (e, found) = wired.named j i hj.0 hi in
            let (rn', r, same, h') =
              attach_incoming-Sets cfg i js (enable rn e true)
                (λ k a. if k == j && a == i then true else links k a) wired len hi hj.1
                (HasLinks-enable cfg.endnames cfg.n rn links j i e true wired h found) in
            (rn', ground arith, same, λ k a d named. ground (arith, h' k a d named, at_j k))
      ]

  connect_server-IsSynced :
      (i : ℕ) (cfg : RaftNet W)
      → IsSynced cfg
      → i < cfg.n
      → (cfg' : RaftNet W) × (connect_server i cfg ≡ done cfg')
        × IsSynced cfg'
        × (cfg'.n ≡ cfg.n)
        × (cfg'.connected ≡ set cfg.connected i true)
  unfolding connect_server
  connect_server-IsSynced i cfg s hi =
      let (b, g) = get_elem?-lt cfg.connected i (omega (arith, s.flags)) in
      let on = set cfg.connected i true in
      let cfg1 : RaftNet W = record cfg { connected = on } in
      let len : length on ≡ cfg.n = omega (arith, length-set cfg.connected i true, s.flags) in
      let below = All-all_from 0 cfg.n cfg.n (omega arith) in
      let old = (λ (a b : ℕ). flag cfg.connected a && flag cfg.connected b) in
      let (net1, r1, same1, h1) =
        attach_outgoing-Sets cfg1 i (all_from 0 cfg.n) cfg.net old s.wired len hi below s.links in
      let (net2, r2, same2, h2) =
        attach_incoming-Sets cfg1 i (all_from 0 cfg.n) net1
          (λ a b. if a == i && (member b (all_from 0 cfg.n) && flag on b) then true else old a b)
          s.wired len hi below h1 in
      let set_to : (a : ℕ) → flag on a ≡ (if i == a then true else flag cfg.connected a) =
        (λ a. flag-set cfg.connected i a true (omega (arith, s.flags))) in
      (
        record cfg1 { net = net2 },
        ground arith,
        record {
          wired = s.wired;
          flags = len;
          links = λ a b e named. ground (
            arith,
            h2 a b e named,
            set_to a,
            set_to b,
            member-all_from 0 cfg.n a,
            member-all_from 0 cfg.n b,
            flag-lt on a,
            flag-lt on b,
          );
        },
        refl,
        refl,
      )

  disconnect_server-IsSynced :
      (i : ℕ) (cfg : RaftNet W)
      → IsSynced cfg
      → i < cfg.n
      → (cfg' : RaftNet W) × (disconnect_server i cfg ≡ done cfg')
        × IsSynced cfg'
        × (cfg'.n ≡ cfg.n)
        × (cfg'.connected ≡ set cfg.connected i false)
  unfolding disconnect_server
  disconnect_server-IsSynced i cfg s hi =
      let (b, g) = get_elem?-lt cfg.connected i (omega (arith, s.flags)) in
      let off = set cfg.connected i false in
      let everyone = all_from 0 cfg.n in
      let old = (λ (a b : ℕ). flag cfg.connected a && flag cfg.connected b) in
      let (net1, r, same, h) =
        disconnect_unlocked-Sets cfg.endnames cfg.n i everyone cfg.net old s.wired hi
          (let l : length everyone ≤ cfg.n = omega (arith, length-all_from 0 cfg.n) in l)
          (All-all_from 0 cfg.n cfg.n (omega arith)) s.links in
      let set_to : (a : ℕ) → flag off a ≡ (if i == a then false else flag cfg.connected a) =
        (λ a. flag-set cfg.connected i a false (omega (arith, s.flags))) in
      (
        record cfg { connected = off; net = net1 },
        ground arith,
        record {
          wired = s.wired;
          flags = omega (arith, length-set cfg.connected i false, s.flags);
          links = λ a b e named. ground (
            arith,
            h a b e named,
            set_to a,
            set_to b,
            member-all_from 0 cfg.n a,
            member-all_from 0 cfg.n b,
            flag-lt cfg.connected a,
            flag-lt cfg.connected b,
            s.flags,
          );
        },
        refl,
        refl,
      )

  -- From servers whose ends are in step with the flags, every sequence of connections and
  -- disconnections of servers that there are ends, and leaves the ends in step: an end is switched on
  -- exactly when both of its servers are on the net.
  pub switch_all-IsSynced :
      (actions : List (Bool × ℕ)) (cfg : RaftNet W)
      → IsSynced cfg
      → All (λ action. action.1 < cfg.n) actions
      → (cfg' : RaftNet W) × (switch_all actions cfg ≡ done cfg') × IsSynced cfg'
  unfolding switch_all
  switch_all-IsSynced [] cfg s h = (cfg, refl, s)
  switch_all-IsSynced ((true, i) ∷ rest) cfg s h =
      let (cfg1, r, s1, n, _) = connect_server-IsSynced i cfg s h.0 in
      let (cfg2, r2, s2) =
        switch_all-IsSynced rest cfg1 s1
          (subst (λ k. All (λ action. action.1 < k) rest) (sym n) h.1) in
      (cfg2, ground arith, s2)
  switch_all-IsSynced ((false, i) ∷ rest) cfg s h =
      let (cfg1, r, s1, n, _) = disconnect_server-IsSynced i cfg s h.0 in
      let (cfg2, r2, s2) =
        switch_all-IsSynced rest cfg1 s1
          (subst (λ k. All (λ action. action.1 < k) rest) (sym n) h.1) in
      (cfg2, ground arith, s2)
