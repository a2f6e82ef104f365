-- ===== src/Labs/Clerks.antt =====
-- The clerks of 6.5840/src/shardctrler/client.go and 6.5840/src/shardkv/client.go. `E` is the state
-- of everything outside of a clerk: the network, the servers and the time. Their loops are without
-- end, and run on fuel here.
pub mod Asking
pub mod Holding
pub mod Owners
use gopher.Prelude.{
  ℕ, zero, suc, ◌%◌, List, [], ◌∷◌, Option, none, some, Bool, true, false, not, ◌&&◌, ◌||◌, ◌==◌,
  if◌then◌else◌, get_or,
}
use gopher.Prelude.Integers.{ℤ, negsuc}
use gopher.Prelude.Dict.{Dict, lookup}
use gopher.Prelude.Classes.{nat_key}

abbrev pub n_shards : ℕ
n_shards = 10

pub record Config : Type 0 where
  pub num : ℤ
  pub shards : List ℕ
  pub groups : Dict ℕ (List ℕ)

-- A reply of the controller; only Query carries a configuration.
pub record CtrlReply (A : Type 0) : Type 0 where
  pub wrong_leader : Bool
  pub body : A

-- A call at a server end, which may stay without an answer.
abbrev pub Call : Type 0 → Type 0 → Type 0
Call E R = E → ℕ → E × Option R

module _ {E R : Type 0} where
  -- One pass over the known servers, up to the first reply that is accepted.
  unfoldable pub try_each : Call E R → (R → Bool) → E → List ℕ → E × Option R
  try_each call accepts e [] = (e, none)
  try_each call accepts e (srv ∷ servers) =
      let (e', reply) = call e srv in
      elim reply [
        | none ↦ try_each call accepts e' servers
        | some r ↦ elim (accepts r) [
          | true ↦ (e', some r)
          | false ↦ try_each call accepts e' servers
        ]
      ]

  -- Passes, with a pause after each, until a reply is accepted.
  unfoldable pub retry : Call E R → (R → Bool) → (E → E) → ℕ → E → List ℕ → E × Option R
  retry call accepts sleep zero e servers = (e, none)
  retry call accepts sleep (suc fuel) e servers =
      let (e', reply) = try_each call accepts e servers in
      elim reply [ none ↦ retry call accepts sleep fuel (sleep e') servers | some r ↦ (e', some r) ]

-- What the clerk's calls do: each takes the arguments of its operation to a call.
pub record Controller (E : Type 0) : Type 1 where
  pub call_query : ℤ → Call E (CtrlReply Config)
  pub call_join : Dict ℕ (List ℕ) → Call E (CtrlReply Unit)
  pub call_leave : List ℕ → Call E (CtrlReply Unit)
  pub call_move : ℕ → ℕ → Call E (CtrlReply Unit)
  pub sleep : E → E

module _ {E : Type 0} (c : Controller E) (servers : List ℕ) where
  unfoldable pub query : ℕ → E → ℤ → E × Option (CtrlReply Config)
  query fuel e num = retry (c.call_query num) (λ r. not r.wrong_leader) c.sleep fuel e servers

  unfoldable pub join : ℕ → E → Dict ℕ (List ℕ) → E × Option (CtrlReply Unit)
  join fuel e groups = retry (c.call_join groups) (λ r. not r.wrong_leader) c.sleep fuel e servers

  unfoldable pub leave : ℕ → E → List ℕ → E × Option (CtrlReply Unit)
  leave fuel e gids = retry (c.call_leave gids) (λ r. not r.wrong_leader) c.sleep fuel e servers

  unfoldable pub move : ℕ → E → ℕ → ℕ → E × Option (CtrlReply Unit)
  move fuel e shard gid =
      retry (c.call_move shard gid) (λ r. not r.wrong_leader) c.sleep fuel e servers

-- The first byte of the key, on the number of shards.
unfoldable pub key2shard : List ℕ → ℕ
key2shard [] = 0
key2shard (b ∷ key) = b % n_shards

pub data Err : Type 0 where
  ok : Err
  no_key : Err
  wrong_group : Err
  wrong_leader : Err
  other : List ℕ → Err

pub record KvReply : Type 0 where
  pub err : Err
  pub value : List ℕ

abbrev pub is_wrong_group : KvReply → Bool
is_wrong_group r = elim r.err [
  | ok ↦ false
  | no_key ↦ false
  | wrong_group ↦ true
  | wrong_leader ↦ false
  | other _ ↦ false
]

-- What ends a Get, and what ends a Put or an Append.
abbrev pub ends_get : KvReply → Bool
ends_get r = elim r.err [
  | ok ↦ true
  | no_key ↦ true
  | wrong_group ↦ false
  | wrong_leader ↦ false
  | other _ ↦ false
]

abbrev pub ends_put : KvReply → Bool
ends_put r = elim r.err [
  | ok ↦ true
  | no_key ↦ false
  | wrong_group ↦ false
  | wrong_leader ↦ false
  | other _ ↦ false
]

-- The servers of the group that a configuration gives a key to.
abbrev pub owner : Config → List ℕ → Option (List ℕ)
owner config key = lookup (get_or config.shards (key2shard key) 0) config.groups

module _ {E : Type 0} where
  -- The servers of a group in turn, up to a reply that ends the operation or a wrong group.
  unfoldable pub ask_group : Call E KvReply → (KvReply → Bool) → E → List ℕ → E × Option KvReply
  ask_group call ends e [] = (e, none)
  ask_group call ends e (srv ∷ servers) =
      let (e', reply) = call e srv in
      elim reply [
        | none ↦ ask_group call ends e' servers
        | some r ↦ elim (ends r) [
          | true ↦ (e', some r)
          | false ↦ elim (is_wrong_group r) [
            | true ↦ (e', none)
            | false ↦ ask_group call ends e' servers
          ]
        ]
      ]

  abbrev pub ask_owner :
      Call E KvReply → (KvReply → Bool) → E → Option (List ℕ) → E × Option KvReply
  ask_owner call ends e none = (e, none)
  ask_owner call ends e (some servers) = ask_group call ends e servers

  -- The common loop of Get and PutAppend: ask the group of the key, or pause and fetch the latest
  -- configuration. `query_fuel` is what each of those queries may use.
  unfoldable pub ask :
      Controller E
      → List ℕ
      → Call E KvReply
      → (KvReply → Bool)
      → ℕ
      → ℕ
      → E
      → Config
      → List ℕ
      → E × Config × Option KvReply
  ask c ctrlers call ends query_fuel zero e config key = (e, config, none)
  ask c ctrlers call ends query_fuel (suc fuel) e config key =
      let (e1, reply) = ask_owner call ends e (owner config key) in
      elim reply [
        | some r ↦ (e1, config, some r)
        | none ↦
            let (e2, latest) = query c ctrlers query_fuel (c.sleep e1) (negsuc 0) in
            elim latest [
              | none ↦ (e2, config, none)
              | some l ↦ ask c ctrlers call ends query_fuel fuel e2 l.body key
            ]
      ]

  unfoldable pub get :
      Controller E
      → List ℕ
      → (List ℕ → Call E KvReply)
      → ℕ
      → ℕ
      → E
      → Config
      → List ℕ
      → E × Config × Option KvReply
  get c ctrlers call_get query_fuel fuel e config key =
      ask c ctrlers (call_get key) ends_get query_fuel fuel e config key

  -- `op` is "Put" or "Append".
  unfoldable pub put_append :
      Controller E
      → List ℕ
      → (List ℕ → List ℕ → List ℕ → Call E KvReply)
      → ℕ
      → ℕ
      → E
      → Config
      → List ℕ
      → List ℕ
      → List ℕ
      → E × Config × Option KvReply
  put_append c ctrlers call_put query_fuel fuel e config key value op =
      ask c ctrlers (call_put key value op) ends_put query_fuel fuel e config key
