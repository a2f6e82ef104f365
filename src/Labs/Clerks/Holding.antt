-- ===== src/Labs/Clerks/Holding.antt =====
-- Which servers hold a key, in a configuration.
use gopher.Prelude.{
  ℕ, ◌+◌, ◌*◌, ◌/◌, ◌%◌, ◌<◌, ◌≡◌, ◌≢◌, refl, ap, ◌∙◌, subst, List, [], ◌∷◌, true, false, get_or,
  some, arith, inl, inr, Bool-cases,
}
use gopher.Prelude.Dict.{lookup}
use gopher.Prelude.Classes.{nat_key}
use gopher.Labs.Clerks.{
  Err, ok, no_key, wrong_group, wrong_leader, other, Config, key2shard, KvReply, owner,
  is_wrong_group,
}

-- The shard of a key: the last digit of its first byte.
pub data ShardOf : List ℕ → ℕ → Type 0 where
  no_byte : ShardOf [] 0
  first_byte : (q s : ℕ) (key : List ℕ) → s < 10 → ShardOf ((q * 10 + s) ∷ key) s

-- The configuration gives the shard of the key to a group with these servers.
pub record Holds (config : Config) (key servers : List ℕ) : Type 0 where
  pub shard : ℕ
  pub is_shard : ShardOf key shard
  pub group : lookup (get_or config.shards shard 0) config.groups ≡ some servers

key2shard-ShardOf : (key : List ℕ) → ShardOf key (key2shard key)
unfolding key2shard
key2shard-ShardOf [] = no_byte
key2shard-ShardOf (b ∷ key) =
    subst (λ x. ShardOf (x ∷ key) (b % 10)) (let e : b / 10 * 10 + b % 10 ≡ b = omega arith in e)
      (first_byte (b / 10) (b % 10) key (omega arith))

ShardOf-key2shard : (key : List ℕ) (s : ℕ) → ShardOf key s → key2shard key ≡ s
unfolding key2shard
ShardOf-key2shard _ _ no_byte = refl
ShardOf-key2shard _ s (first_byte q _ key h) = omega arith

pub owner-Holds :
    (config : Config) (key servers : List ℕ)
    → owner config key ≡ some servers
    → Holds config key servers
owner-Holds config key servers o = record {
  shard = key2shard key;
  is_shard = key2shard-ShardOf key;
  group = o;
}

pub Holds-owner :
    (config : Config) (key servers : List ℕ)
    → Holds config key servers
    → owner config key ≡ some servers
Holds-owner config key servers h =
    ap (λ s. lookup (get_or config.shards s 0) config.groups)
      (ShardOf-key2shard key h.shard h.is_shard)
    ∙ h.group

pub wrong_group-yes : (r : KvReply) → r.err ≡ wrong_group → is_wrong_group r ≡ true
wrong_group-yes r q = ap (λ x. is_wrong_group (record { err = x; value = r.value })) q

is_wrong_group-yes : (r : KvReply) (x : Err) → r.err ≡ x → is_wrong_group r ≡ true → x ≡ wrong_group
is_wrong_group-yes r ok q h = absurd (ground arith)
is_wrong_group-yes r no_key q h = absurd (ground arith)
is_wrong_group-yes r wrong_group q h = refl
is_wrong_group-yes r wrong_leader q h = absurd (ground arith)
is_wrong_group-yes r (other m) q h = absurd (ground arith)

pub wrong_group-no : (r : KvReply) → r.err ≢ wrong_group → is_wrong_group r ≡ false
wrong_group-no r n = elim (Bool-cases (is_wrong_group r)) [
  | inl y ↦ absurd (n (is_wrong_group-yes r r.err refl y))
  | inr y ↦ y
]
