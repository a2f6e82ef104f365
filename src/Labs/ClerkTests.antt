-- ===== src/Labs/ClerkTests.antt =====
-- Runs of the clerks, and the theorems at concrete inputs.
use gopher.Prelude.{
  ℕ, not, ◌≢◌, arith, ◌+◌, ◌≡◌, refl, List, [], ◌∷◌, none, some, Bool, true, false, ◌==◌,
  if◌then◌else◌,
}
use gopher.Prelude.Dict.{lookup}
use gopher.Prelude.Classes.{bytes_key}
use gopher.Prelude.Integers.{pos, negsuc}
use gopher.Labs.Clerks
use gopher.Labs.Clerks.{
  Config, CtrlReply, Call, try_each, retry, Controller, query, key2shard, KvReply, wrong_leader,
  ends_get, ask_group, ask_owner, owner, ask,
}
use gopher.Labs.Clerks.Asking
use gopher.Labs.Clerks.Holding
use gopher.Labs.Clerks.Owners
use gopher.Labs.Clerks.Asking.{Answered, at_once, query-Answered}
use gopher.Labs.Clerks.Owners.{FromOwner, answered, asked_again, ask-FromOwner}

-- The controller answers at its server 2, and says that server 1 is not the leader.
abbrev config0 : Config
config0 = record { num = pos 1; shards = 5 ∷ []; groups = (5, 3 ∷ 4 ∷ []) ∷ [] }

abbrev ctrl_reply : Bool → CtrlReply Config
ctrl_reply wrong = record { wrong_leader = wrong; body = config0 }

abbrev controller0 : Controller ℕ
controller0 = record {
  call_query = λ num e srv. (e + 1, some (ctrl_reply (srv == 1)));
  call_join = λ groups e srv. (e, none);
  call_leave = λ gids e srv. (e, none);
  call_move = λ shard gid e srv. (e, none);
  sleep = λ e. e + 100;
}

query-Answered_example :
    (query controller0 (1 ∷ 2 ∷ []) 4 0 (pos 1) ≡ (2, some (ctrl_reply false)))
    × ((fuel : ℕ) (e' e'' : ℕ) (r' : CtrlReply Config)
        → query controller0 (1 ∷ 2 ∷ []) fuel e' (pos 1) ≡ (e'', some r')
        → Answered (controller0.call_query (pos 1)) (λ x. not x.wrong_leader) (1 ∷ 2 ∷ []) e'' r')
query-Answered_example =
    query-Answered controller0 (1 ∷ []) [] 2 (pos 1) 0 3 0 0 1 2 (ctrl_reply false) (at_once 0)
      (Asking.refused 1 [] 0 1 1 (ctrl_reply true) refl refl (Asking.nobody 1)) refl refl

queried0 : query controller0 (1 ∷ 2 ∷ []) 1 0 (pos 1) ≡ (2, some (ctrl_reply false))
unfolding query retry try_each
queried0 = refl

-- A group whose server 3 is no leader and whose server 4 has the key.
abbrev kv_reply : ℕ → KvReply
kv_reply srv =
    if srv == 3
    then record { err = wrong_leader; value = [] }
    else record { err = Clerks.ok; value = 6 ∷ [] }

abbrev call_get0 : Call ℕ KvReply
call_get0 e srv = (e + 1, some (kv_reply srv))

got0 :
    ask controller0 (1 ∷ 2 ∷ []) call_get0 ends_get 5 1 0 config0 (10 ∷ [])
    ≡ (2, config0, some (kv_reply 4))
unfolding ask lookup key2shard ask_group
got0 = refl

-- The clerk starts without a configuration, and fetches one after a round without an answer.
abbrev no_config : Config
no_config = record { num = pos 0; shards = []; groups = [] }

abbrev key0 : List ℕ
key0 = 10 ∷ []

no_config-Holds : (ss : List ℕ) → ¬ Holding.Holds no_config key0 ss
unfolding lookup
no_config-Holds ss h = ground (arith, h.group)

config0-Holds : Holding.Holds config0 key0 (3 ∷ 4 ∷ [])
unfolding lookup
config0-Holds = record {
  shard = 0;
  is_shard = Holding.first_byte 1 0 [] (omega arith);
  group = refl;
}

not_leader : wrong_leader ≢ Clerks.wrong_group
not_leader h = ground arith

fetched0 : query controller0 (1 ∷ 2 ∷ []) 5 100 (negsuc 0) ≡ (102, some (ctrl_reply false))
unfolding query retry try_each
fetched0 = refl

ask-FromOwner_example :
    (ask controller0 (1 ∷ 2 ∷ []) call_get0 ends_get 5 3 0 no_config key0
      ≡ (104, config0, some (kv_reply 4)))
    × FromOwner controller0
        (1 ∷ 2 ∷ [])
        call_get0
        ends_get
        5
        104
        no_config
        config0
        key0
        (kv_reply 4)
ask-FromOwner_example =
    ask-FromOwner controller0 (1 ∷ 2 ∷ []) call_get0 ends_get 5 1 1 0 104 no_config config0 key0
      (kv_reply 4)
      (asked_again 0 0 0 102 104 no_config config0 (ctrl_reply false) (kv_reply 4)
        (Owners.no_group 0 no_config-Holds) fetched0
        (answered (3 ∷ []) [] 4 102 103 104 config0 (kv_reply 4) config0-Holds
          (Owners.refused 3 [] 102 103 103 (kv_reply 3) refl refl not_leader (Owners.nobody 103))
          refl refl))
