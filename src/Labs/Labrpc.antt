-- ===== src/Labs/Labrpc.antt =====
-- 6.5840/src/labrpc/labrpc.go: the simulated network. Names of ends and servers are only compared,
-- and stand as numbers; a server object is a place in `objects`, and `W` is the state behind the
-- handlers. Arguments and replies are the bytes that the encoder made of them.

use gopher.Prelude.{
  ℕ, List, [], Option, none, some, Bool, true, false, not, ◌||◌, ◌==◌, if◌then◌else◌, ◌≡◌, refl,
  ◌⊎◌, inl, inr,
}
use gopher.Prelude.Dict.{Dict, lookup, insert}
use gopher.Prelude.Classes.{nat_key, bytes_key}

-- A request that the program cannot answer ends it: `log.Fatalf`, or a slice out of range.
pub data Run {ℓ} (A : Type ℓ) : Type ℓ where
  done : A → Run A
  fatal : Run A

pub Run-cases {ℓ} : {A : Type ℓ} (r : Run A) → ((a : A) × (r ≡ done a)) ⊎ (r ≡ fatal)
Run-cases (done a) = inl (a, refl)
Run-cases fatal = inr refl

pub record ReqMsg : Type 0 where
  pub endname : ℕ
  pub svc_meth : List ℕ
  pub args : List ℕ

pub record ReplyMsg : Type 0 where
  pub ok : Bool
  pub reply : List ℕ

abbrev pub failed : ReplyMsg
failed = record { ok = false; reply = [] }

-- What `reflect` says of a method of the receiver.
pub record Method : Type 0 where
  pub name : List ℕ
  pub exported : Bool
  pub num_in : ℕ
  pub reply_is_ptr : Bool
  pub num_out : ℕ

-- A handler takes the arguments to the reply, and may change the state of its receiver.
abbrev pub Handler : Type 0 → Type 0
Handler W = W → List ℕ → W × List ℕ

pub record Service (W : Type 0) : Type 0 where
  pub name : List ℕ
  pub methods : Dict (List ℕ) (Handler W)

pub record Server (W : Type 0) : Type 0 where
  pub services : Dict (List ℕ) (Service W)
  pub count : ℕ

pub record Network (W : Type 0) : Type 0 where
  pub reliable : Bool
  pub long_delays : Bool
  pub long_reordering : Bool
  pub ends : Dict ℕ (Unit {0})
  pub enabled : Dict ℕ Bool
  pub servers : Dict ℕ (Option ℕ)
  pub connections : Dict ℕ (Option ℕ)
  pub objects : List (Server W)
  pub is_done : Bool
  pub count : ℕ
  pub bytes : ℕ

-- A missing entry reads as the zero value: false, or nil.
abbrev pub enabled_or_false : Option Bool → Bool
enabled_or_false none = false
enabled_or_false (some b) = b

abbrev pub or_nil {ℓ} : {A : Type ℓ} → Option (Option A) → Option A
or_nil none = none
or_nil (some a) = a

module _ {W : Type 0} where
  abbrev pub make_network : Network W
  make_network = record {
    reliable = true;
    long_delays = false;
    long_reordering = false;
    ends = [];
    enabled = [];
    servers = [];
    connections = [];
    objects = [];
    is_done = false;
    count = 0;
    bytes = 0;
  }

  abbrev pub cleanup : Network W → Network W
  cleanup rn = record rn { is_done = true }

  abbrev pub set_reliable : Network W → Bool → Network W
  set_reliable rn yes' = record rn { reliable = yes' }

  abbrev pub set_long_reordering : Network W → Bool → Network W
  set_long_reordering rn yes' = record rn { long_reordering = yes' }

  abbrev pub set_long_delays : Network W → Bool → Network W
  set_long_delays rn yes' = record rn { long_delays = yes' }

  -- The end that a name denotes may be made once. It starts disabled and unconnected.
  unfoldable pub make_end : Network W → ℕ → Run (Network W)
  make_end rn endname = elim (lookup endname rn.ends) [
    | some _ ↦ fatal
    | none ↦ done (record rn {
      ends = insert endname tt rn.ends;
      enabled = insert endname false rn.enabled;
      connections = insert endname none rn.connections;
    })
  ]

  unfoldable pub add_server : Network W → ℕ → ℕ → Network W
  add_server rn servername object = record rn {
    servers = insert servername (some object) rn.servers;
  }

  unfoldable pub delete_server : Network W → ℕ → Network W
  delete_server rn servername = record rn { servers = insert servername none rn.servers }

  unfoldable pub connect : Network W → ℕ → ℕ → Network W
  connect rn endname servername = record rn {
    connections = insert endname (some servername) rn.connections;
  }

  unfoldable pub enable : Network W → ℕ → Bool → Network W
  enable rn endname on = record rn { enabled = insert endname on rn.enabled }

  abbrev pub get_total_count : Network W → ℕ
  get_total_count rn = rn.count

  abbrev pub get_total_bytes : Network W → ℕ
  get_total_bytes rn = rn.bytes

  -- The server that an enabled end reaches, with its name, if there is one.
  unfoldable pub read_endname_info : Network W → ℕ → Option (ℕ × ℕ)
  read_endname_info rn endname =
      if enabled_or_false (lookup endname rn.enabled)
      then (elim (or_nil (lookup endname rn.connections)) [
        | none ↦ none
        | some servername ↦ elim (or_nil (lookup servername rn.servers)) [
          | none ↦ none
          | some object ↦ some (servername, object)
        ]
      ])
      else none

  -- The end was disabled, or the name no longer denotes that server.
  unfoldable pub is_server_dead : Network W → ℕ → ℕ → ℕ → Bool
  is_server_dead rn endname servername object =
      not (enabled_or_false (lookup endname rn.enabled))
      || (elim (or_nil (lookup servername rn.servers)) [
        | none ↦ true
        | some other ↦ not (other == object)
      ])
