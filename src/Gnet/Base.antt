-- ===== src/Gnet/Base.antt =====
-- The configuration of go-server/global/global.go, and Go's (value, error) pair.
use Prim.Native.String.{String}
use gopher.Prelude.{ℕ, Bool, true, ◌≡◌, refl, ◌⊎◌, inl, inr, ◌<◌}

pub record Conf : Type 0 where
  pub name : String
  pub ver : String
  pub host_ip : String
  pub port : ℕ
  pub max_conn_num : ℕ
  pub max_packet_size : ℕ
  pub worker_pool_size : ℕ
  pub req_chan_len : ℕ
  pub use_msg_serializer : Bool

-- The values that `init` gives the configuration.
abbrev pub default_conf : Conf
default_conf = record {
  name = "Proxy";
  ver = "1.0";
  host_ip = "0.0.0.0";
  port = 8080;
  max_conn_num = 1024;
  max_packet_size = 4096;
  worker_pool_size = 10;
  req_chan_len = 1024;
  use_msg_serializer = true;
}

-- The errors that the package returns or receives. `conn_closed` carries the number in its text.
pub data Error : Type 0 where
  eof unexpected_eof packet_overflow read_error : Error
  conn_closed : ℕ → Error
  conn_not_found : ℕ → Error

pub data Result {ℓ} (A : Type ℓ) : Type ℓ where
  ok : A → Result A
  err : Error → Result A

infixl 5 ◌>>=◌
abbrev pub ◌>>=◌ {ℓ κ} : {A : Type ℓ} {B : Type κ} → Result A → (A → Result B) → Result B
err e >>= next = err e
ok a >>= next = next a

pub Result-cases {ℓ} :
    {A : Type ℓ} (r : Result A) → ((a : A) × (r ≡ ok a)) ⊎ ((e : Error) × (r ≡ err e))
Result-cases (ok a) = inl (a, refl)
Result-cases (err e) = inr (e, refl)

abbrev pub IsByte : ℕ → Type 0
IsByte b = b < 256

-- A `uint32`.
abbrev pub IsU32 : ℕ → Type 0
IsU32 v = v < 0x1_0000_0000
