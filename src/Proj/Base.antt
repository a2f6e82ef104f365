-- ===== src/Proj/Base.antt =====
-- What the user service stands on: its data (go-proj/src/data, go-proj/src/dto), and the libraries
-- that it calls: gorm, go-redis, bcrypt, jwt, viper and encoding/json, each operation a field.
use gopher.Prelude.{ℕ, List, [], Option, Bool}
use gopher.Prelude.Integers.{ℤ}

abbrev pub Text : Type 0
Text = List ℕ

-- A value, or the message of an error.
pub data Result (A : Type 0) : Type 0 where
  ok : A → Result A
  err : Text → Result A

-- The times of `gorm.Model` are left out.
pub record User : Type 0 where
  pub id : ℕ
  pub username : Text
  pub password : Text
  pub name : Text
  pub phone : Text
  pub email : Text
  pub avatar : Text

abbrev pub zero_user : User
zero_user = record {
  id = 0;
  username = [];
  password = [];
  name = [];
  phone = [];
  email = [];
  avatar = [];
}

-- Times are counted in nanoseconds.
pub record Payload : Type 0 where
  pub id : ℕ
  pub username : Text
  pub subject : Text
  pub issued_at : ℤ
  pub expires_at : ℤ

pub record Deps : Type 1 where
  pub Db : Type 0
  pub Cache : Type 0
  -- gorm: Save with the hook BeforeCreate, First, Find with Offset and Limit, Count, and Delete.
  pub db_save : (User → Result User) → Db → User → Db × Result User
  pub db_first_username : Db → Text → Result User
  pub db_first_id : Db → ℕ → Result User
  pub db_find : Db → ℤ → ℤ → Result (List User)
  pub db_count : Db → Result ℕ
  pub db_delete_id : Db → ℕ → Db × Option Text
  -- go-redis: Set, Get, TTL and Expire.
  pub cache_set : Cache → Text → Text → ℤ → Cache × Option Text
  pub cache_get : Cache → Text → Result Text
  pub cache_ttl : Cache → Text → Result ℤ
  pub cache_expire : Cache → Text → ℤ → Cache
  -- bcrypt
  pub generate : Text → Result Text
  pub compare_hash : Text → Text → Bool
  -- jwt, with the signing key; parsing knows the time
  pub sign : Payload → Result Text
  pub parse_claims : ℤ → Text → Result (Payload × Bool)
  -- encoding/json, on the map of an id and a username
  pub marshal_login : ℕ → Text → Text
  -- viper: the configured numbers
  pub paginate_curr : ℤ
  pub paginate_limit : ℤ
  pub redis_expire : ℤ
  pub jwt_expire : ℤ

pub record World (d : Deps) : Type 0 where
  pub db : d.Db
  pub cache : d.Cache
