-- ===== src/Proj/Memory.antt =====
-- The libraries in memory: they keep what gorm, go-redis, bcrypt and jwt document.
use gopher.Prelude.{
  ℕ, ◌+◌, ◌≡◌, ◌≢◌, refl, List, [], ◌∷◌, Option, none, some, Bool, true, false, not, ◌&&◌, ◌==◌,
  arith, if◌then◌else◌, length, take, drop, inl, inr, Bool-cases,
}
use gopher.Prelude.Integers.{ℤ, pos, negsuc, is_nonpos, ltℤ}
use gopher.Prelude.Dict.{Dict, lookup, insert, lookup-insert}
use gopher.Prelude.Classes.{bytes_key, bytes_eq, bytes_eq_iff}
use gopher.Proj.Base.{Text, Result, ok, err, User, Payload, Deps}
use gopher.Proj.Service.Accounts.{record_not_found, AccountLaws, Result-cases}
use gopher.Proj.Authorize.Sessions.{SessionLaws}

unfoldable pub first_named : List User → Text → Result User
first_named [] name = err record_not_found
first_named (u ∷ users) name =
    let rest = first_named users name in
    if bytes_eq u.username name && not (u.id == 0) then ok u else rest

unfoldable pub first_numbered : List User → ℕ → Result User
first_numbered [] id = err []
first_numbered (u ∷ users) id =
    let rest = first_numbered users id in if u.id == id then ok u else rest

unfoldable pub save : (User → Result User) → List User → User → List User × Result User
save hook users user =
    if user.id == 0
    then (elim (hook user) [
      | err e ↦ (users, err e)
      | ok hashed ↦ let saved = record hashed { id = length users + 1 } in (saved ∷ users, ok saved)
    ])
    else (user ∷ users, ok user)

abbrev pub token_subject : Text
token_subject = 84 ∷ 111 ∷ 107 ∷ 101 ∷ 110 ∷ []

unfoldable pub sign_plain : Payload → Result Text
sign_plain p = elim p.issued_at [
  | negsuc i ↦ err []
  | pos i ↦ elim p.expires_at [
    | negsuc e ↦ err []
    | pos e ↦ if bytes_eq p.subject token_subject then ok (p.id ∷ i ∷ e ∷ p.username) else err []
  ]
]

unfoldable pub parse_plain : ℤ → Text → Result (Payload × Bool)
parse_plain now [] = err []
parse_plain now (a ∷ []) = err []
parse_plain now (a ∷ b ∷ []) = err []
parse_plain now (id ∷ i ∷ e ∷ name) = ok (
  record {
    id = id;
    username = name;
    subject = token_subject;
    issued_at = pos i;
    expires_at = pos e;
  },
  ltℤ now (pos e),
)

abbrev pub as_found : Option Text → Result Text
as_found none = err []
as_found (some v) = ok v

abbrev pub as_ttl : Option Text → Result ℤ
as_ttl none = ok (negsuc 1)
as_ttl (some v) = ok (pos 60)

abbrev pub page_of : List User → ℤ → ℤ → Result (List User)
page_of users (pos o) (pos l) = ok (take l (drop o users))
page_of users (pos o) (negsuc l) = ok (drop o users)
page_of users (negsuc o) (pos l) = ok (take l users)
page_of users (negsuc o) (negsuc l) = ok users

abbrev pub memory : Deps
memory = record {
  Db = List User;
  Cache = Dict Text Text;
  db_save = save;
  db_first_username = first_named;
  db_first_id = first_numbered;
  db_find = page_of;
  db_count = λ users. ok (length users);
  db_delete_id = λ users id. (users, none);
  cache_set = λ c k v t. (insert k v c, none);
  cache_get = λ c k. as_found (lookup k c);
  cache_ttl = λ c k. as_ttl (lookup k c);
  cache_expire = λ c k t. c;
  generate = λ p. ok (0 ∷ p);
  compare_hash = λ h p. bytes_eq h (0 ∷ p);
  sign = sign_plain;
  parse_claims = parse_plain;
  marshal_login = λ id name. id ∷ name;
  paginate_curr = pos 1;
  paginate_limit = pos 10;
  redis_expire = pos 60;
  jwt_expire = pos 60;
}

first_named-id :
    (users : List User) (name : Text) (user : User) → first_named users name ≡ ok user → user.id ≢ 0
unfolding first_named
first_named-id [] name user h z = ground arith
first_named-id (u ∷ users) name user h z =
    elim (Bool-cases (bytes_eq u.username name && not (u.id == 0))) [
      | inl e ↦ ground arith
      | inr e ↦ first_named-id users name user (ground arith) z
    ]

memory_creates :
    (hook : User → Result User) (db db' : List User) (user saved : User)
    → user.id ≡ 0
    → save hook db user ≡ (db', ok saved)
    → (hashed : User) × (hook user ≡ ok hashed)
      × (saved ≡ record hashed { id = saved.id })
      × (first_named db hashed.username ≡ err record_not_found
          → first_named db' hashed.username ≡ ok saved)
unfolding save first_named
memory_creates hook db db' user saved z h = elim (Result-cases (hook user)) [
  | inr (m, e) ↦ absurd (ground arith)
  | inl (hashed, e) ↦
      (hashed, e, ground arith, λ n. ground (arith, bytes_eq_iff hashed.username hashed.username))
]

memory_updates :
    (hook : User → Result User) (db db' : List User) (user saved : User)
    → user.id ≢ 0
    → save hook db user ≡ (db', ok saved)
    → first_numbered db' user.id ≡ ok user
unfolding save first_numbered
memory_updates hook db db' user saved z h = ground arith

pub memory_accounts : AccountLaws memory
memory_accounts = record {
  first_id = first_named-id;
  save_creates = memory_creates;
  save_updates = memory_updates;
  compare_generate = λ p h e. ground (arith, bytes_eq_iff h (0 ∷ p));
}

memory_parses :
    (now : ℤ) (payload : Payload) (token : Text)
    → ltℤ now payload.expires_at ≡ true
    → sign_plain payload ≡ ok token
    → parse_plain now token ≡ ok (payload, true)
unfolding sign_plain parse_plain
memory_parses now payload token l h = split payload.issued_at payload.expires_at refl refl
  where
    split :
        (i e : ℤ)
        → payload.issued_at ≡ i
        → payload.expires_at ≡ e
        → parse_plain now token ≡ ok (payload, true)
    split (negsuc i) e a b = absurd (ground arith)
    split (pos i) (negsuc e) a b = absurd (ground arith)
    split (pos i) (pos e) a b = ground (arith, bytes_eq_iff payload.subject token_subject)

pub memory_sessions : SessionLaws memory
unfolding is_nonpos
memory_sessions = record {
  get_set = λ c c' k v t e. ground (arith, lookup-insert k k v c, bytes_eq_iff k k);
  get_set_ne = λ c c' k l v t n e. (
    ground (arith, lookup-insert k l v c, bytes_eq_iff k l),
    ground (arith, lookup-insert k l v c, bytes_eq_iff k l),
  );
  ttl_set =
      λ c c' k v t e n. (pos 60, ground (arith, lookup-insert k k v c, bytes_eq_iff k k), sixty);
  parse_sign = memory_parses;
}
  where
    sixty : is_nonpos (pos 60) ≡ false
    sixty = ground arith
