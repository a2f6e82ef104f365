-- ===== src/Proj/Service.antt =====
-- go-proj/src/service/user_service.go, with go-proj/src/util/jwt.go.
pub mod Accounts
use gopher.Prelude.{
  ℕ, ◌+◌, List, [], ◌∷◌, ◌++◌, Option, none, some, Bool, true, false, not, ltb, ◌==◌, if◌then◌else◌,
}
use gopher.Prelude.Integers.{ℤ, pos, ◌+ℤ◌, ◌*ℤ◌, wrap64, signed64, bits64, itoa}
use gopher.Proj.Base.{Text, Result, ok, err, User, zero_user, Payload, Deps, World}
use gopher.Proj.Dto.{PaginateDto, LoginDto, UserInsertDto, UserUpdateDto}
use gopher.Proj.Dao
use gopher.Proj.Dao.{select_user_by_username, select_user_by_id, is_equivalent}

-- `time.Second`
abbrev pub second : ℤ
second = pos 1000000000

-- The payload of a token that is signed at a time.
unfoldable pub new_payload : Deps → ℤ → ℕ → Text → Payload
new_payload d now id username =
    let expire = wrap64 (d.jwt_expire *ℤ second) in
    record {
      id = id;
      username = username;
      subject = 84 ∷ 111 ∷ 107 ∷ 101 ∷ 110 ∷ [];
      issued_at = now;
      expires_at = now +ℤ wrap64 (expire *ℤ second);
    }

unfoldable pub gen_token : Deps → ℤ → ℕ → Text → Result Text
gen_token d now id username = d.sign (new_payload d now id username)

abbrev pub token_invalid : Text
token_invalid = 116 ∷ 111 ∷ 107 ∷ 101 ∷ 110 ∷ 32 ∷ 105 ∷ 110 ∷ 118 ∷ 97 ∷ 108 ∷ 105 ∷ 100 ∷ []

unfoldable pub parse_token : Deps → ℤ → Text → Result Payload
parse_token d now token = elim (d.parse_claims now token) [
  | err e ↦ err e
  | ok (payload, valid) ↦ if valid then ok payload else err token_invalid
]

-- `"token" + strconv.Itoa(int(id))`, and the same with "user".
unfoldable pub token_key : ℕ → Text
token_key id = 116 ∷ 111 ∷ 107 ∷ 101 ∷ 110 ∷ itoa (signed64 (bits64 (pos id)))

unfoldable pub user_key : ℕ → Text
user_key id = 117 ∷ 115 ∷ 101 ∷ 114 ∷ itoa (signed64 (bits64 (pos id)))

unfoldable pub cache_time : Deps → ℤ
cache_time d = wrap64 (d.redis_expire *ℤ second)

abbrev pub password_error : Text
password_error =
    112 ∷ 97 ∷ 115 ∷ 115 ∷ 119 ∷ 111 ∷ 114 ∷ 100 ∷ 32 ∷ 101 ∷ 114 ∷ 114 ∷ 111 ∷ 114 ∷ []

-- The token is kept under the user's id, and then what the user logged in as.
unfoldable pub cache_login : (d : Deps) → World d → User → Text → World d × Option Text
cache_login d w user token =
    let (c1, failed1) = d.cache_set w.cache (token_key user.id) token (cache_time d) in
    elim failed1 [
      | some e ↦ (record w { cache = c1 }, some e)
      | none ↦
          let (c2, failed2) =
            d.cache_set c1 (user_key user.id) (d.marshal_login user.id user.username)
              (cache_time d) in
          (record w { cache = c2 }, failed2)
    ]

unfoldable pub login : (d : Deps) → World d → ℤ → LoginDto → World d × Result (User × Text)
login d w now t = elim (select_user_by_username d w t.username) [
  | err e ↦ (w, err e)
  | ok user ↦
      if not (is_equivalent d user.password t.password)
      then (w, err password_error)
      else elim (gen_token d now user.id user.username) [
        | err e ↦ (w, err e)
        | ok token ↦
            let (w', failed) = cache_login d w user token in
            (w', elim failed [ some e ↦ err e | none ↦ ok (user, token) ])
      ]
]

abbrev pub username_exists : Text
username_exists =
    117 ∷ 115 ∷ 101 ∷ 114 ∷ 110 ∷ 97 ∷ 109 ∷ 101 ∷ 32 ∷ 101 ∷ 120 ∷ 105 ∷ 115 ∷ 116 ∷ 115 ∷ []

unfoldable pub insert_user :
    (d : Deps) → World d → UserInsertDto → World d × UserInsertDto × Option Text
insert_user d w t = elim (select_user_by_username d w t.username) [
  | ok _ ↦ (w, t, some username_exists)
  | err _ ↦ Dao.insert_user d w t
]

abbrev pub id_invalid : Text
id_invalid = 105 ∷ 100 ∷ 32 ∷ 105 ∷ 110 ∷ 118 ∷ 97 ∷ 108 ∷ 105 ∷ 100 ∷ []

unfoldable pub update_user : (d : Deps) → World d → UserUpdateDto → World d × Option Text
update_user d w t = if t.id == 0 then (w, some id_invalid) else Dao.update_user d w t
