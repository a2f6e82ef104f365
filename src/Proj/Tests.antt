-- ===== src/Proj/Tests.antt =====
-- A user registers, logs in and asks for pages, with the libraries in memory; and the theorems at
-- these inputs.
use gopher.Prelude.{◌≡◌, ◌≢◌, refl, [], ◌∷◌, ◌++◌, none, some, false, arith}
use gopher.Prelude.Integers.{ℤ, pos, is_nonpos}
use gopher.Prelude.Dict.{insert}
use gopher.Prelude.Classes.{bytes_key}
use gopher.Proj.Base.{Text, ok, err, User, zero_user, Payload, World}
use gopher.Proj.Dto.{UserInsertDto, UserUpdateDto, insert_to_user, update_to_user}
use gopher.Proj.Dao
use gopher.Proj.Dao.{
  select_user_by_username, select_user_by_id, before_create, encrypt, get_paginate,
}
use gopher.Proj.Service.{
  login, insert_user, update_user, gen_token, cache_login, cache_time, token_key, user_key,
  parse_token,
}
use gopher.Proj.Service.Accounts.{record_not_found, login-insert_user}
use gopher.Proj.Resp.{
  Resp, Sent, send_err, HasClass, IsConsistent, send_ok-send_err, no_data, not_admin,
  not_admin-accepts,
}
use gopher.Proj.Authorize.{aborted, next, bearer, authorize}
use gopher.Proj.Authorize.Passing.{authorize-next}
use gopher.Proj.Api.{Upload}
use gopher.Proj.Memory.{memory, memory_accounts, first_named, first_numbered, save}

abbrev ann : UserInsertDto
ann = record {
  id = 0;
  username = 7 ∷ [];
  password = 8 ∷ [];
  name = [];
  phone = [];
  email = [];
  avatar = [];
}

abbrev ann_stored : User
ann_stored = record {
  id = 1;
  username = 7 ∷ [];
  password = 0 ∷ 8 ∷ [];
  name = [];
  phone = [];
  email = [];
  avatar = [];
}

abbrev ann_answered : UserInsertDto
ann_answered = record ann { id = 1; password = [] }

abbrev empty_world : World memory
empty_world = record { db = []; cache = [] }

abbrev ann_world : World memory
ann_world = record { db = ann_stored ∷ []; cache = [] }

ann_registers : insert_user memory empty_world ann ≡ (ann_world, ann_answered, none)
unfolding insert_user select_user_by_username first_named Dao.insert_user save insert_to_user
    before_create encrypt
ann_registers = refl

nobody_yet : first_named [] (7 ∷ []) ≡ err record_not_found
unfolding first_named
nobody_yet = refl

login-insert_user_example :
    (user : User) × (save (before_create memory) [] (insert_to_user ann zero_user)
      ≡ (ann_stored ∷ [], ok user))
    × (ann_answered ≡ record ann { id = user.id; password = [] })
    × (user.username ≡ 7 ∷ [])
    × ((w'' : World memory) (now : ℤ) (token : Text)
        → gen_token memory now user.id (7 ∷ []) ≡ ok token
        → cache_login memory ann_world user token ≡ (w'', none)
        → login memory ann_world now (record { username = 7 ∷ []; password = 8 ∷ [] })
          ≡ (w'', ok (user, token)))
login-insert_user_example =
    login-insert_user memory memory_accounts empty_world ann_world ann ann_answered nobody_yet
      ann_registers

abbrev renaming : UserUpdateDto
renaming = record { id = 1; username = 9 ∷ []; name = []; phone = []; email = [] }

abbrev renamed_world : World memory
renamed_world = record {
  db = record ann_stored { username = 9 ∷ [] } ∷ ann_stored ∷ [];
  cache = [];
}

ann_renamed : update_user memory ann_world renaming ≡ (renamed_world, none)
unfolding update_user Dao.update_user select_user_by_id first_numbered save update_to_user
ann_renamed = refl

-- The token of ann, signed at time 5.
abbrev ann_token : Text
ann_token = 1 ∷ 5 ∷ 4659767778871345157 ∷ 7 ∷ []

abbrev ann_inside : World memory
ann_inside = record {
  db = ann_stored ∷ [];
  cache = insert (user_key 1) (1 ∷ 7 ∷ []) (insert (token_key 1) ann_token []);
}

authorize-next_example :
    ((h : Text)
      → authorize memory ann_inside (pos 6) (bearer ++ ann_token) ≡ (ann_inside, next h)
      → (token : Text) × (payload : Payload) × (ttl : ℤ) × (bearer ++ ann_token ≡ bearer ++ token)
        × (h ≡ bearer ++ ann_token)
        × (parse_token memory (pos 6) token ≡ ok payload)
        × (memory.cache_get ann_inside.cache (token_key payload.id) ≡ ok token)
        × (memory.cache_ttl ann_inside.cache (token_key payload.id) ≡ ok ttl)
        × (is_nonpos ttl ≡ false)
        × (ann_inside ≡ record ann_inside {
          cache = memory.cache_expire ann_inside.cache (token_key payload.id) (cache_time memory);
        }))
    × ((token : Text) (payload : Payload) (ttl : ℤ)
        → bearer ++ ann_token ≡ bearer ++ token
        → parse_token memory (pos 6) token ≡ ok payload
        → memory.cache_get ann_inside.cache (token_key payload.id) ≡ ok token
        → memory.cache_ttl ann_inside.cache (token_key payload.id) ≡ ok ttl
        → is_nonpos ttl ≡ false
        → (authorize memory ann_inside (pos 6) (bearer ++ ann_token)).1
          ≡ next (bearer ++ ann_token))
    × ((s : Sent)
        → authorize memory ann_inside (pos 6) (bearer ++ ann_token) ≡ (ann_inside, aborted s)
        → (ann_inside ≡ ann_inside) × (s.status ≡ pos 400))
authorize-next_example = authorize-next memory ann_inside ann_inside (pos 6) (bearer ++ ann_token)

abbrev no_upload : Upload
no_upload = record { form_file = err []; new_uuid = err []; save_uploaded = λ p. none }
