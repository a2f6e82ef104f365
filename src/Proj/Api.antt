-- ===== src/Proj/Api.antt =====
-- go-proj/src/api/user_api.go: the handlers. What gin binds from a request is given to the handler,
-- also what it says of an uploaded file.
pub mod Answers
use gopher.Prelude.{
  ℕ, List, [], ◌∷◌, ◌++◌, Option, none, some, Bool, true, false, ◌==◌, if◌then◌else◌,
}
use gopher.Prelude.Integers.{ℤ, pos}
use gopher.Prelude.Classes.{bytes_eq}
use gopher.Proj.Base.{Text, Result, ok, err, User, Deps, World}
use gopher.Proj.Dto.{PaginateDto, LoginDto, UserInsertDto, UserUpdateDto}
use gopher.Proj.Dao
use gopher.Proj.Dao.{select_user_by_id, select_paginated_users, delete_user_by_id}
use gopher.Proj.Resp.{
  Data, no_data, token_user, inserted, one_user, users_total, Resp, Sent, send_ok, send_err,
}
use gopher.Proj.Service
use gopher.Proj.Service.{login, insert_user, update_user}

abbrev pub fails : Text → Sent
fails msg = send_err (record { code = pos 0; msg = msg; data_ = no_data })

abbrev pub answers : Text → Data → Sent
answers msg a = send_ok (record { code = pos 0; msg = msg; data_ = a })

-- "User Login OK" and so on.
pub record Words : Type 0 where
  pub user_login : Text
  pub insert_user : Text
  pub select_user : Text
  pub select_users : Text
  pub update_user : Text
  pub delete_user : Text

abbrev pub words : Words
words = record {
  user_login = 85 ∷ 115 ∷ 101 ∷ 114 ∷ 32 ∷ 76 ∷ 111 ∷ 103 ∷ 105 ∷ 110 ∷ 32 ∷ 79 ∷ 75 ∷ [];
  insert_user = 73 ∷ 110 ∷ 115 ∷ 101 ∷ 114 ∷ 116 ∷ 32 ∷ 85 ∷ 115 ∷ 101 ∷ 114 ∷ 32 ∷ 79 ∷ 75 ∷ [];
  select_user =
      83 ∷ 101 ∷ 108 ∷ 101 ∷ 99 ∷ 116 ∷ 32 ∷ 85 ∷ 115 ∷ 101 ∷ 114 ∷ 32 ∷ 66 ∷ 121 ∷ 32 ∷ 73 ∷ 100
      ∷ 32 ∷ 79 ∷ 75 ∷ [];
  select_users =
      83 ∷ 101 ∷ 108 ∷ 101 ∷ 99 ∷ 116 ∷ 32 ∷ 80 ∷ 97 ∷ 103 ∷ 105 ∷ 110 ∷ 97 ∷ 116 ∷ 101 ∷ 100 ∷ 32
      ∷ 85 ∷ 115 ∷ 101 ∷ 114 ∷ 115 ∷ 32 ∷ 79 ∷ 75 ∷ [];
  update_user = 85 ∷ 112 ∷ 100 ∷ 97 ∷ 116 ∷ 101 ∷ 32 ∷ 85 ∷ 115 ∷ 101 ∷ 114 ∷ 32 ∷ 79 ∷ 75 ∷ [];
  delete_user =
      68 ∷ 101 ∷ 108 ∷ 101 ∷ 116 ∷ 101 ∷ 32 ∷ 85 ∷ 115 ∷ 101 ∷ 114 ∷ 32 ∷ 66 ∷ 121 ∷ 32 ∷ 73 ∷ 100
      ∷ 32 ∷ 79 ∷ 75 ∷ [];
}

-- The file of a form, a fresh name for it, and what saving it under a path says.
pub record Upload : Type 0 where
  pub form_file : Result Text
  pub new_uuid : Result Text
  pub save_uploaded : Text → Option Text

-- `filepath.Ext`: what follows the last dot of the last element of the path, with the dot.
unfoldable pub ext : Text → Text → Text
ext [] found = found
ext (c ∷ path) found =
    let rest = ext path found in
    let from_dot = ext path (c ∷ path) in
    let from_slash = ext path [] in
    if c == b'.' then from_dot else if c == b'/' then from_slash else rest

-- "./upload/"
abbrev pub upload_dir : Text
upload_dir = b'.' ∷ b'/' ∷ 117 ∷ 112 ∷ 108 ∷ 111 ∷ 97 ∷ 100 ∷ b'/' ∷ []

unfoldable pub save_avatar : Upload → Option Text
save_avatar u = elim u.form_file [
  | err e ↦ some e
  | ok filename ↦ elim u.new_uuid [
    | err e ↦ some e
    | ok name ↦ u.save_uploaded (upload_dir ++ name ++ ext filename [])
  ]
]

module _ (d : Deps) where
  unfoldable pub login_handler : World d → ℤ → Result LoginDto → World d × Sent
  login_handler w now bound = elim bound [
    | err e ↦ (w, fails e)
    | ok t ↦
        let (w', r) = login d w now t in
        (
          w',
          elim r [
            | err e ↦ fails e
            | ok (user, token) ↦ answers words.user_login (token_user token user)
          ],
        )
  ]

  unfoldable pub insert_handler : World d → Upload → Result UserInsertDto → World d × Sent
  insert_handler w upload bound = elim bound [
    | err e ↦ (w, fails e)
    | ok t ↦ elim (if bytes_eq t.avatar [] then none else save_avatar upload) [
      | some e ↦ (w, fails e)
      | none ↦
          let (w', t', failed) = insert_user d w t in
          (w', elim failed [ some e ↦ fails e | none ↦ answers words.insert_user (inserted t') ])
    ]
  ]

  unfoldable pub select_handler : World d → Result ℕ → World d × Sent
  select_handler w bound = elim bound [
    | err e ↦ (w, fails e)
    | ok id ↦ (
      w,
      elim (select_user_by_id d w id) [
        | err e ↦ fails e
        | ok user ↦ answers words.select_user (one_user user)
      ],
    )
  ]

  unfoldable pub select_page_handler : World d → Result PaginateDto → World d × Sent
  select_page_handler w bound = elim bound [
    | err e ↦ (w, fails e)
    | ok p ↦ (
      w,
      elim (select_paginated_users d w p) [
        | err e ↦ fails e
        | ok (users, total) ↦ answers words.select_users (users_total users total)
      ],
    )
  ]

  -- The object is bound twice: from the path, and then from the rest of the request.
  unfoldable pub update_handler :
      World d → Result UserUpdateDto → (UserUpdateDto → Result UserUpdateDto) → World d × Sent
  update_handler w bound_uri bind = elim bound_uri [
    | err e ↦ (w, fails e)
    | ok t0 ↦ elim (bind t0) [
      | err e ↦ (w, fails e)
      | ok t ↦
          let (w', failed) = update_user d w t in
          (w', elim failed [ some e ↦ fails e | none ↦ answers words.update_user no_data ])
    ]
  ]

  unfoldable pub delete_handler : World d → Result ℕ → World d × Sent
  delete_handler w bound = elim bound [
    | err e ↦ (w, fails e)
    | ok id ↦
        let (w', r) = delete_user_by_id d w id in
        (w', elim r [ err e ↦ fails e | ok user ↦ answers words.delete_user (one_user user) ])
  ]
