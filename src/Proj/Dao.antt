-- ===== src/Proj/Dao.antt =====
-- go-proj/src/dao, with the hook of go-proj/src/data/user.go and go-proj/src/util/encrypt.go.
pub mod Pages
use gopher.Prelude.{ℕ, List, [], ◌∷◌, Option, none, some, Bool, ◌==◌, if◌then◌else◌}
use gopher.Prelude.Integers.{ℤ, pos, negsuc, ◌+ℤ◌, ◌*ℤ◌, wrap64}
use gopher.Proj.Base.{Text, Result, ok, err, User, zero_user, Deps, World}
use gopher.Proj.Dto.{
  PaginateDto, get_page, get_limit, UserInsertDto, insert_to_user, UserUpdateDto, update_to_user,
}

unfoldable pub encrypt : Deps → Text → Result Text
encrypt d password = elim (d.generate password) [ err e ↦ err e | ok hash ↦ ok hash ]

abbrev pub is_equivalent : Deps → Text → Text → Bool
is_equivalent d hash password = d.compare_hash hash password

-- A failure leaves the password as it was and stops the creation.
unfoldable pub before_create : Deps → User → Result User
before_create d user = elim (encrypt d user.password) [
  | err e ↦ err e
  | ok hash ↦ ok (record user { password = hash })
]

-- The request gets the id that the database gave, and its password is blanked.
unfoldable pub insert_user :
    (d : Deps) → World d → UserInsertDto → World d × UserInsertDto × Option Text
insert_user d w t =
    let (db, saved) = d.db_save (before_create d) w.db (insert_to_user t zero_user) in
    elim saved [
      | err e ↦ (record w { db = db }, t, some e)
      | ok user ↦ (record w { db = db }, record t { id = user.id; password = [] }, none)
    ]

abbrev pub no_username : Text
no_username =
    117 ∷ 115 ∷ 101 ∷ 114 ∷ 110 ∷ 97 ∷ 109 ∷ 101 ∷ 32 ∷ 100 ∷ 111 ∷ 101 ∷ 115 ∷ 110 ∷ 39 ∷ 116 ∷ 32
    ∷ 101 ∷ 120 ∷ 105 ∷ 115 ∷ 116 ∷ []

unfoldable pub select_user_by_username : (d : Deps) → World d → Text → Result User
select_user_by_username d w username = elim (d.db_first_username w.db username) [
  | err e ↦ err e
  | ok user ↦ if user.id == 0 then err no_username else ok user
]

unfoldable pub select_user_by_id : (d : Deps) → World d → ℕ → Result User
select_user_by_id d w id = d.db_first_id w.db id

-- The offset and the limit of a page. The offset is computed before a missing limit is replaced.
unfoldable pub get_paginate : Deps → PaginateDto → ℤ × ℤ
get_paginate d p =
    let (p1, page) = get_page d p in
    let offset = wrap64 (wrap64 (page +ℤ negsuc 0) *ℤ p1.limit) in
    let (p2, lim) = get_limit d p1 in (offset, lim)

-- The users of a page, and how many there are in all.
unfoldable pub select_paginated_users : (d : Deps) → World d → PaginateDto → Result (List User × ℕ)
select_paginated_users d w p =
    let (offset, lim) = get_paginate d p in
    elim (d.db_find w.db offset lim) [
      | err e ↦ err e
      | ok users ↦ elim (d.db_count w.db) [ err e ↦ err e | ok total ↦ ok (users, total) ]
    ]

unfoldable pub update_user : (d : Deps) → World d → UserUpdateDto → World d × Option Text
update_user d w t = elim (select_user_by_id d w t.id) [
  | err e ↦ (w, some e)
  | ok user ↦
      let (db, saved) = d.db_save (before_create d) w.db (update_to_user t user) in
      (record w { db = db }, elim saved [ err e ↦ some e | ok u ↦ none ])
]

-- The user that is returned is never filled.
unfoldable pub delete_user_by_id : (d : Deps) → World d → ℕ → World d × Result User
delete_user_by_id d w id =
    let (db, failed) = d.db_delete_id w.db id in
    (record w { db = db }, elim failed [ some e ↦ err e | none ↦ ok zero_user ])
