-- ===== src/Proj/Dto.antt =====
-- go-proj/src/dto: what a request carries, and how it is written to a user.
use gopher.Prelude.{ℕ, if◌then◌else◌}
use gopher.Prelude.Integers.{ℤ, is_nonpos}
use gopher.Proj.Base.{Text, User, Deps}

pub record PaginateDto : Type 0 where
  pub curr : ℤ
  pub limit : ℤ

-- Both replace a number that is not positive by the configured one, in the object itself.
unfoldable pub get_page : Deps → PaginateDto → PaginateDto × ℤ
get_page d p =
    let page = if is_nonpos p.curr then d.paginate_curr else p.curr in
    (record p { curr = page }, page)

unfoldable pub get_limit : Deps → PaginateDto → PaginateDto × ℤ
get_limit d p =
    let lim = if is_nonpos p.limit then d.paginate_limit else p.limit in
    (record p { limit = lim }, lim)

pub record LoginDto : Type 0 where
  pub username : Text
  pub password : Text

pub record UserInsertDto : Type 0 where
  pub id : ℕ
  pub username : Text
  pub password : Text
  pub name : Text
  pub phone : Text
  pub email : Text
  pub avatar : Text

unfoldable pub insert_to_user : UserInsertDto → User → User
insert_to_user t user = record user {
  username = t.username;
  password = t.password;
  name = t.name;
  phone = t.phone;
  email = t.email;
  avatar = t.avatar;
}

pub record UserUpdateDto : Type 0 where
  pub id : ℕ
  pub username : Text
  pub name : Text
  pub phone : Text
  pub email : Text

unfoldable pub update_to_user : UserUpdateDto → User → User
update_to_user t user = record user {
  id = t.id;
  username = t.username;
  name = t.name;
  phone = t.phone;
  email = t.email;
}
