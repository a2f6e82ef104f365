-- ===== src/Proj/Service/Accounts.antt =====
-- What registering, logging in and updating do to the accounts.
use gopher.Prelude.{
  ◌≡◌, ◌≢◌, refl, [], ◌∷◌, Option, none, some, true, ◌==◌, arith, ◌⊎◌, inl, inr, Bool-cases,
}
use gopher.Prelude.Integers.{ℤ}
use gopher.Proj.Base.{Text, Result, ok, err, User, zero_user, Deps, World}
use gopher.Proj.Dto.{UserInsertDto, UserUpdateDto, insert_to_user, update_to_user}
use gopher.Proj.Dao
use gopher.Proj.Dao.{
  select_user_by_username, select_user_by_id, encrypt, before_create, is_equivalent,
}
use gopher.Proj.Service.{gen_token, login, insert_user, update_user, id_invalid, cache_login}

pub Result-cases : {A : Type 0} (r : Result A) → ((a : A) × (r ≡ ok a)) ⊎ ((e : Text) × (r ≡ err e))
Result-cases (ok a) = inl (a, refl)
Result-cases (err e) = inr (e, refl)

-- The text of gorm.ErrRecordNotFound, "record not found".
abbrev pub record_not_found : Text
record_not_found =
    114 ∷ 101 ∷ 99 ∷ 111 ∷ 114 ∷ 100 ∷ 32 ∷ 110 ∷ 111 ∷ 116 ∷ 32 ∷ 102 ∷ 111 ∷ 117 ∷ 110 ∷ 100 ∷ []

-- What gorm and bcrypt document. A stored user has an id. Saving a user without an id runs the
-- hook and stores what it returned under a fresh id, where the name finds it if it found nobody
-- before, which First reports as "record not found"; saving one with an id replaces the user of that id. A hash of a password matches it.
pub record AccountLaws (d : Deps) : Type 0 where
  pub first_id :
      (db : d.Db) (name : Text) (user : User) → d.db_first_username db name ≡ ok user → user.id ≢ 0
  pub save_creates :
      (hook : User → Result User) (db db' : d.Db) (user saved : User)
      → user.id ≡ 0
      → d.db_save hook db user ≡ (db', ok saved)
      → (hashed : User) × (hook user ≡ ok hashed)
        × (saved ≡ record hashed { id = saved.id })
        × (d.db_first_username db hashed.username ≡ err record_not_found
            → d.db_first_username db' hashed.username ≡ ok saved)
  pub save_updates :
      (hook : User → Result User) (db db' : d.Db) (user saved : User)
      → user.id ≢ 0
      → d.db_save hook db user ≡ (db', ok saved)
      → d.db_first_id db' user.id ≡ ok user
  pub compare_generate :
      (password hash : Text) → d.generate password ≡ ok hash → d.compare_hash hash password ≡ true

module _ (d : Deps) where
  before_create-ok :
      (user hashed : User)
      → before_create d user ≡ ok hashed
      → (hash : Text) × (d.generate user.password ≡ ok hash)
        × (hashed ≡ record user { password = hash })
  unfolding before_create encrypt
  before_create-ok user hashed h = elim (Result-cases (d.generate user.password)) [
    | inl (hash, e) ↦ (hash, e, ground arith)
    | inr (m, e) ↦ absurd (ground arith)
  ]

  select_user_by_username-ok :
      AccountLaws d
      → (w : World d) (name : Text) (user : User) → d.db_first_username w.db name ≡ ok user
      → select_user_by_username d w name ≡ ok user
  unfolding select_user_by_username
  select_user_by_username-ok laws w name user h = ground (arith, laws.first_id w.db name user h)

  pub dao_insert_user-ok :
      (w w' : World d) (t t' : UserInsertDto)
      → Dao.insert_user d w t ≡ (w', t', none)
      → (saved : User) × (d.db_save (before_create d) w.db (insert_to_user t zero_user)
          ≡ (w'.db, ok saved))
        × (t' ≡ record t { id = saved.id; password = [] })
  unfolding Dao.insert_user
  dao_insert_user-ok w w' t t' h =
      let r = d.db_save (before_create d) w.db (insert_to_user t zero_user) in
      elim (Result-cases r.1) [
        | inl (saved, e) ↦ (saved, ground arith, ground arith)
        | inr (m, e) ↦ absurd (ground arith)
      ]

  stored_user :
      AccountLaws d
      → (w : World d) (db' : d.Db) (t : UserInsertDto) (saved : User)
      → d.db_first_username w.db t.username ≡ err record_not_found
      → d.db_save (before_create d) w.db (insert_to_user t zero_user) ≡ (db', ok saved)
      → (saved.username ≡ t.username)
        × (d.compare_hash saved.password t.password ≡ true)
        × (d.db_first_username db' t.username ≡ ok saved)
  unfolding insert_to_user
  stored_user laws w db' t saved nobody s =
      let (hashed, hook, stored, finds) =
        laws.save_creates (before_create d) w.db db' (insert_to_user t zero_user) saved refl s in
      let (hash, g, is) = before_create-ok (insert_to_user t zero_user) hashed hook in
      (ground arith, ground (arith, laws.compare_generate t.password hash g), ground (arith, finds))

  -- When the database says of a name that there is no record, and a registration for it succeeds,
  -- then one user was saved, the answer has that user's id and a blank password, and whoever gives
  -- that name and that password, and can be given a token that the cache takes, is logged in as that
  -- user. This supposes what gorm and bcrypt document.
  pub login-insert_user :
      AccountLaws d
      → (w w' : World d) (t t' : UserInsertDto)
      → d.db_first_username w.db t.username ≡ err record_not_found
      → insert_user d w t ≡ (w', t', none)
      → (user : User) × (d.db_save (before_create d) w.db (insert_to_user t zero_user)
          ≡ (w'.db, ok user))
        × (t' ≡ record t { id = user.id; password = [] })
        × (user.username ≡ t.username)
        × ((w'' : World d) (now : ℤ) (token : Text)
            → gen_token d now user.id t.username ≡ ok token
            → cache_login d w' user token ≡ (w'', none)
            → login d w' now (record { username = t.username; password = t.password })
              ≡ (w'', ok (user, token)))
  unfolding insert_user login select_user_by_username
  login-insert_user laws w w' t t' nobody h =
      let (saved, s, same) = dao_insert_user-ok w w' t t' (ground arith) in
      let (named, match, found) = stored_user laws w w'.db t saved nobody s in
      (
        saved,
        s,
        same,
        named,
        λ w'' now token gen cached.
            ground (arith, laws.first_id w'.db t.username saved found, found, match),
      )

  -- An update either fails, without touching the database unless saving itself failed, or the user
  -- of that id then has the new name fields and the password and avatar that it had before.
  pub update_user-keeps :
      AccountLaws d
      → (w w' : World d) (t : UserUpdateDto) (r : Option Text) → update_user d w t ≡ (w', r)
      → ((e : Text) × (r ≡ some e)
          × ((w' ≡ w)
              ⊎ ((old : User) × (select_user_by_id d w t.id ≡ ok old)
                  × ((d.db_save (before_create d) w.db (update_to_user t old)).1 ≡ err e))))
        ⊎ ((old : User) × (new : User) × (select_user_by_id d w t.id ≡ ok old)
            × (select_user_by_id d w' t.id ≡ ok new)
            × (new.username ≡ t.username)
            × (new.name ≡ t.name)
            × (new.phone ≡ t.phone)
            × (new.email ≡ t.email)
            × (new.password ≡ old.password)
            × (new.avatar ≡ old.avatar))
  unfolding update_user Dao.update_user select_user_by_id update_to_user
  update_user-keeps laws w w' t r h = elim (Bool-cases (t.id == 0)) [
    | inl z ↦ inl (id_invalid, ground arith, inl (ground arith))
    | inr z ↦ elim (Result-cases (d.db_first_id w.db t.id)) [
      | inr (e, f) ↦ inl (e, ground arith, inl (ground arith))
      | inl (old, f) ↦
          let new = update_to_user t old in
          let saving = d.db_save (before_create d) w.db new in
          elim (Result-cases saving.1) [
            | inr (e, s) ↦ inl (e, ground arith, inr (old, f, s))
            | inl (saved, s) ↦ inr (
              old,
              new,
              f,
              ground (
                arith,
                laws.save_updates (before_create d) w.db saving.0 new saved (ground arith)
                    (ground arith),
              ),
              refl,
              refl,
              refl,
              refl,
              refl,
              refl,
            )
          ]
    ]
  ]
