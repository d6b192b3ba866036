-- ===== src/Auth/Access.antt =====
-- The other ways in, and the changes of a password: `googleLogin`, `adminLogin`, `copyUser`,
-- `refreshAdminToken` and `updatePassword` of src/auth/auth.service.ts, with `getAdmin` and
-- `updateAdminPassword` of src/admin/admin.service.ts and src/repositories/admin.repository.ts.
use sojourn_backend.Prelude.{
  ℕ, ◌≡◌, refl, ◌&&◌, not, false, Option, none, some, holds, is_set, ◌==◌, All, All-every, arith,
}
use sojourn_backend.Entities.{User, Host, Admin, is_restricted}
use sojourn_backend.Orm.{Orm}
use sojourn_backend.App.{
  World, Handler, ok, err, Exception, ◌>>=◌, ◌>>◌, gets, modify, or_throw, throw_if,
}
use sojourn_backend.Auth.Interface.{Signing}
use sojourn_backend.Auth.Tokens.{JwtUser, Tokens, generate_tokens, get_token, remove_token}

module _ (orm : Orm) (jwt : Signing) (hash : ℕ → ℕ) where
  -- The address is that of the profile that Google sends, if there is one.
  unfoldable pub google_login : Option ℕ → Handler Tokens
  google_login profile = do
    email ← or_throw profile Exception.internal
    user ←
        or_throw (← gets λ w. orm.find_one User (λ u. u.email == email) w.users)
          Exception.user_not_found
    throw_if (is_restricted user.active) Exception.restricted
    generate_tokens orm jwt (record { id = user.id; email = email })

  unfoldable pub get_admin : ℕ → ℕ → World → Option Admin
  get_admin email password w =
      orm.find_one Admin (λ a. (a.email == email) && (a.password == hash password)) w.admins

  unfoldable pub admin_login : ℕ → ℕ → Handler Tokens
  unfolding get_admin
  admin_login email password = do
    admin ← or_throw (← gets (get_admin email password)) Exception.wrong_credentials
    generate_tokens orm jwt (record { id = admin.id; email = admin.email })

  -- An administrator becomes the user, or the user of the host, with the identifier.
  unfoldable pub copy_user : ℕ → Handler Tokens
  copy_user i = do
    user ← gets λ w. orm.find_one User (λ u. u.id == i) w.users
    from_host ← gets λ w. orm.find_one User (λ u. holds u.host_id i) w.users
    elim from_host [
      | some u ↦ generate_tokens orm jwt (record { id = u.id; email = u.email })
      | none ↦ do
        u ← or_throw user Exception.user_not_found
        generate_tokens orm jwt (record { id = u.id; email = u.email })
    ]

  unfoldable pub refresh_admin_token : ℕ → Handler ℕ
  unfolding get_token remove_token
  refresh_admin_token token w = elim (jwt.verify token) [
    | none ↦ (err Exception.unauthorized, (remove_token orm token w).1)
    | some (email, i) ↦ elim (get_token orm i token w) [
      | none ↦ (err Exception.unauthorized, (remove_token orm token w).1)
      | some t ↦ (ok (jwt.sign false email i), w)
    ]
  ]

  -- A field that is missing or empty is `none`. The host's row is found by the address.
  unfoldable pub update_password : JwtUser → Option ℕ → Option ℕ → Handler (Unit {0})
  update_password user password old_password = do
    throw_if (not (is_set password && is_set old_password)) Exception.missing_fields
    new ← or_throw password Exception.missing_fields
    old ← or_throw old_password Exception.missing_fields
    found ← gets λ w.
        orm.find_one User
          (λ u. (u.email == user.email) && ((u.id == user.id) && holds u.password (hash old)))
          w.users
    throw_if (not (is_set found)) Exception.wrong_credentials
    modify λ w. record w {
      users =
          orm.update User (λ u. (u.email == user.email) && (u.id == user.id))
            (λ u. record u { password = some (hash new) }) w.users;
    }
    modify λ w. record w {
      hosts =
          orm.update Host (λ h. h.email == user.email)
            (λ h. record h { password = some (hash new) }) w.hosts;
    }

  unfoldable pub update_admin_password : ℕ → ℕ → Handler (Unit {0})
  update_admin_password email new = do
    admin ←
        or_throw (← gets λ w. orm.find_one Admin (λ a. a.email == email) w.admins)
          Exception.user_not_found
    modify λ w. record w {
      admins = orm.save Admin (λ a. a.id) (record admin { password = hash new }) w.admins;
    }

  -- When a password is updated, the account and every host with its address have the new one.
  pub update_password_effect :
      (user : JwtUser) (new old : ℕ) (w w' : World)
      → update_password user (some new) (some old) w ≡ (ok tt, w')
      → All (λ u. u.email ≡ user.email → u.id ≡ user.id → u.password ≡ some (hash new)) w'.users
        × All (λ h. h.email ≡ user.email → h.password ≡ some (hash new)) w'.hosts
  unfolding update_password
  update_password_effect user new old w w' e =
      let users : w'.users
          ≡ orm.update User (λ u. (u.email == user.email) && (u.id == user.id))
              (λ u. record u { password = some (hash new) }) w.users =
        ground arith in
      let hosts : w'.hosts
          ≡ orm.update Host (λ h. h.email == user.email)
              (λ h. record h { password = some (hash new) }) w.hosts =
        ground arith in
      (
        rw users (
            orm.update_all User _ _ _ w.users (
              All-every _ (λ u. (λ hit _ _. refl, λ miss same other. absurd (ground arith)))
                w.users)),
        rw hosts (
            orm.update_all Host _ _ _ w.hosts
              (All-every _ (λ h. (λ hit _. refl, λ miss same. absurd (ground arith))) w.hosts)),
      )
