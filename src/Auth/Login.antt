-- ===== src/Auth/Login.antt =====
-- `login`, `loginWithGoogle` and `hostLogin` of src/auth/auth.service.ts. The hash of a password
-- is a function of it.
use sojourn_backend.Prelude.{ℕ, ◌&&◌, Option, holds, ◌==◌}
use sojourn_backend.Entities.{User, Host, is_restricted}
use sojourn_backend.Orm.{Orm}
use sojourn_backend.App.{World, Handler, Exception, ◌>>=◌, ◌>>◌, gets, or_throw, throw_if}
use sojourn_backend.Auth.Interface.{Signing}
use sojourn_backend.Auth.Tokens.{Tokens, generate_tokens}

module _ (orm : Orm) (jwt : Signing) (hash : ℕ → ℕ) where
  unfoldable pub user_with_password : ℕ → ℕ → World → Option User
  user_with_password email password w =
      orm.find_one User (λ u. (u.email == email) && holds u.password (hash password)) w.users

  unfoldable pub login : ℕ → ℕ → Handler Tokens
  unfolding user_with_password
  login email password = do
    user ← or_throw (← gets (user_with_password email password)) Exception.wrong_credentials
    throw_if (is_restricted user.active) Exception.restricted
    generate_tokens orm jwt (record { id = user.id; email = user.email })

  -- The test of how the account was created throws only if there is no user, which was tested.
  unfoldable pub login_with_google : ℕ → Handler Tokens
  login_with_google email = do
    user ←
        or_throw (← gets λ w. orm.find_one User (λ u. u.email == email) w.users)
          Exception.user_not_found
    throw_if (is_restricted user.active) Exception.restricted
    generate_tokens orm jwt (record { id = user.id; email = user.email })

  -- The password is not read.
  unfoldable pub host_login : ℕ → ℕ → Handler Tokens
  host_login email password = do
    host ←
        or_throw (← gets λ w. orm.find_one Host (λ h. h.email == email) w.hosts)
          Exception.wrong_credentials
    generate_tokens orm jwt (record { id = host.id; email = host.email })
