-- ===== src/Auth/Password.antt =====
-- The codes and the passwords: `verifyAccount`, `resetPassword`, `resetPasswordConfirmation` and
-- `updatePassword` of src/auth/auth.service.ts. A new code is an argument.
use sojourn_backend.Prelude.{ℕ, Bool, true, not, ◌&&◌, none, some, holds, ◌==◌}
use sojourn_backend.Entities.{User, Host}
use sojourn_backend.Orm.{Orm}
use sojourn_backend.App.{
  World, CodeKey, Event, Handler, ok, Exception, ◌>>=◌, ◌>>◌, pure, gets, modify, deref, or_throw,
  throw_if, emit,
}
use sojourn_backend.Auth.Interface.{Cache}
use sojourn_backend.Auth.Tokens.{invalidate_all_tokens_by_id}

module _ (orm : Orm) (cache : Cache) where
  unfoldable pub register_code : CodeKey → ℕ → Handler (Unit {0})
  register_code k c = modify λ w. record w { codes = cache.set k c w.codes }

  -- `code === storedCode`
  unfoldable pub validate_code : CodeKey → ℕ → World → Bool
  validate_code k c w = holds (cache.get k w.codes) c

  unfoldable pub remove_code : CodeKey → Handler (Unit {0})
  remove_code k = modify λ w. record w { codes = cache.del k w.codes }

  unfoldable pub save_user : User → Handler (Unit {0})
  save_user u = modify λ w. record w { users = orm.save User (λ x. x.id) u w.users }

  unfoldable pub verify_account : ℕ → ℕ → Handler User
  unfolding validate_code remove_code save_user
  verify_account i code = do
    valid ← gets (validate_code (CodeKey.account_verification i) code)
    throw_if (not valid) Exception.invalid_code
    remove_code (CodeKey.account_verification i)
    user ← deref (← gets λ w. orm.find_one User (λ u. u.id == i) w.users)
    let verified = record user { is_email_verified = true }
    save_user verified
    pure verified

  unfoldable pub reset_password : ℕ → ℕ → Handler User
  unfolding register_code
  reset_password email code = do
    user ←
        or_throw (← gets λ w. orm.find_one User (λ u. u.email == email) w.users)
          Exception.user_not_found
    register_code (CodeKey.password_reset_code user.id) code
    emit (Event.password_reset user.id user.email code)
    pure user

  -- The password of the host whose identifier is that of the account, if there is one.
  unfoldable pub reset_host_password : ℕ → ℕ → Handler (Unit {0})
  reset_host_password i hashed w = elim (orm.find_one Host (λ h. h.id == i) w.hosts) [
    | none ↦ (ok tt, w)
    | some h ↦ (
      ok tt,
      record w { hosts = orm.save Host (λ x. x.id) (record h { password = some hashed }) w.hosts },
    )
  ]

  unfoldable pub reset_password_confirmation : (ℕ → ℕ) → ℕ → ℕ → ℕ → Handler User
  unfolding validate_code remove_code save_user reset_host_password
  reset_password_confirmation hash i code password = do
    valid ← gets (validate_code (CodeKey.password_reset_code i) code)
    throw_if (not valid) Exception.invalid_code
    remove_code (CodeKey.password_reset_code i)
    user ←
        or_throw
          (← gets λ w. orm.find_one User (λ u. (u.id == i) && not u.is_created_with_google) w.users)
          Exception.user_not_found
    reset_host_password i (hash password)
    invalidate_all_tokens_by_id orm user.id
    let changed = record user { password = some (hash password) }
    save_user changed
    emit (Event.password_confirm user.email)
    pure changed
