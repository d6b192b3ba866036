-- ===== src/Auth/Accounts.antt =====
-- The creation of accounts: `createAccount`, `createAccountWithGoogle`, `createHostAccount` and
-- `resendConfirmationEmail` of src/auth/auth.service.ts. The code that is drawn for the mail is an
-- argument.
use sojourn_backend.Prelude.{ℕ, Bool, false, Option, none, some, ◌==◌, is_set}
use sojourn_backend.Entities.{User, UserActiveStatus, Host}
use sojourn_backend.Orm.{Orm}
use sojourn_backend.App.{
  World, CodeKey, Event, Handler, ok, Exception, ◌>>=◌, ◌>>◌, pure, gets, or_throw, deref, throw_if,
  emit,
}
use sojourn_backend.Auth.Interface.{Cache}
use sojourn_backend.Auth.Password.{register_code, save_user}

-- `AccountCreation` of src/auth/types.ts; the names are left out
pub record AccountCreation : Type 0 where
  pub email : ℕ
  pub password : Option ℕ
  pub referer_id : Option ℕ
  pub is_google : Bool
  pub is_email_verified : Bool

-- `HostAccountCreation`
pub record HostAccountCreation : Type 0 where
  pub email : ℕ
  pub password : ℕ
  pub referer_id : Option ℕ
  -- whether a company's name is sent, with which a profile is saved
  pub is_company : Bool

abbrev pub guest_part : HostAccountCreation → AccountCreation
guest_part payload = record {
  email = payload.email;
  password = some payload.password;
  referer_id = payload.referer_id;
  is_google = false;
  is_email_verified = false;
}

module _ (orm : Orm) (cache : Cache) (hash : ℕ → ℕ) where
  unfoldable pub user_by_email : ℕ → World → Option User
  user_by_email email w = orm.find_one User (λ u. u.email == email) w.users

  -- The row that `create` makes, the rest being the defaults of the columns.
  unfoldable pub user_row : AccountCreation → Option ℕ → Bool → ℕ → User
  user_row payload password google i = record {
    id = i;
    email = payload.email;
    active = UserActiveStatus.active;
    is_created_with_google = google;
    is_email_verified = payload.is_email_verified;
    referer_id = payload.referer_id;
    password = password;
    has_profile = false;
    host_id = none;
  }

  -- The verification code, and the event that mails it.
  unfoldable pub announce_account : User → ℕ → Handler (Unit {0})
  unfolding register_code
  announce_account user code = do
    register_code orm cache (CodeKey.account_verification user.id) code
    emit (Event.account_created user.id user.email code)

  unfoldable pub create_account : AccountCreation → ℕ → Handler User
  unfolding user_by_email user_row announce_account save_user
  create_account payload code = do
    existing ← gets (user_by_email payload.email)
    throw_if (is_set existing) Exception.user_exists
    password ← deref payload.password
    user ←
        gets
          λ w. user_row payload (some (hash password)) false (orm.generate User (λ u. u.id) w.users)
    save_user orm cache user
    announce_account user code
    pure user

  -- The password, if one is sent, is saved as it is.
  unfoldable pub create_account_with_google : AccountCreation → ℕ → Handler User
  unfolding user_by_email user_row announce_account save_user
  create_account_with_google payload code = do
    existing ← gets (user_by_email payload.email)
    throw_if (is_set existing) Exception.user_exists
    user ← gets λ w.
        user_row payload payload.password payload.is_google (orm.generate User (λ u. u.id) w.users)
    save_user orm cache user
    announce_account user code
    pure user

  unfoldable pub host_by_email : ℕ → World → Option Host
  host_by_email email w = orm.find_one Host (λ h. h.email == email) w.hosts

  -- `HostsRepository.save` of a new host
  unfoldable pub save_host : HostAccountCreation → Option ℕ → ℕ → Handler Host
  save_host payload password user w =
      let h : Host = record {
        id = orm.generate Host (λ x. x.id) w.hosts;
        email = payload.email;
        user_id = some user;
        password = password;
        active = UserActiveStatus.active;
        has_profile = payload.is_company;
      } in
      (ok h, record w { hosts = orm.save Host (λ x. x.id) h w.hosts })

  -- A host who is a guest already keeps the password of the guest.
  unfoldable pub create_host_account : HostAccountCreation → ℕ → Handler Host
  unfolding create_account host_by_email save_host
  create_host_account payload code = do
    existing ← gets (user_by_email payload.email)
    host ← gets (host_by_email payload.email)
    throw_if (is_set host) Exception.host_exists
    elim existing [
      | some user ↦ save_host payload user.password user.id
      | none ↦ do
        user ← create_account (guest_part payload) code
        save_host payload (some (hash payload.password)) user.id
    ]

  unfoldable pub resend_confirmation_email : ℕ → ℕ → Handler User
  unfolding announce_account
  resend_confirmation_email email code = do
    user ← or_throw (← gets (user_by_email email)) Exception.user_not_found
    announce_account user code
    pure user
