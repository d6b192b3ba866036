-- ===== src/Auth/Signup.antt =====
-- What the creation of accounts guarantees: addresses stay distinct, and a new account can be
-- logged in to.
use sojourn_backend.Prelude.{
  ℕ, ◌≡◌, ◌≢◌, refl, sym, true, false, none, some, List, [], ◌∷◌, All-map, ◌&&◌, holds,
  Option-cases, ◌⊎◌, inl, inr, ◌==◌, arith,
}
use sojourn_backend.Entities.{User, Host}
use sojourn_backend.Orm.{Orm}
use sojourn_backend.Orm.Pairwise.{Pairwise, save-Pairwise}
use sojourn_backend.Orm.Saving.{found-saved}
use sojourn_backend.App.{World, ok}
use sojourn_backend.Auth.Interface.{Cache, Signing}
use sojourn_backend.Auth.Tokens.{Tokens, generate_tokens, create_token}
use sojourn_backend.Auth.Login.{login, user_with_password}
use sojourn_backend.Auth.Password.{register_code, save_user}
use sojourn_backend.Auth.Accounts.{
  AccountCreation, HostAccountCreation, guest_part, user_row, user_by_email, host_by_email,
  announce_account, create_account, create_account_with_google, save_host, create_host_account,
}

-- A request that creates an account, with the code that is drawn for it.
pub data SignUp : Type 0 where
  account google_account : AccountCreation → ℕ → SignUp
  host_account : HostAccountCreation → ℕ → SignUp

-- Rows with two identifiers have two addresses.
abbrev pub DistinctEmails : {Row : Type 0} → (Row → ℕ) → (Row → ℕ) → List Row → Type 0
DistinctEmails key email t = Pairwise (λ a b. key a ≢ key b → email a ≢ email b) t

module _ (orm : Orm) where
  save-DistinctEmails :
      {Row : Type 0} (key email : Row → ℕ) (e : ℕ) (r : Row) (t : List Row)
      → email r ≡ e
      → orm.find_one Row (λ x. email x == e) t ≡ none
      → DistinctEmails key email t
      → DistinctEmails key email (orm.save Row key r t)
  save-DistinctEmails key email e r t same missing h =
      save-Pairwise orm key (λ a b. key a ≢ key b → email a ≢ email b)
        (λ a b apart ne q. apart (λ k. ne (sym k)) (sym q)) r t (λ ne. absurd (ne refl))
        (All-map (λ x. (email x == e) ≡ false) _ (λ x out ne q. absurd (ground arith)) t
          (orm.find_one_none _ _ t missing))
        h

  module _ (cache : Cache) (hash : ℕ → ℕ) where
    unfoldable pub sign_up : SignUp → World → World
    sign_up (account payload code) w = (create_account orm cache hash payload code w).1
    sign_up (google_account payload code) w =
        (create_account_with_google orm cache hash payload code w).1
    sign_up (host_account payload code) w = (create_host_account orm cache hash payload code w).1

    unfoldable pub sign_ups : List SignUp → World → World
    unfolding sign_up
    sign_ups [] w = w
    sign_ups (r ∷ rs) w = sign_ups rs (sign_up r w)

    -- Nothing is added to the users, or a user with an address that no one had.
    abbrev AddsUser : ℕ → World → World → Type 0
    AddsUser email w w' =
        (w'.users ≡ w.users)
        ⊎ ((orm.find_one User (λ x. x.email == email) w.users ≡ none)
            × (u : User) × (u.email ≡ email)
            × (w'.users ≡ orm.save User (λ x. x.id) u w.users))

    account-AddsUser :
        (payload : AccountCreation) (code : ℕ) (w : World)
        → AddsUser payload.email w (create_account orm cache hash payload code w).1
    unfolding create_account user_by_email user_row announce_account save_user register_code
    account-AddsUser payload code w =
        elim (Option-cases (orm.find_one User (λ x. x.email == payload.email) w.users)) [
          | inr (u, e) ↦ inl (ground arith)
          | inl e ↦ elim (Option-cases payload.password) [
            | inl no_password ↦ inl (ground arith)
            | inr (p, ep) ↦ inr (
              e,
              user_row orm cache hash payload (some (hash p)) false
                  (orm.generate User (λ u. u.id) w.users),
              refl,
              ground arith,
            )
          ]
        ]

    google-AddsUser :
        (payload : AccountCreation) (code : ℕ) (w : World)
        → AddsUser payload.email w (create_account_with_google orm cache hash payload code w).1
    unfolding create_account_with_google user_by_email user_row announce_account save_user
        register_code
    google-AddsUser payload code w =
        elim (Option-cases (orm.find_one User (λ x. x.email == payload.email) w.users)) [
          | inr (u, e) ↦ inl (ground arith)
          | inl e ↦ inr (
            e,
            user_row orm cache hash payload payload.password payload.is_google
                (orm.generate User (λ u. u.id) w.users),
            refl,
            ground arith,
          )
        ]

    host-users :
        (payload : HostAccountCreation) (code : ℕ) (w : World)
        → AddsUser payload.email w (create_host_account orm cache hash payload code w).1
    unfolding create_host_account user_by_email host_by_email save_host create_account user_row
        announce_account save_user register_code
    host-users payload code w =
        elim (Option-cases (orm.find_one User (λ x. x.email == payload.email) w.users)) [
          | inr (u, e) ↦ inl (ground arith)
          | inl e ↦
              elim (Option-cases (orm.find_one Host (λ x. x.email == payload.email) w.hosts)) [
                | inr (h, eh) ↦ inl (ground arith)
                | inl eh ↦ inr (
                  e,
                  user_row orm cache hash (guest_part payload) (some (hash payload.password)) false
                      (orm.generate User (λ u. u.id) w.users),
                  refl,
                  ground arith,
                )
              ]
        ]

    AddsUser-keeps :
        (email : ℕ) (w w' : World)
        → AddsUser email w w'
        → DistinctEmails (λ u. u.id) (λ u. u.email) w.users
        → DistinctEmails (λ u. u.id) (λ u. u.email) w'.users
    AddsUser-keeps email w w' (inl same) h = rw same h
    AddsUser-keeps email w w' (inr (missing, u, same, saved)) h =
        rw saved (save-DistinctEmails (λ u. u.id) (λ u. u.email) email u w.users same missing h)

    sign_up_keeps :
        (r : SignUp) (w : World)
        → DistinctEmails (λ u. u.id) (λ u. u.email) w.users
        → DistinctEmails (λ u. u.id) (λ u. u.email) (sign_up r w).users
    unfolding sign_up
    sign_up_keeps (account payload code) w h =
        AddsUser-keeps payload.email w (create_account orm cache hash payload code w).1
          (account-AddsUser payload code w) h
    sign_up_keeps (google_account payload code) w h =
        AddsUser-keeps payload.email w (create_account_with_google orm cache hash payload code w).1
          (google-AddsUser payload code w) h
    sign_up_keeps (host_account payload code) w h =
        AddsUser-keeps payload.email w (create_host_account orm cache hash payload code w).1
          (host-users payload code w) h

    -- If users with two identifiers have two addresses, they have after any sequence of requests
    -- that create accounts.
    pub sign_ups_keep_emails_distinct :
        (rs : List SignUp) (w : World)
        → DistinctEmails (λ u. u.id) (λ u. u.email) w.users
        → DistinctEmails (λ u. u.id) (λ u. u.email) (sign_ups rs w).users
    unfolding sign_ups
    sign_ups_keep_emails_distinct [] w h = h
    sign_ups_keep_emails_distinct (r ∷ rs) w h =
        sign_ups_keep_emails_distinct rs (sign_up r w) (sign_up_keeps r w h)

    -- An account that was created with a password can be logged in to with it, and the access
    -- token is signed of its address and identifier.
    pub create_then_login :
        (jwt : Signing) (payload : AccountCreation) (code password : ℕ) (w w' : World) (u : User)
        → payload.password ≡ some password
        → create_account orm cache hash payload code w ≡ (ok u, w')
        → (ts : Tokens) × ((login orm jwt hash payload.email password w').0 ≡ ok ts)
          × (ts.access_token ≡ jwt.sign false payload.email u.id)
    unfolding create_account user_by_email user_row announce_account save_user register_code login
        user_with_password generate_tokens create_token
    create_then_login jwt payload code password w w' u ep h =
        let missing : orm.find_one User (λ x. x.email == payload.email) w.users ≡ none =
          ground arith in
        let row =
          user_row orm cache hash payload (some (hash password)) false
            (orm.generate User (λ u. u.id) w.users) in
        let users : w'.users ≡ orm.save User (λ x. x.id) row w.users = ground arith in
        let same : u ≡ row = ground arith in
        let found : orm.find_one User
              (λ x. (x.email == payload.email) && holds x.password (hash password)) w'.users
            ≡ some row =
          rw users (
            found-saved orm (λ x. x.id)
              (λ x. (x.email == payload.email) && holds x.password (hash password)) row w.users
              (ground arith)
              (All-map (λ x. (x.email == payload.email) ≡ false) _ (λ x out ne. ground arith)
                w.users (orm.find_one_none User _ w.users missing))) in
        (
          record {
            access_token = jwt.sign false payload.email u.id;
            refresh_token = jwt.sign true payload.email u.id;
          },
          ground arith,
          refl,
        )
