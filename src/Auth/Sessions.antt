-- ===== src/Auth/Sessions.antt =====
-- What a login opens and what a new password closes.
use sojourn_backend.Prelude.{
  ℕ, ◌≡◌, ◌≢◌, ap, subst, sym, ◌∙◌, true, false, not, ◌&&◌, none, some, All, All-every,
  Option-cases, inl, inr, ◌==◌, arith,
}
use sojourn_backend.Entities.{RefreshToken, User, Host}
use sojourn_backend.Orm.{Orm}
use sojourn_backend.Orm.Saving.{saved_is_found}
use sojourn_backend.App.{World, ok, err, Exception, CodeKey}
use sojourn_backend.Auth.Interface.{Cache, Signing}
use sojourn_backend.Auth.Tokens.{
  JwtUser, Tokens, generate_tokens, refresh_client_token, get_token, token_row, create_token,
  invalidate_all_tokens_by_id,
}
use sojourn_backend.Auth.Login.{host_login}
use sojourn_backend.Auth.Password.{
  reset_password, reset_password_confirmation, validate_code, remove_code, save_user,
  reset_host_password,
}

module _ (orm : Orm) where
  -- The refresh token that was generated is recorded.
  pub generated_is_found :
      (jwt : Signing) (user : JwtUser) (w : World)
      → get_token orm user.id (jwt.sign true user.email user.id) (generate_tokens orm jwt user w).1
        ≢ none
  unfolding generate_tokens create_token token_row get_token
  generated_is_found jwt user w =
      let token = jwt.sign true user.email user.id in
      let both : ((user.id == user.id) && (token == token)) ≡ true = ground arith in
      saved_is_found orm (λ x. x.id) _ (token_row orm user.id token w) w.tokens both

  -- It is accepted at a later instant, and gives an access token of that instant.
  pub generated-refresh :
      (jwt later : Signing) (user : JwtUser) (w : World)
      → later.verify (jwt.sign true user.email user.id) ≡ some (user.email, user.id)
      → let w' = (generate_tokens orm jwt user w).1 in
        refresh_client_token orm later (jwt.sign true user.email user.id) w'
        ≡ (ok (later.sign false user.email user.id), w')
  unfolding refresh_client_token
  generated-refresh jwt later user w known =
      let w' = (generate_tokens orm jwt user w).1 in
      elim (Option-cases (get_token orm user.id (jwt.sign true user.email user.id) w')) [
        | inl missing ↦ absurd (generated_is_found jwt user w missing)
        | inr (t, found) ↦ ground arith
      ]

  -- A host who is found by the address is logged in whatever the password is.
  pub host_login_any_password :
      (jwt : Signing) (hash : ℕ → ℕ) (email password : ℕ) (w : World) (host : Host)
      → orm.find_one Host (λ h. h.email == email) w.hosts ≡ some host
      → (ts : Tokens) × ((host_login orm jwt hash email password w).0 ≡ ok ts)
  unfolding host_login generate_tokens create_token
  host_login_any_password jwt hash email password w host h = (
    record {
      access_token = jwt.sign false host.email host.id;
      refresh_token = jwt.sign true host.email host.id;
    },
    ground arith,
  )

  module _ (cache : Cache) (hash : ℕ → ℕ) where
    Confirmed : ℕ → ℕ → World → World → User → Type 0
    Confirmed i password w w' u =
        (user : User) × (orm.find_one User (λ x. (x.id == i) && not x.is_created_with_google)
            w.users
          ≡ some user)
        × (u ≡ record user { password = some (hash password) })
        × (w'.users ≡ orm.save User (λ x. x.id) u w.users)
        × (w'.tokens ≡ orm.delete RefreshToken (λ t. t.token_id == user.id) w.tokens)
        × (w'.codes ≡ cache.del (CodeKey.password_reset_code i) w.codes)

    reset-Confirmed :
        (i code password : ℕ) (w w' : World) (u : User)
        → reset_password_confirmation orm cache hash i code password w ≡ (ok u, w')
        → Confirmed i password w w' u
    unfolding reset_password_confirmation invalidate_all_tokens_by_id reset_host_password save_user
        remove_code Confirmed
    reset-Confirmed i code password w w' u h =
        elim (Option-cases
          (orm.find_one User (λ x. (x.id == i) && not x.is_created_with_google) w.users)) [
            | inl missing ↦ absurd (ground arith)
            | inr (user, found) ↦ elim (Option-cases (orm.find_one Host (λ x. x.id == i) w.hosts)) [
              | inl no_host ↦ (user, found, ground arith, ground arith, ground arith, ground arith)
              | inr (host, eh) ↦
                  (user, found, ground arith, ground arith, ground arith, ground arith)
            ]
          ]

    reset-id :
        (i code password : ℕ) (w w' : World) (u : User)
        → reset_password_confirmation orm cache hash i code password w ≡ (ok u, w')
        → u.id ≡ i
    unfolding Confirmed
    reset-id i code password w w' u h =
        let c = reset-Confirmed i code password w w' u h in
        let hit : ((c.0.id == i) && not c.0.is_created_with_google) ≡ true =
          orm.find_one_sound User _ w.users c.0 c.1 in
        let same : u.id ≡ c.0.id = ap (λ x. x.id) c.2 in same ∙ ground arith

    -- When the reset of a password is confirmed, the account with the identifier is saved with the
    -- hash of the password.
    pub reset_saves_password :
        (i code password : ℕ) (w w' : World) (u : User)
        → reset_password_confirmation orm cache hash i code password w ≡ (ok u, w')
        → (u.id ≡ i)
          × (u.password ≡ some (hash password))
          × (orm.find_one User (λ x. x.id == i) w'.users ≡ some u)
    unfolding Confirmed
    reset_saves_password i code password w w' u h =
        let c = reset-Confirmed i code password w w' u h in
        let same = reset-id i code password w w' u h in
        (
          same,
          ap (λ x. x.password) c.2,
          subst (λ k. orm.find_one User (λ x. x.id == k) w'.users ≡ some u) same
              (ap (orm.find_one User (λ x. x.id == u.id)) c.3
                ∙ orm.save_found User (λ x. x.id) u w.users),
        )

    -- After the reset of a password was confirmed, no refresh token of the account is left, and
    -- one that verifies to the account is refused.
    pub reset_revokes_sessions :
        (i code password : ℕ) (w w' : World) (u : User) (jwt : Signing) (token email : ℕ)
        → reset_password_confirmation orm cache hash i code password w ≡ (ok u, w')
        → jwt.verify token ≡ some (email, i)
        → All (λ t. t.token_id ≢ i) w'.tokens
          × ((refresh_client_token orm jwt token w').0 ≡ err Exception.unauthorized)
    unfolding Confirmed refresh_client_token get_token
    reset_revokes_sessions i code password w w' u jwt token email h v =
        let c = reset-Confirmed i code password w w' u h in
        let same : c.0.id ≡ i = sym (ap (λ x. x.id) c.2) ∙ reset-id i code password w w' u h in
        let none_left : All (λ t. t.token_id ≢ i) w'.tokens =
          subst (All (λ t. t.token_id ≢ i)) (sym c.4) (
            orm.delete_all RefreshToken (λ t. t.token_id ≢ i) _ w.tokens
              (All-every _ (λ t miss eq. absurd (ground arith)) w.tokens)) in
        (
          none_left,
          elim (Option-cases (get_token orm i token w')) [
            | inl missing ↦ ground arith
            | inr (t, kept) ↦
                let other : t.token_id ≢ i =
                  orm.find_one_keeps RefreshToken (λ x. x.token_id ≢ i) _ w'.tokens t none_left
                    kept in
                let hit : ((t.token_id == i) && (t.refresh_token == token)) ≡ true =
                  orm.find_one_sound RefreshToken _ w'.tokens t kept in
                absurd (ground arith)
          ],
        )

    -- The code of a reset that was confirmed cannot be used again.
    pub reset_code_used_once :
        (i code password again : ℕ) (w w' : World) (u : User)
        → reset_password_confirmation orm cache hash i code password w ≡ (ok u, w')
        → reset_password_confirmation orm cache hash i code again w'
          ≡ (err Exception.invalid_code, w')
    unfolding Confirmed reset_password_confirmation validate_code
    reset_code_used_once i code password again w w' u h =
        let c = reset-Confirmed i code password w w' u h in
        let gone : cache.get (CodeKey.password_reset_code i) w'.codes ≡ none =
          ap (cache.get (CodeKey.password_reset_code i)) c.5
          ∙ cache.get_del (CodeKey.password_reset_code i) w.codes in
        ground arith

    -- A user who asks for a reset, who did not come with Google, and whom the search by the
    -- identifier finds too, can confirm it with the code that was mailed.
    pub reset_code_accepted :
        (email code password : ℕ) (w : World) (user : User)
        → orm.find_one User (λ x. x.email == email) w.users ≡ some user
        → orm.find_one User (λ x. (x.id == user.id) && not x.is_created_with_google) w.users
          ≡ some user
        → (u : User) × ((reset_password_confirmation orm cache hash user.id code password
              (reset_password orm cache email code w).1).0
            ≡ ok u)
    unfolding reset_password reset_password_confirmation invalidate_all_tokens_by_id
        reset_host_password save_user remove_code validate_code
    reset_code_accepted email code password w user byemail byid =
        let mailed = cache.get_set (CodeKey.password_reset_code user.id) code w.codes in
        elim (Option-cases (orm.find_one Host (λ x. x.id == user.id) w.hosts)) [
          | inl no_host ↦ (record user { password = some (hash password) }, ground arith)
          | inr (host, eh) ↦ (record user { password = some (hash password) }, ground arith)
        ]
