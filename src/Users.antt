-- ===== src/Users.antt =====
-- Users and hosts: src/users/guests/guests.service.ts, src/users/partners/partners.service.ts,
-- src/repositories/guest.repository.ts and src/repositories/hosts.repository.ts. Of a profile only
-- whether there is one is kept.
use sojourn_backend.Prelude.{
  ℕ, ◌≡◌, refl, Bool, true, false, Option, none, some, List, All, All-every, Option-cases, inl, inr,
  ◌==◌, arith,
}
use sojourn_backend.Entities.{User, Host, UserActiveStatus}
use sojourn_backend.Orm.{Orm}
use sojourn_backend.App.{World, Handler, ok, err, Exception, ◌>>=◌, ◌>>◌, pure, gets, modify, deref}
use sojourn_backend.Auth.Interface.{Signing}
use sojourn_backend.Auth.Login.{user_with_password, login, login_with_google}

-- `status === 'active' ? ACTIVE : RESTRICTED`
unfoldable pub status_of : Bool → UserActiveStatus
status_of true = UserActiveStatus.active
status_of false = UserActiveStatus.restricted

module _ (orm : Orm) where
  -- `GuestRepository.update`
  unfoldable pub update_guest : ℕ → Bool → Handler User
  unfolding status_of
  update_guest i active = do
    user ← deref (← gets λ w. orm.find_one User (λ u. u.id == i) w.users)
    modify λ w. record w {
      users = orm.save User (λ u. u.id) (record user { active = status_of active }) w.users;
    }
    pure (record user { active = status_of active })

  -- `HostsRepository.update`
  unfoldable pub update_host : ℕ → Bool → Handler Host
  unfolding status_of
  update_host i active = do
    host ← deref (← gets λ w. orm.find_one Host (λ h. h.id == i) w.hosts)
    modify λ w. record w {
      hosts = orm.save Host (λ h. h.id) (record host { active = status_of active }) w.hosts;
    }
    pure (record host { active = status_of active })

  abbrev related : {Row : Type 0} → (Row → ℕ) → Option ℕ → List Row → Option Row
  related key none t = none
  related key (some i) t = orm.find_one _ (λ r. key r == i) t

  -- `GuestsService.update`: the host that the user is, if there is one, gets the status too.
  unfoldable pub update_guest_status : ℕ → Bool → Handler (Unit {0})
  unfolding update_guest update_host
  update_guest_status i active = do
    user ← update_guest i active
    host ← gets λ w. related (λ h. h.id) user.host_id w.hosts
    elim host [ none ↦ pure tt | some h ↦ (do update_host h.id active; pure tt) ]

  -- `PartnersService.update`: the user of the host is read once the host has been saved.
  unfoldable pub update_host_status : ℕ → Bool → Handler (Unit {0})
  unfolding update_guest update_host
  update_host_status i active = do
    host ← update_host i active
    user ← deref (← gets λ w. related (λ u. u.id) host.user_id w.users)
    update_guest user.id active
    pure tt

  -- `updateUser` and `updateHost`, of which an error is only logged
  unfoldable pub update_user_profile : ℕ → Handler (Unit {0})
  update_user_profile i = modify λ w. record w {
    users = orm.update User (λ u. u.id == i) (λ u. record u { has_profile = true }) w.users;
  }

  unfoldable pub update_host_profile : ℕ → Handler (Unit {0})
  update_host_profile i = modify λ w. record w {
    hosts = orm.update Host (λ h. h.id == i) (λ h. record h { has_profile = true }) w.hosts;
  }

  abbrev AreRestricted : ℕ → List User → Type 0
  AreRestricted i t = All (λ u. u.id ≡ i → u.active ≡ UserActiveStatus.restricted) t

  users-update_guest_status :
      (i : ℕ) (w : World)
      → (update_guest_status i false w).0 ≡ ok tt
      → AreRestricted i (update_guest_status i false w).1.users
  unfolding update_guest_status update_guest update_host status_of
  users-update_guest_status i w e =
      elim (Option-cases (orm.find_one User (λ u. u.id == i) w.users)) [
        | inl missing ↦ absurd (ground arith)
        | inr (user, eu) ↦
            let same : (user.id == i) ≡ true =
              orm.find_one_sound User (λ u. u.id == i) w.users user eu in
            let t =
              orm.save User (λ u. u.id) (record user { active = UserActiveStatus.restricted })
                w.users in
            let saved : AreRestricted i t =
              orm.save_all User _ (λ u. u.id) _ w.users (λ _. refl)
                (All-every _ (λ u ne own. absurd (ne (ground arith))) w.users) in
            let users : (update_guest_status i false w).1.users ≡ t =
              elim (Option-cases (related (λ h. h.id) user.host_id w.hosts)) [
                | inl guest_only ↦ ground arith
                | inr (h, eh) ↦
                    elim (Option-cases (orm.find_one Host (λ x. x.id == h.id) w.hosts)) [
                      | inl lost ↦ ground arith
                      | inr (x, ex) ↦ ground arith
                    ]
              ] in
            rw users saved
      ]

  refused_login :
      (jwt : Signing) (hash : ℕ → ℕ) (email password : ℕ) (w : World) (u : User)
      → user_with_password orm jwt hash email password w ≡ some u
      → u.active ≡ UserActiveStatus.restricted
      → login orm jwt hash email password w ≡ (err Exception.restricted, w)
  unfolding login
  refused_login jwt hash email password w u found bad = ground arith

  refused_google :
      (jwt : Signing) (hash : ℕ → ℕ) (email : ℕ) (w : World) (u : User)
      → orm.find_one User (λ x. x.email == email) w.users ≡ some u
      → u.active ≡ UserActiveStatus.restricted
      → login_with_google orm jwt hash email w ≡ (err Exception.restricted, w)
  unfolding login_with_google
  refused_google jwt hash email w u found bad = ground arith

  -- Once the restriction of a user has gone through, neither a password nor Google logs the user
  -- in: what a login finds of the user is restricted, and it answers so and changes nothing.
  pub restricted_user_is_refused :
      (jwt : Signing) (hash : ℕ → ℕ) (i email password : ℕ) (w : World) (u : User)
      → (update_guest_status i false w).0 ≡ ok tt
      → u.id ≡ i
      → let w' = (update_guest_status i false w).1 in
        (user_with_password orm jwt hash email password w' ≡ some u
          → login orm jwt hash email password w' ≡ (err Exception.restricted, w'))
        × (orm.find_one User (λ x. x.email == email) w'.users ≡ some u
            → login_with_google orm jwt hash email w' ≡ (err Exception.restricted, w'))
  unfolding login login_with_google user_with_password
  restricted_user_is_refused jwt hash i email password w u e own =
      let w' = (update_guest_status i false w).1 in
      let all = users-update_guest_status i w e in
      let off : (p : User → Bool)
          → orm.find_one User p w'.users ≡ some u
          → u.active ≡ UserActiveStatus.restricted =
        λ p found.
          orm.find_one_keeps User (λ x. x.id ≡ i → x.active ≡ UserActiveStatus.restricted) p
            w'.users u all found own in
      (
        λ found. let bad = off _ found in refused_login jwt hash email password w' u found bad,
        λ found. let bad = off _ found in refused_google jwt hash email w' u found bad,
      )
