-- ===== src/Auth/SessionCookies.antt =====
-- What the cookies of a browser open and close: the endpoints of src/auth/auth.controller.ts, the
-- guard, and the tokens together.
use sojourn_backend.Prelude.{
  ℕ, ◌≡◌, refl, ◌∙◌, Bool, true, false, none, some, List, ◌∷◌, [], ◌==◌, ◌&&◌, ◌⊎◌, inl, inr,
  Option-cases, arith,
}
use sojourn_backend.Entities.{User, Admin, is_restricted}
use sojourn_backend.Orm.{Orm}
use sojourn_backend.Orm.Saving.{saved_is_found}
use sojourn_backend.App.{World, ok, err, Exception, Result-cases}
use sojourn_backend.Auth.Interface.{Signing}
use sojourn_backend.Auth.Tokens.{JwtUser, generate_tokens, get_token}
use sojourn_backend.Auth.Login.{login, user_with_password}
use sojourn_backend.Auth.Access.{admin_login, get_admin, refresh_admin_token, update_admin_password}
use sojourn_backend.Auth.Sessions.{generated_is_found, generated-refresh}
use sojourn_backend.Auth.Guard.{UserType, attach, verified, can_activate}
use sojourn_backend.Auth.Endpoints.{
  CookieName, CookieKey, Domain, Cookie, Browser, cookie, clear_cookie, key_of, other_domain,
  same_domain, same_cookie, cookie_number, obey, request, answer_tokens, answer_cleared,
  answer_refresh, guarded, post_login, post_admin_login, logout_host, logout_admin, get_refresh,
  get_refresh_admin, refresh_with, patch_admin_password,
}

same_domain_own : (d : Domain) → (same_domain d d ≡ true) × (same_domain d (other_domain d) ≡ false)
same_domain_own Domain.own = (refl, refl)
same_domain_own Domain.site = (refl, refl)

-- The cookies of a login
abbrev access_key : CookieKey
access_key = key_of CookieName.access Domain.site

abbrev refresh_key : CookieKey
refresh_key = key_of CookieName.refresh Domain.site

abbrev office_key : CookieKey
office_key = key_of CookieName.admin_access Domain.own

abbrev renewal_key : CookieKey
renewal_key = key_of CookieName.admin_referesh Domain.own

-- The cookie that the logout clears
abbrev stray_key : CookieKey
stray_key = key_of CookieName.admin_refresh Domain.own

module _ (browser : Browser) where
  -- Of two cookies that were set, each is sent if the other domain has none with its name.
  sent_pair :
      (a r : CookieName) (d : Domain) (x y : ℕ) (s : List Cookie)
      → (cookie_number a == cookie_number r) ≡ false
      → browser.stored (key_of a (other_domain d)) s ≡ none
      → browser.stored (key_of r (other_domain d)) s ≡ none
      → let t = browser.set (key_of r d) y (browser.set (key_of a d) x s) in
        (browser.sent a t ≡ some x) × (browser.sent r t ≡ some y)
  sent_pair a r d x y s ne ea er =
      let (hit, miss) = same_domain_own d in
      let u = browser.set (key_of a d) x s in
      let t = browser.set (key_of r d) y u in
      let set_first = λ (k : CookieKey). browser.stored_set (key_of a d) k x s in
      let set_last = λ (k : CookieKey). browser.stored_set (key_of r d) k y u in
      let first_aside : browser.stored (key_of a (other_domain d)) t ≡ none =
        ground
          (arith, set_last (key_of a (other_domain d)), set_first (key_of a (other_domain d))) in
      let last_aside : browser.stored (key_of r (other_domain d)) t ≡ none =
        ground
          (arith, set_last (key_of r (other_domain d)), set_first (key_of r (other_domain d))) in
      (
        browser.sent_alone a d t first_aside
            ∙ ground (arith, set_last (key_of a d), set_first (key_of a d)),
        browser.sent_alone r d t last_aside ∙ ground (arith, set_last (key_of r d)),
      )

  sent_none :
      (n : CookieName) (s : List Cookie)
      → browser.stored (key_of n Domain.own) s ≡ none
      → browser.stored (key_of n Domain.site) s ≡ none
      → browser.sent n s ≡ none
  sent_none n s eo es = browser.sent_alone n Domain.own s es ∙ eo

  -- A cookie that is not there, or is one of two that are cleared, is not there afterwards.
  stored-clear :
      (a b k : CookieKey) (s : List Cookie)
      → (same_cookie a k ≡ true) ⊎ ((same_cookie b k ≡ true) ⊎ (browser.stored k s ≡ none))
      → browser.stored k (browser.clear b (browser.clear a s)) ≡ none
  stored-clear a b k s h = elim h [
    | inl first ↦
        ground (arith, browser.stored_clear b k (browser.clear a s), browser.stored_clear a k s)
    | inr (inl second) ↦ ground (arith, browser.stored_clear b k (browser.clear a s))
    | inr (inr absent) ↦
        ground (arith, browser.stored_clear b k (browser.clear a s), browser.stored_clear a k s)
  ]

  -- The cookies of a login of the office after its logout, and after a new token was set.
  renewal_stays :
      (x y z : ℕ) (s : List Cookie)
      → browser.stored (key_of CookieName.admin_access Domain.site) s ≡ none
      → browser.stored (key_of CookieName.admin_referesh Domain.site) s ≡ none
      → let t =
          browser.clear stray_key
            (browser.clear office_key (browser.set renewal_key y (browser.set office_key x s))) in
        (browser.sent CookieName.admin_referesh t ≡ some y)
        × (browser.sent CookieName.admin_access (browser.set office_key z t) ≡ some z)
  renewal_stays x y z s ea er =
      let u = browser.set office_key x s in
      let v = browser.set renewal_key y u in
      let t = browser.clear stray_key (browser.clear office_key v) in
      let cleared : (n : CookieName)
          → browser.stored (key_of n Domain.site) t ≡ browser.stored (key_of n Domain.site) s =
        λ n.
          let k = key_of n Domain.site in
          browser.stored_clear stray_key k (browser.clear office_key v)
          ∙ browser.stored_clear office_key k v
          ∙ browser.stored_set renewal_key k y u
          ∙ browser.stored_set office_key k x s in
      let here : browser.stored renewal_key t ≡ some y =
        browser.stored_clear stray_key renewal_key (browser.clear office_key v)
        ∙ browser.stored_clear office_key renewal_key v
        ∙ browser.stored_set renewal_key renewal_key y u in
      (
        browser.sent_alone CookieName.admin_referesh Domain.own t
              (cleared CookieName.admin_referesh ∙ er)
            ∙ here,
        browser.sent_alone CookieName.admin_access Domain.own (browser.set office_key z t) (
              browser.stored_set office_key (key_of CookieName.admin_access Domain.site) z t
              ∙ (cleared CookieName.admin_access ∙ ea))
            ∙ browser.stored_set office_key office_key z t,
      )

  -- The guard of the office attaches what the cookie of the office verifies to.
  office_is_let_in :
      (jwt : Signing) (token : ℕ) (p : ℕ × ℕ) (s : List Cookie)
      → browser.sent CookieName.admin_access s ≡ some token
      → jwt.verify token ≡ some p
      → can_activate jwt (request browser UserType.office s)
        ≡ ok (record { user = none; admin = some p })
  unfolding request can_activate attach verified
  office_is_let_in jwt token p s there known = ground arith

  admin_leaves :
      (jwt : Signing) (token : ℕ) (p : ℕ × ℕ) (s : List Cookie) (w : World)
      → browser.sent CookieName.admin_access s ≡ some token
      → jwt.verify token ≡ some p
      → logout_admin browser jwt UserType.office s w ≡ record {
        result = ok tt;
        world = w;
        cookies = clear_cookie office_key ∷ clear_cookie stray_key ∷ [];
      }
  unfolding logout_admin guarded answer_cleared can_activate
  admin_leaves jwt token p s w there known = rw (office_is_let_in jwt token p s there known) refl

  admin_renews :
      (orm : Orm) (jwt : Signing) (hash : ℕ → ℕ) (token renewal : ℕ) (s : List Cookie) (w : World)
      → browser.sent CookieName.admin_referesh s ≡ some renewal
      → refresh_admin_token orm jwt hash renewal w ≡ (ok token, w)
      → get_refresh_admin browser jwt orm hash s w
        ≡ record { result = ok tt; world = w; cookies = cookie office_key token ∷ [] }
  unfolding get_refresh_admin answer_refresh refresh_with
  admin_renews orm jwt hash token renewal s w there renews = ground arith

  generated-refresh_admin :
      (orm : Orm) (jwt later : Signing) (hash : ℕ → ℕ) (user : JwtUser) (w : World)
      → later.verify (jwt.sign true user.email user.id) ≡ some (user.email, user.id)
      → let w' = (generate_tokens orm jwt user w).1 in
        refresh_admin_token orm later hash (jwt.sign true user.email user.id) w'
        ≡ (ok (later.sign false user.email user.id), w')
  unfolding refresh_admin_token
  generated-refresh_admin orm jwt later hash user w known =
      let w' = (generate_tokens orm jwt user w).1 in
      elim (Option-cases (get_token orm user.id (jwt.sign true user.email user.id) w')) [
        | inl missing ↦ absurd (generated_is_found orm jwt user w missing)
        | inr (t, found) ↦ ground arith
      ]

  module _ (orm : Orm) (jwt : Signing) (hash : ℕ → ℕ) where
    user_enters :
        (email password : ℕ) (s : List Cookie) (w : World) (user : User)
        → user_with_password orm jwt hash email password w ≡ some user
        → is_restricted user.active ≡ false
        → post_login orm jwt hash email password s w ≡ record {
          result = ok tt;
          world = (generate_tokens orm jwt (record { id = user.id; email = user.email }) w).1;
          cookies =
              cookie access_key (jwt.sign false user.email user.id)
              ∷ cookie refresh_key (jwt.sign true user.email user.id)
              ∷ [];
        }
    unfolding post_login answer_tokens login generate_tokens
    user_enters email password s w user found free = ground arith

    -- After a login of a user who is not restricted and whose two signed tokens verify later to
    -- what they were signed of, if the browser had no cookies of these names for the host alone,
    -- the guard lets its next request at the later instant in as that user, and a refresh then
    -- gives the access token that is signed at that instant.
    pub login_opens_session :
        (later : Signing) (email password : ℕ) (s : List Cookie) (w : World) (user : User)
        → user_with_password orm jwt hash email password w ≡ some user
        → is_restricted user.active ≡ false
        → later.verify (jwt.sign false user.email user.id) ≡ some (user.email, user.id)
        → later.verify (jwt.sign true user.email user.id) ≡ some (user.email, user.id)
        → browser.stored (key_of CookieName.access Domain.own) s ≡ none
        → browser.stored (key_of CookieName.refresh Domain.own) s ≡ none
        → let reply = post_login orm jwt hash email password s w in
          let t = obey browser reply.cookies s in
          (reply.result ≡ ok tt)
          × (can_activate later (request browser UserType.user t)
              ≡ ok (record { user = some (user.email, user.id); admin = none }))
          × (get_refresh browser later orm hash false t reply.world ≡ record {
            result = ok tt;
            world = reply.world;
            cookies = cookie access_key (later.sign false user.email user.id) ∷ [];
          })
    unfolding obey get_refresh answer_refresh refresh_with request can_activate attach verified
    login_opens_session later email password s w user found free known again ea er =
        let token = jwt.sign false user.email user.id in
        let renewal = jwt.sign true user.email user.id in
        let w' = (generate_tokens orm jwt (record { id = user.id; email = user.email }) w).1 in
        let t = browser.set refresh_key renewal (browser.set access_key token s) in
        let sent =
          sent_pair CookieName.access CookieName.refresh Domain.site token renewal s refl ea er in
        let entered = user_enters email password s w user found free in
        let renews =
          generated-refresh orm jwt later (record { id = user.id; email = user.email }) w again in
        rw entered (refl, ground (arith, sent.0), ground (arith, sent.1))

    -- After a logout that went through, if the browser has no cookie of the office and none of the
    -- names of a session for the host alone, the guard lets it in no more and a refresh is
    -- refused.
    pub logout_closes_session :
        (later : Signing) (type next : UserType) (is_host : Bool) (s : List Cookie) (w : World)
        → (logout_host browser jwt type s w).result ≡ ok tt
        → browser.stored (key_of CookieName.access Domain.own) s ≡ none
        → browser.stored (key_of CookieName.refresh Domain.own) s ≡ none
        → browser.stored (key_of CookieName.admin_access Domain.own) s ≡ none
        → browser.stored (key_of CookieName.admin_access Domain.site) s ≡ none
        → let reply = logout_host browser jwt type s w in
          let t = obey browser reply.cookies s in
          (can_activate later (request browser next t) ≡ err Exception.unauthorized)
          × ((get_refresh browser later orm hash is_host t reply.world).result
              ≡ err Exception.unauthorized)
    unfolding logout_host guarded answer_cleared obey request can_activate get_refresh
        answer_refresh refresh_with
    logout_closes_session later type next is_host s w done ea er eo es =
        let a = access_key in
        let r = refresh_key in
        let t = browser.clear r (browser.clear a s) in
        let no_access : browser.sent CookieName.access t ≡ none =
          sent_none CookieName.access t (stored-clear a r _ s (inr (inr ea)))
            (stored-clear a r _ s (inl refl)) in
        let no_refresh : browser.sent CookieName.refresh t ≡ none =
          sent_none CookieName.refresh t (stored-clear a r _ s (inr (inr er)))
            (stored-clear a r _ s (inr (inl refl))) in
        let no_office : browser.sent CookieName.admin_access t ≡ none =
          sent_none CookieName.admin_access t (stored-clear a r _ s (inr (inr eo)))
            (stored-clear a r _ s (inr (inr es))) in
        elim (Result-cases (can_activate jwt (request browser type s))) [
          | inl (p, let_in) ↦ (ground (arith, no_access, no_office), ground (arith, no_refresh))
          | inr (e, refused) ↦ absurd (ground arith)
        ]

    admin_enters :
        (email password : ℕ) (s : List Cookie) (w : World) (admin : Admin)
        → get_admin orm jwt hash email password w ≡ some admin
        → post_admin_login orm jwt hash email password s w ≡ record {
          result = ok tt;
          world = (generate_tokens orm jwt (record { id = admin.id; email = admin.email }) w).1;
          cookies =
              cookie office_key (jwt.sign false admin.email admin.id)
              ∷ cookie renewal_key (jwt.sign true admin.email admin.id)
              ∷ [];
        }
    unfolding post_admin_login answer_tokens admin_login generate_tokens
    admin_enters email password s w admin found = ground arith

    -- After the login and the logout of an administrator whose signed tokens verify at the later
    -- instants to what they were signed of, if the browser had no cookies of these names for the
    -- domain, a refresh from it is answered with a new token by which the guard lets it in as the
    -- administrator again.
    pub office_logout_keeps_refresh :
        (soon later last : Signing) (email password : ℕ) (s : List Cookie) (w : World)
        (admin : Admin)
        → get_admin orm jwt hash email password w ≡ some admin
        → soon.verify (jwt.sign false admin.email admin.id) ≡ some (admin.email, admin.id)
        → later.verify (jwt.sign true admin.email admin.id) ≡ some (admin.email, admin.id)
        → last.verify (later.sign false admin.email admin.id) ≡ some (admin.email, admin.id)
        → browser.stored (key_of CookieName.admin_access Domain.site) s ≡ none
        → browser.stored (key_of CookieName.admin_referesh Domain.site) s ≡ none
        → let entered = post_admin_login orm jwt hash email password s w in
          let inside = obey browser entered.cookies s in
          let left = logout_admin browser soon UserType.office inside entered.world in
          let outside = obey browser left.cookies inside in
          let again = get_refresh_admin browser later orm hash outside left.world in
          (left.result ≡ ok tt)
          × (can_activate last
                (request browser UserType.office (obey browser again.cookies outside))
              ≡ ok (record { user = none; admin = some (admin.email, admin.id) }))
    unfolding obey
    office_logout_keeps_refresh soon later last email password s w admin found known again
          renewed_known ea er =
        let user : JwtUser = record { id = admin.id; email = admin.email } in
        let token = jwt.sign false admin.email admin.id in
        let renewal = jwt.sign true admin.email admin.id in
        let next = later.sign false admin.email admin.id in
        let w' = (generate_tokens orm jwt user w).1 in
        let inside = browser.set renewal_key renewal (browser.set office_key token s) in
        let outside = browser.clear stray_key (browser.clear office_key inside) in
        let sent =
          sent_pair CookieName.admin_access CookieName.admin_referesh Domain.own token renewal s
            refl ea er in
        let entered = admin_enters email password s w admin found in
        let left = admin_leaves soon token (admin.email, admin.id) inside w' sent.0 known in
        let (kept, back) = renewal_stays token renewal next s ea er in
        let renewed =
          admin_renews orm later hash next renewal outside w' kept
            (generated-refresh_admin orm jwt later hash user w again) in
        rw (entered, left, renewed)
          (refl, office_is_let_in last next (admin.email, admin.id) _ back renewed_known)

    -- Whoever changes the password of an administrator, which takes the address of one alone, can
    -- log in with the new password.
    pub new_admin_password_logs_in :
        (email new : ℕ) (s : List Cookie) (w : World) (admin : Admin)
        → orm.find_one Admin (λ a. a.email == email) w.admins ≡ some admin
        → let changed = patch_admin_password orm jwt hash email new s w in
          (changed.result ≡ ok tt)
          × ((post_admin_login orm jwt hash email new
                (obey browser changed.cookies s)
                changed.world).result
              ≡ ok tt)
    unfolding patch_admin_password answer_cleared update_admin_password post_admin_login
        answer_tokens admin_login get_admin generate_tokens
    new_admin_password_logs_in email new s w admin found =
        let a : Admin = record admin { password = hash new } in
        let t = orm.save Admin (λ x. x.id) a w.admins in
        let mine : (admin.email == email) ≡ true =
          orm.find_one_sound Admin (λ x. x.email == email) w.admins admin found in
        let both : ((a.email == email) && (a.password == hash new)) ≡ true = ground arith in
        elim (Option-cases
          (orm.find_one Admin (λ x. (x.email == email) && (x.password == hash new)) t)) [
            | inl missing ↦ absurd (saved_is_found orm (λ x. x.id) _ a w.admins both missing)
            | inr (b, there) ↦ (ground arith, ground arith)
          ]
