-- ===== src/Tests/Sessions.antt =====
-- The cookies of a browser as a list, and sessions that are opened and closed with them.
use sojourn_backend.Prelude.{
  ℕ, ◌≡◌, refl, Bool, true, false, Option, none, some, List, [], ◌∷◌, ◌==◌, ◌&&◌, ◌∙◌, inl, inr,
  Bool-cases, if◌then◌else◌, arith,
}
use sojourn_backend.Entities.{User, Admin}
use sojourn_backend.App.{World, ok, err, Exception}
use sojourn_backend.Auth.Login.{user_with_password}
use sojourn_backend.Auth.Access.{get_admin}
use sojourn_backend.Auth.Interface.{Signing}
use sojourn_backend.Auth.Guard.{UserType, can_activate}
use sojourn_backend.Auth.Endpoints.{
  CookieName, CookieKey, Domain, Cookie, Browser, cookie, key_of, other_domain, same_cookie,
  domain_number, cookie_number, obey, request, post_login, post_admin_login, patch_admin_password,
  logout_host, logout_admin, get_refresh, get_refresh_admin,
}
use sojourn_backend.Auth.SessionCookies.{
  login_opens_session, logout_closes_session, office_logout_keeps_refresh,
  new_admin_password_logs_in,
}
use sojourn_backend.Tests.Database.{list_orm}
use sojourn_backend.Tests.Samples.{guest, sample}
use sojourn_backend.Tests.Accounts.{signing}

abbrev kept : CookieKey → List Cookie → Option ℕ
kept k [] = none
kept k (c ∷ cs) = let rest = kept k cs in if same_cookie c.key k then some c.value else rest

abbrev dropped : CookieKey → List Cookie → List Cookie
dropped k [] = []
dropped k (c ∷ cs) = let rest = dropped k cs in if same_cookie c.key k then rest else c ∷ rest

both_equal : (d n e m : ℕ) → ((d == e) && (n == m)) ≡ true → (d ≡ e) × (n ≡ m)
both_equal d n e m h = (ground arith, ground arith)

same_cookie_left : (a b c : CookieKey) → same_cookie a b ≡ true → same_cookie a c ≡ same_cookie b c
same_cookie_left a b c h =
    let (d, n) =
      both_equal (domain_number a.domain) (cookie_number a.name) (domain_number b.domain)
        (cookie_number b.name) h in
    rw (d, n) refl

same_cookie_right : (a b c : CookieKey) → same_cookie a b ≡ true → same_cookie c a ≡ same_cookie c b
same_cookie_right a b c h =
    let (d, n) =
      both_equal (domain_number a.domain) (cookie_number a.name) (domain_number b.domain)
        (cookie_number b.name) h in
    rw (d, n) refl

-- The step of `kept-dropped`, of the tests and what the rest of the list answers.
kept_step :
    (ck kl cl : Bool) (v : ℕ) (before after : Option ℕ)
    → (ck ≡ true → cl ≡ kl)
    → (kl ≡ true → ck ≡ cl)
    → after ≡ (if kl then none else before)
    → (if ck then after else (if cl then some v else after))
      ≡ (if kl then none else (if cl then some v else before))
kept_step true true cl v before after l r e = e
kept_step true false true v before after l r e = absurd (ground (arith, l refl))
kept_step true false false v before after l r e = e
kept_step false true true v before after l r e = absurd (ground (arith, r refl))
kept_step false true false v before after l r e = e
kept_step false false true v before after l r e = refl
kept_step false false false v before after l r e = e

kept_if :
    (t : Bool) (l : CookieKey) (c : Cookie) (cs : List Cookie)
    → kept l (if t then cs else c ∷ cs)
      ≡ (if t then kept l cs else (if same_cookie c.key l then some c.value else kept l cs))
kept_if true l c cs = refl
kept_if false l c cs = refl

kept-dropped :
    (k l : CookieKey) (s : List Cookie)
    → kept l (dropped k s) ≡ (if same_cookie k l then none else kept l s)
kept-dropped k l [] = elim (Bool-cases (same_cookie k l)) [ inl e ↦ rw e refl | inr e ↦ rw e refl ]
kept-dropped k l (c ∷ cs) =
    kept_if (same_cookie c.key k) l c (dropped k cs)
    ∙ kept_step (same_cookie c.key k) (same_cookie k l) (same_cookie c.key l) c.value (kept l cs)
        (kept l (dropped k cs)) (same_cookie_left c.key k l) (same_cookie_right k l c.key)
        (kept-dropped k l cs)

abbrev first_of : CookieName → List Cookie → Option ℕ
first_of n s = elim (kept (key_of n Domain.own) s) [
  | none ↦ kept (key_of n Domain.site) s
  | some v ↦ some v
]

first_alone :
    (n : CookieName) (d : Domain) (s : List Cookie)
    → kept (key_of n (other_domain d)) s ≡ none
    → first_of n s ≡ kept (key_of n d) s
first_alone n Domain.own s e = ground arith
first_alone n Domain.site s e = ground arith

unfoldable list_browser : Browser
list_browser = record {
  stored = kept;
  set = λ k v s. record { key = k; value = v } ∷ s;
  clear = dropped;
  sent = first_of;
  stored_set = λ k l v s. refl;
  stored_clear = kept-dropped;
  sent_alone = first_alone;
}

-- The signing a while later: its tokens are others, and it verifies the first ones too.
abbrev signing_later : Signing
signing_later = record { sign = λ week email i. 8; verify = λ token. some (400, 40) }

abbrev plain : ℕ → ℕ
plain p = p

abbrev member : User
member = record guest { password = some 5 }

abbrev officer : Admin
officer = record { id = 40; email = 400; password = 9 }

abbrev staffed : World
staffed = record sample { users = member ∷ []; admins = officer ∷ [] }

login_opens_session_example :
    let reply = post_login list_orm signing plain 400 5 [] staffed in
    let t = obey list_browser reply.cookies [] in
    (reply.result ≡ ok tt)
    × (can_activate signing_later (request list_browser UserType.user t)
        ≡ ok (record { user = some (400, 40); admin = none }))
    × (get_refresh list_browser signing_later list_orm plain false t reply.world ≡ record {
      result = ok tt;
      world = reply.world;
      cookies = cookie (key_of CookieName.access Domain.site) 8 ∷ [];
    })
unfolding list_orm list_browser user_with_password
login_opens_session_example =
    login_opens_session list_browser list_orm signing plain signing_later 400 5 [] staffed member
      refl refl refl refl refl refl

abbrev session : List Cookie
session =
    record { key = key_of CookieName.access Domain.site; value = 7 }
    ∷ record { key = key_of CookieName.refresh Domain.site; value = 7 }
    ∷ []

logout_closes_session_example :
    let reply = logout_host list_browser signing UserType.user session staffed in
    let t = obey list_browser reply.cookies session in
    (can_activate signing_later (request list_browser UserType.user t) ≡ err Exception.unauthorized)
    × ((get_refresh list_browser signing_later list_orm plain false t reply.world).result
        ≡ err Exception.unauthorized)
unfolding list_orm list_browser logout_host can_activate
logout_closes_session_example =
    logout_closes_session list_browser list_orm signing plain signing_later UserType.user
      UserType.user false session staffed refl refl refl refl refl

office_logout_keeps_refresh_example :
    let entered = post_admin_login list_orm signing plain 400 9 [] staffed in
    let inside = obey list_browser entered.cookies [] in
    let left = logout_admin list_browser signing_later UserType.office inside entered.world in
    let outside = obey list_browser left.cookies inside in
    let again = get_refresh_admin list_browser signing_later list_orm plain outside left.world in
    (left.result ≡ ok tt)
    × (can_activate signing_later
          (request list_browser UserType.office (obey list_browser again.cookies outside))
        ≡ ok (record { user = none; admin = some (400, 40) }))
unfolding list_orm list_browser get_admin
office_logout_keeps_refresh_example =
    office_logout_keeps_refresh list_browser list_orm signing plain signing_later signing_later
      signing_later 400 9 [] staffed officer refl refl refl refl refl refl

new_admin_password_logs_in_example :
    let changed = patch_admin_password list_orm signing plain 400 6 [] staffed in
    (changed.result ≡ ok tt)
    × ((post_admin_login list_orm signing plain 400 6
          (obey list_browser changed.cookies [])
          changed.world).result
        ≡ ok tt)
unfolding list_orm
new_admin_password_logs_in_example =
    new_admin_password_logs_in list_browser list_orm signing plain 400 6 [] staffed officer refl
