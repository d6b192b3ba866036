-- ===== src/Auth/Endpoints.antt =====
-- The endpoints that open and close a session: src/auth/auth.controller.ts, with the cookies that
-- they set and read, behind the guard where they are not public. The texts of the answers and the
-- attributes of a cookie other than its domain are left out.
use sojourn_backend.Prelude.{
  ℕ, ◌≡◌, Bool, false, Option, none, some, List, [], ◌∷◌, ◌==◌, ◌&&◌, if◌then◌else◌,
}
use sojourn_backend.Entities.{RefreshToken}
use sojourn_backend.Orm.{Orm, where_eq}
use sojourn_backend.App.{World, Handler, Result, ok, err, Exception}
use sojourn_backend.Auth.Interface.{Signing}
use sojourn_backend.Auth.Tokens.{Tokens, set_tokens, refresh_client_token}
use sojourn_backend.Auth.Login.{login, login_with_google}
use sojourn_backend.Auth.Access.{admin_login, copy_user, refresh_admin_token, update_admin_password}
use sojourn_backend.Auth.Guard.{GuardedRequest, UserType, can_activate}

-- The names of the cookies, `constants.ts`. `admin_refresh` is `ADMIN_REFRESH_TOKEN`, and
-- `admin_referesh` is `ADMIN_REFERESH_TOKEN`.
pub data CookieName : Type 0 where
  access refresh host_access admin_access admin_referesh admin_refresh : CookieName

-- A cookie of the host that answers, or of the domain 'sojourn.ng'
pub data Domain : Type 0 where
  own site : Domain

abbrev pub cookie_number : CookieName → ℕ
cookie_number access = 0
cookie_number refresh = 1
cookie_number host_access = 2
cookie_number admin_access = 3
cookie_number admin_referesh = 4
cookie_number admin_refresh = 5

abbrev pub domain_number : Domain → ℕ
domain_number own = 0
domain_number site = 1

abbrev pub same_domain : Domain → Domain → Bool
same_domain d e = domain_number d == domain_number e

abbrev pub other_domain : Domain → Domain
other_domain own = site
other_domain site = own

-- What a browser tells cookies apart by
pub record CookieKey : Type 0 where
  pub name : CookieName
  pub domain : Domain

abbrev pub same_cookie : CookieKey → CookieKey → Bool
same_cookie a b = same_domain a.domain b.domain && (cookie_number a.name == cookie_number b.name)

pub record Cookie : Type 0 where
  pub key : CookieKey
  pub value : ℕ

-- The browser: a cookie that is set replaces the one with its name and domain, and one that is
-- cleared is gone. A name that one domain alone has a cookie of is sent with that cookie.
pub record Browser : Type 0 where
  pub stored : CookieKey → List Cookie → Option ℕ
  pub set : CookieKey → ℕ → List Cookie → List Cookie
  pub clear : CookieKey → List Cookie → List Cookie
  pub sent : CookieName → List Cookie → Option ℕ
  pub stored_set :
      (k l : CookieKey) (v : ℕ) (s : List Cookie)
      → stored l (set k v s) ≡ (if same_cookie k l then some v else stored l s)
  pub stored_clear :
      (k l : CookieKey) (s : List Cookie)
      → stored l (clear k s) ≡ (if same_cookie k l then none else stored l s)
  pub sent_alone :
      (n : CookieName) (d : Domain) (s : List Cookie)
      → stored (record { name = n; domain = other_domain d }) s ≡ none
      → sent n s ≡ stored (record { name = n; domain = d }) s

-- `res.cookie` and `res.clearCookie`
pub data SetCookie : Type 0 where
  cookie : CookieKey → ℕ → SetCookie
  clear_cookie : CookieKey → SetCookie

-- The headers that were set are sent with an exception too.
pub record Reply : Type 0 where
  pub result : Result (Unit {0})
  pub world : World
  pub cookies : List SetCookie

abbrev pub Endpoint : Type 0
Endpoint = List Cookie → World → Reply

abbrev pub key_of : CookieName → Domain → CookieKey
key_of n d = record { name = n; domain = d }

-- The two cookies of a login, on one domain
unfoldable pub answer_tokens : CookieName → CookieName → Domain → Handler Tokens → Endpoint
answer_tokens a r d h s w =
    let (x, w') = h w in
    elim x [
      | err e ↦ record { result = err e; world = w'; cookies = [] }
      | ok ts ↦ record {
        result = ok tt;
        world = w';
        cookies = cookie (key_of a d) ts.access_token ∷ cookie (key_of r d) ts.refresh_token ∷ [];
      }
    ]

-- A new access token, or two cookies that are cleared without a domain
unfoldable pub answer_refresh : CookieKey → CookieName → CookieName → Handler ℕ → Endpoint
answer_refresh k a r h s w =
    let (x, w') = h w in
    elim x [
      | err e ↦ record {
        result = err e;
        world = w';
        cookies = clear_cookie (key_of a Domain.own) ∷ clear_cookie (key_of r Domain.own) ∷ [];
      }
      | ok token ↦ record { result = ok tt; world = w'; cookies = cookie k token ∷ [] }
    ]

unfoldable pub answer_cleared : CookieKey → CookieKey → Handler (Unit {0}) → Endpoint
answer_cleared a r h s w =
    let (x, w') = h w in
    elim x [
      | err e ↦ record { result = err e; world = w'; cookies = [] }
      | ok _ ↦ record { result = ok tt; world = w'; cookies = clear_cookie a ∷ clear_cookie r ∷ [] }
    ]

module _ (orm : Orm) where
  -- A token that was not sent does not verify, and a deletion by it follows.
  unfoldable pub refresh_with : (ℕ → Handler ℕ) → Option ℕ → Handler ℕ
  unfolding set_tokens
  refresh_with renew none w = (
    err Exception.unauthorized,
    set_tokens (orm.delete RefreshToken (λ t. where_eq orm (some t.refresh_token) none) w.tokens) w,
  )
  refresh_with renew (some token) w = renew token w

  module _ (jwt : Signing) (hash : ℕ → ℕ) where
    unfoldable pub post_login : ℕ → ℕ → Endpoint
    unfolding answer_tokens
    post_login email password =
        answer_tokens CookieName.access CookieName.refresh Domain.site
          (login orm jwt hash email password)

    unfoldable pub post_google_login : ℕ → Endpoint
    unfolding answer_tokens
    post_google_login email =
        answer_tokens CookieName.access CookieName.refresh Domain.site
          (login_with_google orm jwt hash email)

    unfoldable pub post_admin_login : ℕ → ℕ → Endpoint
    unfolding answer_tokens
    post_admin_login email password =
        answer_tokens CookieName.admin_access CookieName.admin_referesh Domain.own
          (admin_login orm jwt hash email password)

    -- Whoever asks
    unfoldable pub patch_admin_password : ℕ → ℕ → Endpoint
    unfolding answer_cleared
    patch_admin_password email new =
        answer_cleared (key_of CookieName.admin_access Domain.own)
          (key_of CookieName.admin_referesh Domain.own)
          (update_admin_password orm jwt hash email new)

module _ (browser : Browser) where
  -- What the browser keeps of an answer
  unfoldable pub obey : List SetCookie → List Cookie → List Cookie
  obey [] s = s
  obey (cookie k v ∷ cs) s = obey cs (browser.set k v s)
  obey (clear_cookie k ∷ cs) s = obey cs (browser.clear k s)

  -- A request to an endpoint that is not public
  unfoldable pub request : UserType → List Cookie → GuardedRequest
  request type s = record {
    is_public = false;
    access_token = browser.sent CookieName.access s;
    admin_access_token = browser.sent CookieName.admin_access s;
    user_type = type;
  }

  module _ (jwt : Signing) where
    unfoldable pub guarded : UserType → Endpoint → Endpoint
    unfolding request
    guarded type endpoint s w = elim (can_activate jwt (request type s)) [
      | err e ↦ record { result = err e; world = w; cookies = [] }
      | ok a ↦ endpoint s w
    ]

    unfoldable pub logout_host : UserType → Endpoint
    unfolding answer_cleared guarded
    logout_host type = guarded type (
        answer_cleared (key_of CookieName.access Domain.site)
          (key_of CookieName.refresh Domain.site) (λ w. (ok tt, w)))

    -- The second cookie is not the one that the login set.
    unfoldable pub logout_admin : UserType → Endpoint
    unfolding answer_cleared guarded
    logout_admin type = guarded type (
        answer_cleared (key_of CookieName.admin_access Domain.own)
          (key_of CookieName.admin_refresh Domain.own) (λ w. (ok tt, w)))

    module _ (orm : Orm) (hash : ℕ → ℕ) where
      -- 'only admin', which nothing but the guard tests
      unfoldable pub impersonate_user : UserType → ℕ → Endpoint
      unfolding answer_tokens guarded
      impersonate_user type i = guarded type (
          answer_tokens CookieName.access CookieName.refresh Domain.site (copy_user orm jwt hash i))

      -- `is_host` says whether the cookie of the role is 'host'.
      unfoldable pub get_refresh : Bool → Endpoint
      unfolding answer_refresh refresh_with
      get_refresh is_host s w =
          answer_refresh
            (key_of (if is_host then CookieName.host_access else CookieName.access) Domain.site)
            CookieName.refresh CookieName.access
            (refresh_with orm (refresh_client_token orm jwt) (browser.sent CookieName.refresh s)) s
            w

      unfoldable pub get_refresh_admin : Endpoint
      unfolding answer_refresh refresh_with
      get_refresh_admin s w =
          answer_refresh (key_of CookieName.admin_access Domain.own) CookieName.admin_access
            CookieName.admin_referesh
            (refresh_with orm (refresh_admin_token orm jwt hash)
              (browser.sent CookieName.admin_referesh s))
            s w
