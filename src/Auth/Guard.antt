-- ===== src/Auth/Guard.antt =====
-- The guard of the endpoints: `AuthGuard` of src/auth/auth.guard.ts.
use sojourn_backend.Prelude.{
  ℕ, ◌≡◌, ◌≢◌, ◌↔◌, ◌⊎◌, inl, inr, refl, Bool, true, false, Option, none, some, not, ◌&&◌, is_set,
  if◌then◌else◌, arith, Option-cases, Bool-cases,
}
use sojourn_backend.App.{Result, ok, err, Exception}
use sojourn_backend.Auth.Interface.{Signing}

-- The header `x-user-type`
pub data UserType : Type 0 where
  user office other : UserType

-- What the guard reads of a request, and whether its handler is public.
pub record GuardedRequest : Type 0 where
  pub is_public : Bool
  pub access_token : Option ℕ
  pub admin_access_token : Option ℕ
  pub user_type : UserType

-- The payloads that the guard attaches to the request.
pub record Attached : Type 0 where
  pub user : Option (ℕ × ℕ)
  pub admin : Option (ℕ × ℕ)

module _ (jwt : Signing) where
  -- The payload of a token that is there; a token that does not verify is forbidden.
  unfoldable pub verified : Option ℕ → Result (Option (ℕ × ℕ))
  verified none = ok none
  verified (some token) = elim (jwt.verify token) [
    | none ↦ err Exception.forbidden
    | some payload ↦ ok (some payload)
  ]

  unfoldable pub attach : UserType → Option ℕ → Option ℕ → Result Attached
  unfolding verified
  attach user access admin = elim (verified access) [
    | err e ↦ err e
    | ok payload ↦ ok (record { user = payload; admin = none })
  ]
  attach office access admin = elim (verified admin) [
    | err e ↦ err e
    | ok payload ↦ ok (record { user = none; admin = payload })
  ]
  attach other access admin = ok (record { user = none; admin = none })

  unfoldable pub can_activate : GuardedRequest → Result Attached
  unfolding attach
  can_activate request =
      if request.is_public
      then ok (record { user = none; admin = none })
      else if not (is_set request.access_token) && not (is_set request.admin_access_token)
      then err Exception.unauthorized
      else attach request.user_type request.access_token request.admin_access_token

  -- The token that the header asks the guard to look at.
  abbrev pub inspected : UserType → Option ℕ → Option ℕ → Option ℕ
  inspected user access admin = access
  inspected office access admin = admin
  inspected other access admin = none

  verified-cases :
      (token : Option ℕ)
      → ((p : Option (ℕ × ℕ)) × (verified token ≡ ok p)
          × ((t : ℕ) → token ≡ some t → jwt.verify t ≢ none))
        ⊎ ((t : ℕ) × (token ≡ some t)
            × (jwt.verify t ≡ none)
            × (verified token ≡ err Exception.forbidden))
  unfolding verified
  verified-cases none = inl (none, refl, λ t e. absurd cc)
  verified-cases (some token) = elim (Option-cases (jwt.verify token)) [
    | inl bad ↦ inr (token, refl, bad, ground arith)
    | inr (p, good) ↦ inl (some p, ground arith, λ t e bad. absurd (ground arith))
  ]

  attach-cases :
      (type : UserType) (access admin : Option ℕ)
      → ((a : Attached) × (attach type access admin ≡ ok a)
          × ((t : ℕ) → inspected type access admin ≡ some t → jwt.verify t ≢ none))
        ⊎ ((t : ℕ) × (inspected type access admin ≡ some t)
            × (jwt.verify t ≡ none)
            × (attach type access admin ≡ err Exception.forbidden))
  unfolding attach
  attach-cases user access admin = elim (verified-cases access) [
    | inl (p, e, good) ↦ inl (record { user = p; admin = none }, ground arith, good)
    | inr (t, e, bad, refused) ↦ inr (t, e, bad, ground arith)
  ]
  attach-cases office access admin = elim (verified-cases admin) [
    | inl (p, e, good) ↦ inl (record { user = none; admin = p }, ground arith, good)
    | inr (t, e, bad, refused) ↦ inr (t, e, bad, ground arith)
  ]
  attach-cases other access admin =
      inl (record { user = none; admin = none }, refl, λ t e. absurd cc)

  -- A request to an endpoint that is not public is let through exactly when one of the two cookies
  -- is there and the one that the header names, if it is there, verifies.
  pub guard_admits_iff :
      (request : GuardedRequest)
      → request.is_public ≡ false
      → ((a : Attached) × (can_activate request ≡ ok a)) ↔ (
          ((is_set request.access_token ≡ true) ⊎ (is_set request.admin_access_token ≡ true))
          × ((t : ℕ)
              → inspected request.user_type request.access_token request.admin_access_token ≡ some t
              → jwt.verify t ≢ none))
  unfolding can_activate
  guard_admits_iff request closed =
      let cases = attach-cases request.user_type request.access_token request.admin_access_token in
      elim cases [
        | inl (a, e, good) ↦ (
          λ h. (
            elim (Bool-cases (is_set request.access_token)) [
              | inl there ↦ inl there
              | inr gone ↦ inr (ground (arith, h.1))
            ],
            good,
          ),
          λ h. (a, ground (arith, h.0)),
        )
        | inr (t, e, bad, refused) ↦ (λ h. absurd (ground (arith, h.1)), λ h. absurd (h.1 t e bad))
      ]
