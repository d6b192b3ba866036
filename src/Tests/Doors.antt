-- ===== src/Tests/Doors.antt =====
-- Accounts, logins and the guard on sample requests.
use sojourn_backend.Prelude.{
  ℕ, ◌≡◌, ◌≢◌, ◌↔◌, ◌⊎◌, ◌+◌, refl, some, none, false, true, [], ◌∷◌, arith,
}
use sojourn_backend.App.{World, ok}
use sojourn_backend.Auth.Tokens.{Tokens}
use sojourn_backend.Auth.Login.{login}
use sojourn_backend.Auth.Accounts.{AccountCreation, HostAccountCreation, create_account}
use sojourn_backend.Auth.Guard.{
  GuardedRequest, Attached, UserType, can_activate, inspected, guard_admits_iff,
}
use sojourn_backend.Auth.Signup.{
  DistinctEmails, account, google_account, host_account, sign_ups, sign_ups_keep_emails_distinct,
  create_then_login,
}
use sojourn_backend.Tests.Database.{list_orm}
use sojourn_backend.Tests.Samples.{sample, guest}
use sojourn_backend.Tests.Accounts.{list_cache, signing}

abbrev asked : GuardedRequest
asked = record {
  is_public = false;
  access_token = some 5;
  admin_access_token = none;
  user_type = UserType.user;
}

guard_admits_iff_example : ((a : Attached) × (can_activate signing asked ≡ ok a)) ↔ (
    ((true ≡ true) ⊎ (false ≡ true))
    × ((t : ℕ) → inspected signing UserType.user (some 5) none ≡ some t → signing.verify t ≢ none))
guard_admits_iff_example = guard_admits_iff signing asked refl

abbrev hashed : ℕ → ℕ
hashed password = password + 1000

-- The sample guest with a password.
abbrev member : World
member = record sample { users = record guest { password = some 1005 } ∷ [] }

abbrev newcomer : AccountCreation
newcomer = record {
  email = 999;
  password = some 8;
  referer_id = none;
  is_google = false;
  is_email_verified = false;
}

abbrev landlord : HostAccountCreation
landlord = record { email = 998; password = 9; referer_id = none; is_company = false }

sign_ups_keep_emails_distinct_example :
    DistinctEmails
      (λ u. u.id)
      (λ u. u.email)
      (sign_ups list_orm list_cache hashed
        (account newcomer 1 ∷ google_account newcomer 2 ∷ host_account landlord 3 ∷ [])
        sample).users
sign_ups_keep_emails_distinct_example =
    sign_ups_keep_emails_distinct list_orm list_cache hashed
      (account newcomer 1 ∷ google_account newcomer 2 ∷ host_account landlord 3 ∷ []) sample
      (
        ((λ ne. absurd (ne refl)), ((λ ne e. absurd (omega arith)), tt)),
        (((λ ne e. absurd (omega arith)), ((λ ne. absurd (ne refl)), tt)), tt),
      )

create_then_login_example :
    let made = create_account list_orm list_cache hashed newcomer 1 sample in
    (ts : Tokens) × ((login list_orm signing hashed 999 8 made.1).0 ≡ ok ts)
    × (ts.access_token ≡ signing.sign false 999 82)
unfolding list_orm list_cache create_account
create_then_login_example =
    create_then_login list_orm list_cache hashed signing newcomer 1 8 sample
      (create_account list_orm list_cache hashed newcomer 1 sample).1 _ refl refl
