-- ===== src/Tests/Accounts.antt =====
-- The cache as a list of entries, and logins and resets on the sample rows.
use sojourn_backend.Prelude.{
  ℕ, ◌≡◌, ◌≢◌, refl, Bool, true, false, Option, none, some, List, [], ◌∷◌, All, ◌==◌, if◌then◌else◌,
  arith,
}
use sojourn_backend.Entities.{User}
use sojourn_backend.App.{World, Code, CodeKey, err, Exception}
use sojourn_backend.Auth.Interface.{Cache, Signing}
use sojourn_backend.Auth.Tokens.{refresh_client_token, invalidate_all_tokens_by_id}
use sojourn_backend.Auth.Password.{reset_password_confirmation}
use sojourn_backend.Auth.Sessions.{reset_revokes_sessions}
use sojourn_backend.Tests.Database.{list_orm}
use sojourn_backend.Tests.Samples.{guest, sample}

abbrev same_key : CodeKey → CodeKey → Bool
same_key (CodeKey.account_verification i) (CodeKey.account_verification j) = i == j
same_key (CodeKey.password_reset_code i) (CodeKey.password_reset_code j) = i == j
same_key (CodeKey.account_verification i) (CodeKey.password_reset_code j) = false
same_key (CodeKey.password_reset_code i) (CodeKey.account_verification j) = false

abbrev stored : CodeKey → List Code → Option ℕ
stored k [] = none
stored k (c ∷ cs) = let rest = stored k cs in if same_key c.key k then some c.code else rest

abbrev forget : CodeKey → List Code → List Code
forget k [] = []
forget k (c ∷ cs) = let rest = forget k cs in if same_key c.key k then rest else c ∷ rest

same_key_refl : (k : CodeKey) → same_key k k ≡ true
same_key_refl (CodeKey.account_verification i) = ground arith
same_key_refl (CodeKey.password_reset_code i) = ground arith

pub stored-forget : (k : CodeKey) (s : List Code) → stored k (forget k s) ≡ none
stored-forget k [] = refl
stored-forget k (c ∷ cs) = ground (arith, stored-forget k cs)

pub stored-set :
    (k : CodeKey) (c : ℕ) (s : List Code) → stored k (record { key = k; code = c } ∷ s) ≡ some c
stored-set k c s = rw (same_key_refl k)

unfoldable pub list_cache : Cache
list_cache = record {
  get = stored;
  set = λ k c s. record { key = k; code = c } ∷ s;
  del = forget;
  get_set = stored-set;
  get_del = stored-forget;
}

-- A signature that only one user has, and a hash that changes nothing.
abbrev pub signing : Signing
signing = record { sign = λ week email i. 7; verify = λ token. some (400, 40) }

abbrev plain : ℕ → ℕ
plain p = p

abbrev member : User
member = record guest { password = some 5 }

abbrev members : World
members = record sample {
  users = member ∷ [];
  codes = record { key = CodeKey.password_reset_code 40; code = 123 } ∷ [];
  tokens = record { id = 1; token_id = 40; refresh_token = 7 } ∷ [];
}

abbrev renewed : User
renewed = record guest { password = some 6 }

reset_revokes_sessions_example :
    let w' = (reset_password_confirmation list_orm list_cache plain 40 123 6 members).1 in
    All (λ t. t.token_id ≢ 40) w'.tokens
    × ((refresh_client_token list_orm signing 7 w').0 ≡ err Exception.unauthorized)
unfolding list_orm list_cache reset_password_confirmation invalidate_all_tokens_by_id
reset_revokes_sessions_example =
    reset_revokes_sessions list_orm list_cache plain 40 123 6 members
      (reset_password_confirmation list_orm list_cache plain 40 123 6 members).1 renewed signing 7
      400 refl refl
