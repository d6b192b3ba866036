-- ===== src/Auth/Tokens.antt =====
-- The refresh tokens: src/repositories/token.repository.ts, and `generateAccessToken`,
-- `generateRefreshToken` and `refreshClientToken` of src/auth/auth.service.ts.
use sojourn_backend.Prelude.{ℕ, true, false, ◌&&◌, Option, none, some, List, ◌==◌}
use sojourn_backend.Entities.{RefreshToken}
use sojourn_backend.Orm.{Orm}
use sojourn_backend.App.{World, Handler, ok, err, Exception, ◌>>◌, pure, modify}
use sojourn_backend.Auth.Interface.{Signing}

-- The payload of a token, `JWTUser`.
pub record JwtUser : Type 0 where
  pub id : ℕ
  pub email : ℕ

-- What a login answers with.
pub record Tokens : Type 0 where
  pub access_token : ℕ
  pub refresh_token : ℕ

unfoldable pub set_tokens : List RefreshToken → World → World
set_tokens t w = record w { tokens = t }

module _ (orm : Orm) where
  unfoldable pub invalidate_all_tokens_by_id : ℕ → Handler (Unit {0})
  unfolding set_tokens
  invalidate_all_tokens_by_id i =
      modify λ w. set_tokens (orm.delete RefreshToken (λ t. t.token_id == i) w.tokens) w

  unfoldable pub remove_token : ℕ → Handler (Unit {0})
  unfolding set_tokens
  remove_token token =
      modify λ w. set_tokens (orm.delete RefreshToken (λ t. t.refresh_token == token) w.tokens) w

  unfoldable pub token_row : ℕ → ℕ → World → RefreshToken
  token_row i token w = record {
    id = orm.generate RefreshToken (λ t. t.id) w.tokens;
    token_id = i;
    refresh_token = token;
  }

  unfoldable pub create_token : ℕ → ℕ → Handler (Unit {0})
  unfolding set_tokens token_row
  create_token i token =
      modify λ w. set_tokens (orm.save RefreshToken (λ t. t.id) (token_row i token w) w.tokens) w

  unfoldable pub get_token : ℕ → ℕ → World → Option RefreshToken
  get_token i token w =
      orm.find_one RefreshToken (λ t. (t.token_id == i) && (t.refresh_token == token)) w.tokens

  -- The access token and the refresh token, the second of which is recorded.
  unfoldable pub generate_tokens : Signing → JwtUser → Handler Tokens
  unfolding create_token
  generate_tokens jwt user = do
    let refresh = jwt.sign true user.email user.id
    create_token user.id refresh
    pure (record { access_token = jwt.sign false user.email user.id; refresh_token = refresh })

  -- `refreshClientToken`, without the cookies that are cleared. Whatever goes wrong, the token is
  -- removed and the answer is `UnauthorizedException`.
  unfoldable pub refresh_client_token : Signing → ℕ → Handler ℕ
  unfolding get_token remove_token
  refresh_client_token jwt token w = elim (jwt.verify token) [
    | none ↦ (err Exception.unauthorized, (remove_token token w).1)
    | some (email, i) ↦ elim (get_token i token w) [
      | none ↦ (err Exception.unauthorized, (remove_token token w).1)
      | some t ↦ (ok (jwt.sign false email i), w)
    ]
  ]
