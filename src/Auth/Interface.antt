-- ===== src/Auth/Interface.antt =====
-- What the authentication uses of packages: the cache and the signing of tokens.
use sojourn_backend.Prelude.{ℕ, ◌≡◌, Bool, Option, none, some, List}
use sojourn_backend.App.{Code, CodeKey}

-- The cache manager. An entry that was set is taken not to expire before it is read.
pub record Cache : Type 0 where
  pub get : CodeKey → List Code → Option ℕ
  pub set : CodeKey → ℕ → List Code → List Code
  pub del : CodeKey → List Code → List Code
  pub get_set : (k : CodeKey) (c : ℕ) (s : List Code) → get k (set k c s) ≡ some c
  pub get_del : (k : CodeKey) (s : List Code) → get k (del k s) ≡ none

-- `JwtService` at one instant: a token is signed of an e-mail address and an identifier, for a week
-- or for the default time, and carries the instant, so it differs from one instant to the next. It
-- is verified to what it was signed of until it expires. Requests that follow each other have one
-- each.
pub record Signing : Type 0 where
  pub sign : Bool → ℕ → ℕ → ℕ
  pub verify : ℕ → Option (ℕ × ℕ)
