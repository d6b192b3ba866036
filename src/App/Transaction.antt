-- ===== src/App/Transaction.antt =====
-- src/interceptors/transaction.interceptor.ts. The handler runs inside one database transaction:
-- a result commits it, an exception rolls it back and is thrown on. Events that were emitted
-- and the cache are not part of the database and stay.
use sojourn_backend.Prelude.{inl, inr}
use sojourn_backend.App.Monad.{World, ok, err, Handler, Result-cases}

-- The tables of one world with the cache and the events of another.
abbrev pub rolled_back : World → World → World
rolled_back before after = record before { codes = after.codes; events = after.events }

unfoldable pub intercept : {A : Type 0} → Handler A → Handler A
intercept next w =
    let (r, w') = next w in
    elim r [ ok data_out ↦ (ok data_out, w') | err e ↦ (err e, rolled_back w w') ]

-- What holds of the world rolled back and of the handler's, holds after the transaction.
pub intercept-either :
    {A : Type 0} (P : World → Type 0) (next : Handler A) (w : World)
    → P (rolled_back w (next w).1)
    → P (next w).1
    → P (intercept next w).1
unfolding intercept
intercept-either P next w h k = elim (Result-cases (next w).0) [
  | inl (a, e) ↦ rw (e, intercept) k
  | inr (x, e) ↦ rw (e, intercept) h
]
