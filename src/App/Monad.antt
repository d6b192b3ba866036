-- ===== src/App/Monad.antt =====
-- The state of the application and the monad of its handlers.
use sojourn_backend.Prelude.{
  ℕ, ℤ, Bool, true, false, Option, none, some, List, ◌++◌, ◌∷◌, [], ◌≡◌, refl, ◌⊎◌, inl, inr,
}
use sojourn_backend.Entities.{
  Booking, Payment, Withdrawal, Referal, SojournCredit, Subscription, SubscriptionPayment, Wallet,
  Account, RefreshToken, UserAccount, User, Host, Admin, Property, PropertyInspection, Inspector,
  Wish, Review, Ticket, Message,
}

-- The numbers in the two confirmation mails (`guest.booking.created`, `host.booking.confirmed`).
-- The host's earning, 97% of the price of the stay, is in hundredths of a naira.
pub record Confirmation : Type 0 where
  pub booking_id : ℕ
  pub audience : ℤ
  pub lodging_duration : ℤ
  pub lodging_base_price : ℕ
  pub lodging_price : ℤ
  pub service_fee_amount : ℤ
  pub damage_fee_amount : ℕ
  pub vat_share_amount : ℤ
  pub lodging_total_price : ℤ
  pub free_cancel_date : ℤ
  pub host_total_earning : ℤ

-- The events given to the `EventEmitter2`.
pub data Event : Type 0 where
  guest_booking_created host_booking_confirmed : Confirmation → Event
  guest_booking_rejected host_booking_rejected : ℕ → ℤ → ℤ → Event
  booking_reminder : ℕ → ℤ → ℤ → Event
  subscription_not_renewing subscription_charge_failed : ℕ → Event
  subscription_invoice_created : ℕ → ℕ → Event
  account_created password_reset : ℕ → ℕ → ℕ → Event
  password_confirm : ℕ → Event

-- The key and the value of an entry of the cache: the codes that are mailed to an account.
pub data CodeKey : Type 0 where
  account_verification password_reset_code : ℕ → CodeKey

pub record Code : Type 0 where
  pub key : CodeKey
  pub code : ℕ

pub record World : Type 0 where
  pub bookings : List Booking
  pub payments : List Payment
  pub withdrawals : List Withdrawal
  pub referals : List Referal
  pub credits : List SojournCredit
  pub subscriptions : List Subscription
  pub subscription_payments : List SubscriptionPayment
  pub wallets : List Wallet
  pub accounts : List Account
  pub user_accounts : List UserAccount
  pub tokens : List RefreshToken
  pub users : List User
  pub hosts : List Host
  pub admins : List Admin
  pub properties : List Property
  pub tickets : List Ticket
  pub messages : List Message
  pub inspections : List PropertyInspection
  pub inspectors : List Inspector
  pub wishes : List Wish
  pub reviews : List Review
  -- the row of the naira to dollar rate
  pub rate : Option ℕ
  -- the cache, which is no part of the database
  pub codes : List Code
  pub events : List Event

-- The messages of the exceptions, and the two kinds that carry none.
pub data Exception : Type 0 where
  dates_not_available check_in_too_early check_out_too_early stay_too_short no_guests : Exception
  provider_error provider_refused currency_unavailable below_minimum : Exception
  wallet_not_found amount_not_positive amount_below_fee insufficient_balance : Exception
  accounts_limit recipient_not_found sender_not_found balance_empty balance_too_low : Exception
  host_not_found subscription_not_found record_not_found : Exception
  invalid_code user_not_found user_exists host_exists wrong_credentials restricted : Exception
  missing_fields unauthorized forbidden internal : Exception
  listing_not_created duplicate_title host_mismatch inspection_not_approved : Exception
  inspector_not_found inspection_not_cancelled booking_not_found : Exception
  -- reading a property of `null` or `undefined`
  type_error : Exception
  -- a column that may not be null: `QueryFailedError`
  query_failed : Exception
  -- an argument that the ORM refuses
  must_be_entity : Exception

pub data Result (A : Type 0) : Type 0 where
  ok : A → Result A
  err : Exception → Result A

pub Result-cases :
    {A : Type 0} (r : Result A) → ((a : A) × (r ≡ ok a)) ⊎ ((e : Exception) × (r ≡ err e))
Result-cases (ok a) = inl (a, refl)
Result-cases (err e) = inr (e, refl)

abbrev pub there_ok : {A B : Type 0} → Result A → (A → Result B) → Result B
there_ok (ok a) f = f a
there_ok (err e) f = err e

-- `map` with a function that may throw.
unfoldable pub all_rows : {A B : Type 0} → (A → Result B) → List A → Result (List B)
all_rows f [] = ok []
all_rows f (x ∷ xs) =
    let rest = all_rows f xs in there_ok (f x) λ r. there_ok rest λ rs. ok (r ∷ rs)

abbrev pub Handler : Type 0 → Type 0
Handler A = World → Result A × World

infixl 5 ◌>>=◌ ◌>>◌
abbrev pub ◌>>=◌ : {A B : Type 0} → Handler A → (A → Handler B) → Handler B
◌>>=◌ m f w = let (r, w') = m w in elim r [ ok a ↦ f a w' | err e ↦ (err e, w') ]

abbrev pub ◌>>◌ : {A B : Type 0} → Handler A → Handler B → Handler B
m >> k = m >>= λ _. k

module _ {A : Type 0} where
  abbrev pub pure : A → Handler A
  pure a w = (ok a, w)

  abbrev pub throw : Exception → Handler A
  throw e w = (err e, w)

  abbrev pub gets : (World → A) → Handler A
  gets f w = (ok (f w), w)

  -- A value that the code dereferences: `null` is a TypeError.
  abbrev pub deref : Option A → Handler A
  deref none = throw type_error
  deref (some a) = pure a

  abbrev pub or_throw : Option A → Exception → Handler A
  or_throw none e = throw e
  or_throw (some a) e = pure a

abbrev pub modify : (World → World) → Handler (Unit {0})
modify f w = (ok tt, f w)

abbrev pub throw_if : Bool → Exception → Handler (Unit {0})
throw_if true e = throw e
throw_if false e = pure tt

abbrev pub when : Bool → Handler (Unit {0}) → Handler (Unit {0})
when true m = m
when false m = pure tt

abbrev pub first_error : Result (Unit {0}) → Result (Unit {0}) → Result (Unit {0})
first_error (err e) r = err e
first_error (ok _) r = r

-- `Promise.all(xs.map(async …))`: every call is made, in the order of the list, and the whole
-- is rejected if one of them is.
unfoldable pub promise_all : {A : Type 0} → List A → (A → Handler (Unit {0})) → Handler (Unit {0})
promise_all [] f w = (ok tt, w)
promise_all (x ∷ xs) f w =
    let (r, w') = f x w in let (rs, w'') = promise_all xs f w' in (first_error r rs, w'')

-- `Promise.allSettled(…)` never rejects.
unfoldable pub all_settled : {A : Type 0} → List A → (A → Handler (Unit {0})) → Handler (Unit {0})
unfolding promise_all
all_settled xs f w = (ok tt, (promise_all xs f w).1)

abbrev pub emit : Event → Handler (Unit {0})
emit e w = (ok tt, record w { events = w.events ++ e ∷ [] })

abbrev pub set_bookings : List Booking → World → World
set_bookings t w = record w { bookings = t }

abbrev pub set_payments : List Payment → World → World
set_payments t w = record w { payments = t }

abbrev pub set_referals : List Referal → World → World
set_referals t w = record w { referals = t }

abbrev pub set_credits : List SojournCredit → World → World
set_credits t w = record w { credits = t }

abbrev pub set_subscriptions : List Subscription → World → World
set_subscriptions t w = record w { subscriptions = t }

-- `try { … } catch (error) { throw … }`, which keeps what was written.
abbrev pub or_else_throw : {A : Type 0} → Handler A → Exception → Handler A
or_else_throw m e w = let (r, w') = m w in elim r [ ok a ↦ (ok a, w') | err _ ↦ (err e, w') ]
