-- ===== src/System/Invariant.antt =====
-- The bookings under any history of requests and jobs.
use sojourn_backend.Prelude.{
  ℕ, ◌≤◌, ◌≡◌, ◌≢◌, ap, Bool, true, false, List, [], ◌∷◌, All, All-map, All-zip, inl, inr, arith,
}
use sojourn_backend.Entities.{Booking}
use sojourn_backend.Orm.{Orm}
use sojourn_backend.App.{Result, ok, World, Handler, Result-cases}
use sojourn_backend.App.Transaction.{intercept}
use sojourn_backend.Booking.Availability.{is_active_booking, available-disjoint}
use sojourn_backend.Booking.Cancellation.{cancel_booking, bookings-cancel_booking}
use sojourn_backend.Checkout.Validation.{
  CheckoutDto, listing_dates, validate_checkout, validate_checkout_iff,
}
use sojourn_backend.Checkout.Initialize.{
  Sale, booking_row, record_sale, get_host_wallet_by_host_id, record_referal,
}
use sojourn_backend.Checkout.Ends.{Ends, initialize-Ends, crypto-Ends}
use sojourn_backend.Webhook.Dispatch.{handle_paystack_webhook}
use sojourn_backend.Webhook.Confirm.{verify_transaction, verify_crypto_transaction}
use sojourn_backend.Wallet.Withdraw.{withdraw}
use sojourn_backend.Referals.Requests.{add_withdrawal_request}
use sojourn_backend.Wallet.Credits.{add_sojourn_credits}
use sojourn_backend.Tasks.BookingJobs.{
  Step, sweep, is_paid_for, payment_of, handle_bookings_in_progress, handle_finished_bookings,
  handle_cancel_bookings, handle_cancel_crypto_bookings,
}
use sojourn_backend.Tasks.Sweep.{Saves, sweep-All, sweep-UniqueIds}
use sojourn_backend.Tasks.Sweep.Pairs.{Weakens, sweep-Pairwise}
use sojourn_backend.Tasks.Lifecycle.{IsTimely}
use sojourn_backend.Tasks.Clock.{FollowsClock, clock_jobs_settle}
use sojourn_backend.System.Requests.{
  Request, checkout, crypto_checkout, cancellation, verification, crypto_verification, webhook,
  withdrawal, credit_transfer, referal_withdrawal, bookings_in_progress, finished_bookings,
  cancel_bookings, cancel_crypto_bookings, update_crypto_payments, update_payments, serve,
  serve_all, RunsForward, end_of,
}
use sojourn_backend.System.Table.{
  Apart, IsSound, own-Apart, mirror-Apart, later-IsTimely, progress-IsTimely, finish-IsTimely,
  expire-IsTimely, progress-Apart, finish-Apart, expire-Apart, save-IsSound, cancel-IsSound,
}
use sojourn_backend.System.Untouched.{
  Spares, intercept-keeps, intercept-Spares, webhook-Spares, verify_transaction-Spares,
  verify_crypto-Spares, withdraw-Spares, transfer-Spares, referal_withdrawal-Spares,
  update_crypto_payments-Spares, update_payments-Spares,
}

module _ (orm : Orm) where
  bookings-record_sale :
      (now : ℕ) (dto : CheckoutDto) (s : Sale) (w : World)
      → (record_sale orm now dto s w).1.bookings
        ≡ orm.save Booking
            (λ x. x.id)
            (booking_row now dto s (orm.generate Booking (λ x. x.id) w.bookings))
            w.bookings
  unfolding record_sale get_host_wallet_by_host_id record_referal add_sojourn_credits
  bookings-record_sale now dto s w = ground arith

  -- A sale whose checks have passed is of a stay apart from all others.
  sale-IsSound :
      (brackets : Bool) (now : ℕ) (dto : CheckoutDto) (s : Sale) (w : World)
      → (validate_checkout orm brackets now dto w).0 ≡ ok tt
      → s.property.id ≡ dto.property_id
      → IsSound now w.bookings
      → IsSound now (record_sale orm now dto s w).1.bookings
  unfolding booking_row is_active_booking
  sale-IsSound brackets now dto s w valid right h =
      let checks = (validate_checkout_iff orm brackets now dto w).0 valid in
      let b = booking_row now dto s (orm.generate Booking (λ x. x.id) w.bookings) in
      let timely : IsTimely now b = record {
        in_order = ground (arith, checks.2);
        begun = λ q. absurd (ground arith);
        ended = λ q. absurd (ground arith);
      } in
      let free = available-disjoint orm brackets (listing_dates dto) w checks.0 in
      rw (bookings-record_sale now dto s w) (
        save-IsSound orm now b w.bookings timely
          (All-zip (λ x. x.id ≢ b.id) _ (λ x. x.id ≢ b.id × Apart b x)
            (λ x fresh apart. (fresh, λ ne p q r. apart (ground arith) r)) w.bookings
            (orm.generate_fresh Booking (λ x. x.id) w.bookings) free)
          h)

  Ends-IsSound :
      {A : Type 0} (brackets : Bool) (now : ℕ) (dto : CheckoutDto) (w : World)
      (x : Result A × World)
      → Ends orm brackets now dto w x
      → IsSound now w.bookings
      → IsSound now x.1.bookings
  Ends-IsSound brackets now dto w x (inl (e, bad, same)) h = rw same h
  Ends-IsSound brackets now dto w x (inr (s, r, v, i, d, never)) h =
      rw d (sale-IsSound brackets now dto s w v i h)

  cancel_booking-IsSound :
      (now i : ℕ) (w : World)
      → IsSound now w.bookings
      → IsSound now (intercept (cancel_booking orm i) w).1.bookings
  unfolding intercept
  cancel_booking-IsSound now i w h = elim (Result-cases (cancel_booking orm i w).0) [
    | inr (e, bad) ↦ rw (bad, intercept) h
    | inl (r, done) ↦
        let w' = (cancel_booking orm i w).1 in
        let table = bookings-cancel_booking orm i w w' (ap (λ x. (x, w')) done) in
        rw (done, intercept) (rw table (cancel-IsSound orm now _ w.bookings h))
  ]

  sweep-IsSound :
      (now : ℕ) (clause : World → Booking → Bool) (step : World → Step) (w : World)
      → ((b : Booking) → clause w b ≡ true → IsTimely now b → Saves (IsTimely now) (step w b))
      → ((b : Booking)
          → clause w b ≡ true
          → IsTimely now b
          → Weakens orm Apart own-Apart mirror-Apart b (step w b))
      → IsSound now w.bookings
      → IsSound now (sweep orm clause step w).1.bookings
  sweep-IsSound now clause step w timely apart h = record {
    unique = sweep-UniqueIds orm clause step w h.unique;
    timely = sweep-All orm (IsTimely now) clause step w timely h.timely;
    apart =
        sweep-Pairwise orm Apart own-Apart mirror-Apart (IsTimely now) clause step w apart h.timely
          h.apart;
  }

  spared :
      {A : Type 0} (now : ℕ) (m : Handler A) (w : World)
      → Spares m
      → IsSound now w.bookings
      → IsSound now (intercept m w).1.bookings
  spared now m w same h = rw (intercept-Spares m same w) h

  -- Whatever is served keeps the table sound.
  pub serve-IsSound :
      (brackets : Bool) (now : ℕ) (r : Request) (w : World)
      → IsSound now w.bookings
      → IsSound now (serve orm brackets now r w).bookings
  unfolding serve handle_bookings_in_progress handle_finished_bookings handle_cancel_bookings
      handle_cancel_crypto_bookings
  serve-IsSound brackets now (checkout paystack dto) w h =
      intercept-keeps (IsSound now) _ w h
        (Ends-IsSound brackets now dto w _ (initialize-Ends orm paystack brackets now dto w) h)
  serve-IsSound brackets now (crypto_checkout provider dto) w h =
      intercept-keeps (IsSound now) _ w h
        (Ends-IsSound brackets now dto w _ (crypto-Ends orm provider brackets now dto w) h)
  serve-IsSound brackets now (cancellation i) w h = cancel_booking-IsSound now i w h
  serve-IsSound brackets now (verification provider ref) w h =
      spared now (verify_transaction orm provider ref) w
        (verify_transaction-Spares orm provider ref) h
  serve-IsSound brackets now (crypto_verification ref) w h =
      spared now (verify_crypto_transaction orm ref) w (verify_crypto-Spares orm ref) h
  serve-IsSound brackets now (webhook digest dto signature) w h =
      spared now (handle_paystack_webhook orm digest dto signature) w
        (webhook-Spares orm digest dto signature) h
  serve-IsSound brackets now (withdrawal dto) w h =
      spared now (withdraw orm now dto) w (withdraw-Spares orm now dto) h
  serve-IsSound brackets now (credit_transfer dto) w h = rw (transfer-Spares orm dto w) h
  serve-IsSound brackets now (referal_withdrawal dto) w h =
      spared now (add_withdrawal_request orm dto) w (referal_withdrawal-Spares orm dto) h
  serve-IsSound brackets now bookings_in_progress w h =
      sweep-IsSound now (is_paid_for orm) _ w (λ b _. progress-IsTimely now b)
        (λ b _. progress-Apart now b) h
  serve-IsSound brackets now finished_bookings w h =
      sweep-IsSound now (is_paid_for orm) _ w (λ b _. finish-IsTimely now b)
        (λ b _ _. finish-Apart now b) h
  serve-IsSound brackets now cancel_bookings w h =
      sweep-IsSound now _ _ w (λ b _. expire-IsTimely now false now (payment_of orm w) b)
        (λ b _ _. expire-Apart false now (payment_of orm w) b) h
  serve-IsSound brackets now cancel_crypto_bookings w h =
      sweep-IsSound now _ _ w (λ b _. expire-IsTimely now true now (payment_of orm w) b)
        (λ b _ _. expire-Apart true now (payment_of orm w) b) h
  serve-IsSound brackets now (update_crypto_payments provider) w h =
      rw (update_crypto_payments-Spares orm provider w) h
  serve-IsSound brackets now update_payments w h = rw (update_payments-Spares orm w) h

  later-IsSound : (now later : ℕ) (t : List Booking) → now ≤ later → IsSound now t → IsSound later t
  later-IsSound now later t le h = record {
    unique = h.unique;
    timely =
        All-map (IsTimely now) (IsTimely later) (λ b. later-IsTimely now later b le) t h.timely;
    apart = h.apart;
  }

  -- Any history of requests and jobs in forward time keeps the table of bookings sound:
  -- identifiers are distinct, states fit the clock, and no two bookings of one property that are
  -- neither cancelled nor finished have an instant in common.
  pub history_never_double_books :
      (brackets : Bool) (start : ℕ) (rs : List (ℕ × Request)) (w : World)
      → RunsForward start rs
      → IsSound start w.bookings
      → IsSound (end_of start rs) (serve_all orm brackets rs w).bookings
  unfolding serve_all
  history_never_double_books brackets start [] w forward h = h
  history_never_double_books brackets start ((now, r) ∷ rs) w forward h =
      history_never_double_books brackets now rs (serve orm brackets now r w) forward.1
        (serve-IsSound brackets now r w (later-IsSound start now w.bookings forward.0 h))

  -- After any history in forward time that begins with a sound table of bookings, once the two
  -- clock jobs have run at one time, every booking that is paid for and not cancelled has the
  -- status that the clock gives it.
  pub clock_settles_history :
      (brackets : Bool) (start now : ℕ) (rs : List (ℕ × Request)) (w : World)
      → RunsForward start rs
      → IsSound start w.bookings
      → let v = serve_all orm brackets rs w in
        let v' = (handle_bookings_in_progress orm now v).1 in
        All (FollowsClock orm v now) (handle_finished_bookings orm now v').1.bookings
  clock_settles_history brackets start now rs w forward h =
      let v = serve_all orm brackets rs w in
      let sound = history_never_double_books brackets start rs w forward h in
      clock_jobs_settle orm now v sound.unique
        (All-map (IsTimely (end_of start rs)) _ (λ b t. t.in_order) v.bookings sound.timely)
