-- ===== src/System/Journey.antt =====
-- A stay from the checkout over the charge to the clock: the handlers and the jobs together.
use sojourn_backend.Prelude.{
  ℕ, ◌≤◌, ◌≡◌, ◌≢◌, refl, subst, ap, ◌∙◌, ℤ, Bool, true, false, some, List, [], ◌∷◌, All, All-map,
  Option, Option-cases, Bool-cases, inl, inr, ◌==◌, holds, arith,
}
use sojourn_backend.Entities.{Booking, Payment, PaymentStatus, Property, User, Host, is_cancelled}
use sojourn_backend.Orm.{Orm, HasKey}
use sojourn_backend.Orm.Saving.{found-saved, found-HasKey, found_by_key, generated-HasKey}
use sojourn_backend.App.{ok, World}
use sojourn_backend.App.Transaction.{intercept}
use sojourn_backend.Checkout.Validation.{CheckoutDto, validate_checkout}
use sojourn_backend.Checkout.Pricing.{amount_due, in_kobo}
use sojourn_backend.Checkout.Initialize.{
  Sale, card_sale, PaystackReply, booking_row, record_sale, initialize_transaction,
}
use sojourn_backend.Checkout.Recorded.{seen, stay_base, stay_credits, initialize-record_sale}
use sojourn_backend.Webhook.Message.{PaystackData, WebhookDto, charge_success}
use sojourn_backend.Webhook.Dispatch.{dispatch}
use sojourn_backend.Webhook.Confirm.{booking_of, update_payment}
use sojourn_backend.Webhook.Signed.{signed_webhook}
use sojourn_backend.Tasks.BookingJobs.{
  progress_booking, finish_booking, is_paid_for, payment_of, sweep, handle_bookings_in_progress,
  handle_finished_bookings,
}
use sojourn_backend.Tasks.Sweep.{UniqueIds, Saves, saves, sweep-All}
use sojourn_backend.Tasks.Sweep.Keys.{sweep-HasKey}
use sojourn_backend.Tasks.Clock.{status_at, FollowsClock, clock_jobs_settle}
use sojourn_backend.Tasks.Lifecycle.{IsTimely}
use sojourn_backend.System.Requests.{
  checkout, webhook, bookings_in_progress, finished_bookings, serve, serve_all,
}
use sojourn_backend.System.Table.{IsSound}
use sojourn_backend.System.Invariant.{serve-IsSound}
use sojourn_backend.System.Untouched.{update_payment-Spares}
use sojourn_backend.System.Charge.{IsWritten, record_sale-IsWritten, charge_confirms}

-- The bookings with an identifier have the dates and are not cancelled.
abbrev IsKept : ℕ → ℕ → ℕ → Booking → Type 0
IsKept i from until b =
    b.id ≡ i → (b.check_in ≡ from) × (b.check_out ≡ until) × (is_cancelled b.status ≡ false)

progress-IsKept :
    (i from until now : ℕ) (b : Booking)
    → IsKept i from until b
    → Saves (IsKept i from until) (progress_booking now b)
unfolding progress_booking
progress-IsKept i from until now b h =
    saves (IsKept i from until) (progress_booking now b)
      (λ b' e k. let kept = h (ground arith) in (ground arith, ground arith, ground arith))

finish-IsKept :
    (i from until now : ℕ) (b : Booking)
    → IsKept i from until b
    → Saves (IsKept i from until) (finish_booking now b)
unfolding finish_booking
finish-IsKept i from until now b h =
    saves (IsKept i from until) (finish_booking now b)
      (λ b' e k. let kept = h (ground arith) in (ground arith, ground arith, ground arith))

module _ (orm : Orm) where
  -- The two jobs on a table in which the bookings with an identifier are paid for.
  jobs_settle_stay :
      (i from until now : ℕ) (w : World)
      → UniqueIds w.bookings
      → All (λ b. b.check_in ≤ b.check_out) w.bookings
      → All (IsKept i from until) w.bookings
      → HasKey (λ b. b.id) i w.bookings
      → ((b : Booking) → b.id ≡ i → is_paid_for orm w b ≡ true)
      → let w' = (handle_bookings_in_progress orm now w).1 in
        (b : Booking) × (orm.find_one Booking
            (λ x. x.id == i)
            (handle_finished_bookings orm now w').1.bookings
          ≡ some b)
        × (b.check_in ≡ from)
        × (b.check_out ≡ until)
        × (b.status ≡ status_at now b)
  unfolding handle_bookings_in_progress handle_finished_bookings
  jobs_settle_stay i from until now w unique ordered kept has paid =
      let w' = (sweep orm (is_paid_for orm) (λ _. progress_booking now) w).1 in
      let w'' = (sweep orm (is_paid_for orm) (λ _. finish_booking now) w').1 in
      let kept'' =
        sweep-All orm (IsKept i from until) (is_paid_for orm) (λ _. finish_booking now) w'
          (λ b _. finish-IsKept i from until now b)
          (sweep-All orm (IsKept i from until) (is_paid_for orm) (λ _. progress_booking now) w
            (λ b _. progress-IsKept i from until now b) kept) in
      let (b, found, same) =
        found-HasKey orm (λ x. x.id) i w''.bookings
          (sweep-HasKey orm i (is_paid_for orm) (λ _. finish_booking now) w'
            (sweep-HasKey orm i (is_paid_for orm) (λ _. progress_booking now) w has)) in
      let (starts, ends, live) =
        orm.find_one_keeps Booking (IsKept i from until) _ w''.bookings b kept'' found same in
      let follows =
        orm.find_one_keeps Booking (FollowsClock orm w now) _ w''.bookings b
          (clock_jobs_settle orm now w unique ordered) found in
      (b, found, starts, ends, follows (paid b same) live)

  -- A booking of which the only payment is completed is paid for.
  written_is_paid :
      (now : ℕ) (dto : CheckoutDto) (s : Sale) (w w' v : World) (p : Payment)
      → IsWritten orm now dto s w p w'
      → All (λ q. (i : ℕ) → q.booking_id ≡ some i → HasKey (λ b. b.id) i w.bookings) w.payments
      → v.payments
        ≡ orm.save Payment
            (λ x. x.id)
            (record p { payment_status = PaymentStatus.completed })
            w'.payments
      → (b : Booking) → b.id ≡ orm.generate Booking (λ x. x.id) w.bookings
      → is_paid_for orm v b ≡ true
  unfolding is_paid_for payment_of
  written_is_paid now dto s w w' v p written linked saved b same =
      let p' : Payment = record p { payment_status = PaymentStatus.completed } in
      let found : payment_of orm v b ≡ some p' =
        rw (payment_of, saved)
          (found-saved orm (λ x. x.id) _ p' w'.payments (rw (written.booked) (ground arith))
            (rw (written.payments) (
              orm.save_all Payment (λ x. x.id ≢ p.id → holds x.booking_id b.id ≡ false) (λ x. x.id)
                p w.payments (λ ne. absurd (ne refl))
                (All-map (λ q. (i : ℕ) → q.booking_id ≡ some i → HasKey (λ b. b.id) i w.bookings) _
                  (λ q link _ _. other q link) w.payments linked)))) in
      ground arith
    where
      other :
          (q : Payment)
          → ((i : ℕ) → q.booking_id ≡ some i → HasKey (λ b. b.id) i w.bookings)
          → holds q.booking_id b.id ≡ false
      other q link = elim (Option-cases q.booking_id) [
        | inl e ↦ rw e refl
        | inr (j, e) ↦ elim (Bool-cases (j == b.id)) [
          | inr miss ↦ rw e miss
          | inl hit ↦
              let taken : j ≡ orm.generate Booking (λ x. x.id) w.bookings = ground arith in
              absurd (
                generated-HasKey orm (λ x. x.id) w.bookings
                  (subst (λ k. HasKey (λ b. b.id) k w.bookings) taken (link j e)))
        ]
      ]

  -- A checkout that comes to the recording of a sale is served as that.
  serve_sale :
      (paystack : ℤ → Option PaystackReply) (brackets : Bool) (now : ℕ) (dto : CheckoutDto)
      (s : Sale) (w : World) (p : Payment)
      → initialize_transaction orm paystack brackets now dto w ≡ record_sale orm now dto s w
      → (record_sale orm now dto s w).0 ≡ ok p
      → serve orm brackets now (checkout paystack dto) w ≡ (record_sale orm now dto s w).1
  unfolding serve intercept
  serve_sale paystack brackets now dto s w p e done = ground arith

  -- A signed message of a charge that is settled is served as the settling.
  serve_charge :
      (brackets : Bool) (now : ℕ) (digest : WebhookDto → List ℕ) (message : WebhookDto)
      (d : PaystackData) (w : World)
      → message.event ≡ charge_success
      → message.payload ≡ some d
      → (update_payment orm d w).0 ≡ ok true
      → serve orm brackets now (webhook digest message (digest message)) w
        ≡ (update_payment orm d w).1
  unfolding serve intercept dispatch
  serve_charge brackets now digest message d w event payload settled =
      let signed = signed_webhook orm digest message d w payload in ground arith

  serve_jobs :
      (brackets : Bool) (now : ℕ) (w : World)
      → serve orm brackets now finished_bookings (serve orm brackets now bookings_in_progress w)
        ≡ (handle_finished_bookings orm now (handle_bookings_in_progress orm now w).1).1
  unfolding serve
  serve_jobs brackets now w = refl

  -- In a database that is sound and whose payments belong to bookings of it and have another
  -- reference, a checkout that can succeed, the signed message of its charge and the two clock
  -- jobs leave the booking of the payment with the dates that were asked for and the status that
  -- the clock gives it.
  pub paid_stay_follows_clock :
      (paystack : ℤ → Option PaystackReply) (brackets : Bool) (now charged later : ℕ)
      (dto : CheckoutDto) (w : World) (property : Property) (user : User) (host : Host)
      (reply : PaystackReply) (digest : WebhookDto → List ℕ) (message : WebhookDto)
      (d : PaystackData)
      → IsSound now w.bookings
      → All (λ q. (i : ℕ) → q.booking_id ≡ some i → HasKey (λ b. b.id) i w.bookings) w.payments
      → All (λ q. q.paystack_reference ≢ some reply.reference) w.payments
      → (validate_checkout orm brackets now dto w).0 ≡ ok tt
      → orm.find_one Property (λ p. p.id == dto.property_id) w.properties ≡ some property
      → orm.find_one User (λ u. u.id == dto.user_id) w.users ≡ some user
      → orm.find_one Host (λ h. h.id == property.host_id) w.hosts ≡ some host
      → paystack (
          in_kobo (
            amount_due
              (stay_base orm dto property)
              property.caution_fee
              (stay_credits orm dto user w)))
        ≡ some reply
      → reply.status ≡ true
      → user.has_profile ≡ true
      → message.event ≡ charge_success
      → message.payload ≡ some d
      → d.reference ≡ some reply.reference
      → d.status_success ≡ true
      → let v =
          serve_all orm brackets
            ((now, checkout paystack dto)
              ∷ (charged, webhook digest message (digest message))
              ∷ (later, bookings_in_progress)
              ∷ (later, finished_bookings)
              ∷ [])
            w in
        (p : Payment) × ((initialize_transaction orm paystack brackets now dto w).0 ≡ ok p)
        × (b : Booking) × (booking_of orm v p ≡ some b)
        × (b.check_in ≡ dto.check_in_date)
        × (b.check_out ≡ dto.check_out_date)
        × (b.status ≡ status_at later b)
  unfolding serve_all booking_row booking_of card_sale
  paid_stay_follows_clock paystack brackets now charged later dto w property user host reply digest
        message d sound linked fresh valid ep eu eh ey accepted profile event payload referenced
        success =
      let s =
        card_sale property (seen orm user) host (stay_base orm dto property)
          (stay_credits orm dto user w) reply in
      let sold =
        initialize-record_sale orm paystack brackets now dto w property user host reply valid ep eu
          eh ey accepted in
      let (p, done, written) = record_sale-IsWritten orm now dto s w in
      let i = orm.generate Booking (λ x. x.id) w.bookings in
      let w1 = (record_sale orm now dto s w).1 in
      let w2 = (update_payment orm d w1).1 in
      let charge =
        charge_confirms orm now dto s w w1 p user host d written fresh
          (found_by_key orm (λ x. x.id) dto.property_id w.properties property ep)
          (found_by_key orm (λ x. x.id) dto.user_id w.users user eu) profile
          (found_by_key orm (λ x. x.id) property.host_id w.hosts host eh) referenced success in
      let first = serve_sale paystack brackets now dto s w p sold done in
      let second = serve_charge brackets charged digest message d w1 event payload charge.0 in
      let kept_table : w2.bookings ≡ w1.bookings = update_payment-Spares orm d w1 in
      let still : IsSound now w2.bookings = rw kept_table (
        subst (λ v. IsSound now v.bookings) first
          (serve-IsSound orm brackets now (checkout paystack dto) w sound)) in
      let row = booking_row now dto s i in
      let rows : All (IsKept i dto.check_in_date dto.check_out_date) w2.bookings =
        rw (kept_table, written.bookings)
          (orm.save_all Booking (IsKept i dto.check_in_date dto.check_out_date) (λ x. x.id) row
            w.bookings (λ _. (refl, refl, refl))
            (All-map (λ x. x.id ≢ i) _ (λ x ne _ e. absurd (ne e)) w.bookings
              (orm.generate_fresh Booking (λ x. x.id) w.bookings))) in
      let has : HasKey (λ b. b.id) i w2.bookings =
        rw (kept_table, written.bookings)
          (orm.save_has Booking (λ x. x.id) row w.bookings i (inl refl)) in
      let (b, found, starts, ends, follows) =
        jobs_settle_stay i dto.check_in_date dto.check_out_date later w2 still.unique
          (All-map (IsTimely now) _ (λ b t. t.in_order) w2.bookings still.timely) rows has
          (written_is_paid now dto s w w1 w2 p written linked charge.1) in
      (
        p,
        ap (λ x. x.0) sold ∙ done,
        b,
        rw (booking_of, written.booked, first, second, serve_jobs brackets later w2) found,
        starts,
        ends,
        follows,
      )
