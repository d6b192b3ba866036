-- ===== src/Tasks/Reminder.antt =====
-- `handleBookingsReminder` of src/tasks/tasks.service.ts, and the callback of the job that
-- `jobScheduler` of the same file starts for a payment in crypto currency.
use sojourn_backend.Prelude.{
  ℕ, ◌≡◌, refl, sym, ap, subst, ◌∙◌, pos, ◌≤ℤ◌, leb_ℤ, ltb_ℤ, Bool, true, not, ◌&&◌, ◌||◌, Option,
  some, List, [], ◌∷◌, ◌++◌, Mem, All, All-Mem, Option-cases, Bool-cases, ◌⊎◌, inl, inr, ◌==◌,
  arith, ℤ, ◌+ℤ◌,
}
use mathlib.Core.List.{append_assoc, append-nil}
use sojourn_backend.Entities.{
  is_paid_pending, Booking, Payment, PaymentStatus, Property, User, Host, is_completed, is_pending,
}
use sojourn_backend.Orm.{Orm}
use sojourn_backend.App.{
  World, Event, Handler, ok, err, Result-cases, Exception, ◌>>=◌, ◌>>◌, pure, gets, deref, or_throw,
  throw_if, when, emit,
}
use sojourn_backend.Time.{number_of_nights}
use sojourn_backend.Tasks.BookingJobs.{payment_of}
use sojourn_backend.Webhook.Confirm.{get_payment_by_reference, save_payment}

-- The number of guests of a booking
abbrev pub audience_of : Booking → ℤ
audience_of b = b.number_of_adults +ℤ b.number_of_children +ℤ b.number_of_infants

-- The reminder of a booking: its number of guests and that of its nights.
abbrev pub reminder : Booking → Event
reminder b = Event.booking_reminder b.id (audience_of b) (number_of_nights b.check_in b.check_out)

-- `for (const x of xs)`: the first exception ends the loop.
unfoldable for_each : {A : Type 0} → List A → (A → Handler (Unit {0})) → Handler (Unit {0})
for_each [] f w = (ok tt, w)
for_each (x ∷ xs) f w =
    let (r, w') = f x w in
    let rest = for_each xs f w' in elim r [ ok _ ↦ rest | err e ↦ (err e, w') ]

module _ (orm : Orm) where
  -- `getAllPendingBookings`: the condition that the holding window is `null` may be left out of
  -- the query.
  unfoldable pub get_all_pending_bookings : World → List Booking
  get_all_pending_bookings w =
      orm.find Booking (λ b. (is_pending b.status || is_paid_pending b.status) && orm.skips_null)
        w.bookings

  unfoldable pub remind_booking : ℕ → World → Booking → Handler (Unit {0})
  unfolding payment_of
  remind_booking now loaded b = do
    p ← deref (payment_of orm loaded b)
    when (is_completed p.payment_status) (do
      property ← deref (orm.find_one Property (λ x. x.id == b.property_id) loaded.properties)
      host ← deref (orm.find_one Host (λ h. h.id == property.host_id) loaded.hosts)
      let nights = number_of_nights now b.check_in
      when (leb_ℤ nights (pos 3) && ltb_ℤ (pos 0) nights) (do
        throw_if (not host.has_profile) Exception.type_error
        guest ← deref (orm.find_one User (λ u. u.id == b.guest_id) loaded.users)
        emit (reminder b)))

  unfoldable pub handle_bookings_reminder : ℕ → Handler (Unit {0})
  unfolding get_all_pending_bookings remind_booking for_each
  handle_bookings_reminder now w = for_each (get_all_pending_bookings w) (remind_booking now w) w

  -- One call of the job for a payment: `status` says whether NowPayments reports it as finished,
  -- `none` that the request failed. The result is whether the job deletes itself. The payment is
  -- only read once it is finished, so the holding window plays no part before that.
  unfoldable pub validate_crypto_payment : Option Bool → ℕ → Handler Bool
  unfolding get_payment_by_reference save_payment
  validate_crypto_payment status ref = do
    finished ← or_throw status Exception.provider_error
    when finished (do
      p ← deref (← gets (get_payment_by_reference orm (some ref)))
      save_payment orm (record p { payment_status = PaymentStatus.completed }))
    pure finished

  -- A reminder that is due: it is of a row of the table that is paid for and begins within one to
  -- three nights.
  abbrev pub IsDue : ℕ → World → Event → Type 0
  IsDue now w e =
      (b : Booking) × (p : Payment) × Mem b w.bookings
      × (e ≡ reminder b)
      × (payment_of orm w b ≡ some p)
      × (is_completed p.payment_status ≡ true)
      × (pos 1 ≤ℤ number_of_nights now b.check_in)
      × (number_of_nights now b.check_in ≤ℤ pos 3)

  abbrev Emits : ℕ → World → World → World → Type 0
  Emits now loaded w w' =
      (es : List Event) × (w' ≡ record w { events = w.events ++ es }) × All (IsDue now loaded) es

  remind_booking-cases :
      (now : ℕ) (loaded : World) (b : Booking) (w : World)
      → Mem b loaded.bookings
      → ((remind_booking now loaded b w).1 ≡ w)
        ⊎ (((remind_booking now loaded b w).1 ≡ record w { events = w.events ++ reminder b ∷ [] })
            × IsDue now loaded (reminder b))
  unfolding remind_booking
  remind_booking-cases now loaded b w row = elim (Option-cases (payment_of orm loaded b)) [
    | inl unpaid ↦ inl (ground arith)
    | inr (p, ep) ↦ elim (Bool-cases (is_completed p.payment_status)) [
      | inr unsettled ↦ inl (ground arith)
      | inl paid ↦
          let nights = number_of_nights now b.check_in in
          elim (Bool-cases (leb_ℤ nights (pos 3) && ltb_ℤ (pos 0) nights)) [
            | inr far ↦ inl (ground arith)
            | inl soon ↦
                let due : IsDue now loaded (reminder b) =
                  (b, p, row, refl, ep, paid, ground arith, ground arith) in
                elim (Option-cases
                  (orm.find_one Property (λ x. x.id == b.property_id) loaded.properties)) [
                    | inl no_property ↦ inl (ground arith)
                    | inr (property, epr) ↦
                        elim (Option-cases
                          (orm.find_one Host (λ h. h.id == property.host_id) loaded.hosts)) [
                            | inl no_host ↦ inl (ground arith)
                            | inr (host, eh) ↦ elim (Bool-cases host.has_profile) [
                              | inr no_profile ↦ inl (ground arith)
                              | inl profile ↦
                                  elim (Option-cases
                                    (orm.find_one User (λ u. u.id == b.guest_id) loaded.users)) [
                                      | inl no_guest ↦ inl (ground arith)
                                      | inr (guest, eg) ↦ inr (ground arith, due)
                                    ]
                            ]
                          ]
                  ]
          ]
    ]
  ]

  append_reminder :
      (now : ℕ) (loaded : World) (b : Booking) (w w' : World)
      → IsDue now loaded (reminder b)
      → Emits now loaded (record w { events = w.events ++ reminder b ∷ [] }) w'
      → Emits now loaded w w'
  append_reminder now loaded b w w' due (es, same, all) = (
    reminder b ∷ es,
    same ∙ ap (λ t. record w { events = t }) (append_assoc w.events (reminder b ∷ []) es),
    (due, all),
  )

  empty-Emits : (now : ℕ) (loaded w : World) → Emits now loaded w w
  empty-Emits now loaded w = ([], ap (λ t. record w { events = t }) (sym (append-nil w.events)), tt)

  for_each-Emits :
      (now : ℕ) (loaded : World) (rows : List Booking) (w : World)
      → All (λ b. Mem b loaded.bookings) rows
      → Emits now loaded w (for_each rows (remind_booking now loaded) w).1
  unfolding for_each
  for_each-Emits now loaded [] w h = empty-Emits now loaded w
  for_each-Emits now loaded (b ∷ bs) w h =
      let w1 = (remind_booking now loaded b w).1 in
      let last = (for_each (b ∷ bs) (remind_booking now loaded) w).1 in
      let rest : Emits now loaded w1 last = elim (Result-cases (remind_booking now loaded b w).0) [
        | inl (u, e) ↦ rw (e, for_each) (for_each-Emits now loaded bs w1 h.1)
        | inr (x, e) ↦ rw (e, for_each) (empty-Emits now loaded w1)
      ] in
      elim (remind_booking-cases now loaded b w h.0) [
        | inl same ↦ subst (λ v. Emits now loaded v last) same rest
        | inr (sent, due) ↦
            append_reminder now loaded b w last due (subst (λ v. Emits now loaded v last) sent rest)
      ]

  -- The reminder job changes nothing but the events, and adds only reminders of rows of the table
  -- of bookings that are paid for and begin within one to three nights.
  pub handle_bookings_reminder-IsDue :
      (now : ℕ) (w : World)
      → (es : List Event) × ((handle_bookings_reminder now w).1
          ≡ record w { events = w.events ++ es })
        × All (IsDue now w) es
  unfolding handle_bookings_reminder get_all_pending_bookings
  handle_bookings_reminder-IsDue now w =
      for_each-Emits now w (get_all_pending_bookings w) w
        (orm.find_keeps Booking (λ b. Mem b w.bookings) _ w.bookings (All-Mem w.bookings))
